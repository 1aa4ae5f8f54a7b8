-- ===== src/Auth/Token/Gates.antt =====
-- What a request must show before it is let through.
use webcasa.Base.{
  ℕ, String, true, false, ◌&&◌, ◌||◌, ◌≡◌, ◌↔◌, ◌⊎◌, inl, inr, Option, none, some, List, [], ◌∷◌,
  Any, arith, eq_iff, ◌=s◌, has_prefix, cut, refl, sym, ap, Bool-cases, Option-cases, take_bytes,
  ◌==◌, if◌then◌else◌,
}
use webcasa.Auth.Token.{
  Claims, Query, failed, no_row, row, TokenRow, AuthDb, Request, Identity, unauthorized, proceed,
  extract_token, find_row, has_column, parse_token_scopes, grants, expired, authenticate,
  scope_matches, split_scope, Method, mutates, require_token_scope,
  require_full_scope_for_mutations,
}

Query-cases {ℓ} : {A : Type ℓ} (q : Query A) → (q ≡ failed) ⊎ (q ≡ no_row) ⊎ ((a : A) × (q ≡ row a))
Query-cases failed = inl refl
Query-cases no_row = inr (inl refl)
Query-cases (row a) = inr (inr (a, refl))

has_column→some :
    (column : String) (text : Option String) → has_column column text ≡ true → text ≡ some column
unfolding has_column
has_column→some column none h = absurd (ground (arith, h))
has_column→some column (some text) h = ap some (sym ((eq_iff column text).0 h))

module _ (parse_token : String → Option Claims) (hash : String → String)
    (unmarshal : String → Option (List String)) where
  -- A session token that is let through parses, has passed its second factor, and carries the
  -- version of its user's row, or version 0 where the user has no row.
  pub session_proceeds :
      (db : AuthDb) (now : ℕ) (r : Request) (who : Identity)
      → has_prefix (extract_token r) "wc_" ≡ false
      → authenticate parse_token hash unmarshal db now r ≡ proceed who
      → (claims : Claims) × (parse_token (extract_token r) ≡ some claims)
        × (claims.pending_2fa ≡ false)
        × (who ≡ record { user_id = claims.user_id; username = claims.username; scopes = none })
        × ((db.token_version claims.user_id ≡ row claims.token_version)
            ⊎ ((db.token_version claims.user_id ≡ no_row) × (claims.token_version ≡ 0)))
  unfolding authenticate
  session_proceeds db now r who p h = elim (Option-cases (parse_token (extract_token r))) [
    | inl e ↦ absurd (ground arith)
    | inr (claims, e) ↦ elim (Query-cases (db.token_version claims.user_id)) [
      | inl q ↦ absurd (ground arith)
      | inr (inl q) ↦ (claims, e, ground arith, ground arith, inr (q, ground arith))
      | inr (inr (tv, q)) ↦ (claims, e, ground arith, ground arith, inl (ground arith))
    ]
  ]

  -- A database whose row of a user has a version, or is not there.
  abbrev pub with_version : ℕ → Query ℕ → AuthDb → AuthDb
  with_version uid q db = record db {
    token_version = λ j. if uid == j then q else db.token_version j;
  }

  -- A session token of version 0 that is refused because its user's version has moved on is let through
  -- again once the row of the user is deleted.
  pub deletion_revives :
      (db : AuthDb) (now : ℕ) (r : Request) (claims : Claims)
      → has_prefix (extract_token r) "wc_" ≡ false
      → authenticate parse_token hash unmarshal db now r
        ≡ unauthorized "Session expired, please log in again"
      → parse_token (extract_token r) ≡ some claims
      → claims.token_version ≡ 0
      → authenticate parse_token hash unmarshal (with_version claims.user_id no_row db) now r
        ≡ proceed (record { user_id = claims.user_id; username = claims.username; scopes = none })
  unfolding authenticate
  deletion_revives db now r claims p h e v = ground (
    arith,
    h,
    eq_iff "Session expired, please log in again" "Authorization required",
    eq_iff "Session expired, please log in again" "2FA verification required",
  )

  abbrev pub Lets : String → ℕ → Identity → TokenRow → Type 0
  Lets plaintext now who t =
      (take_bytes 11 plaintext ≡ some t.prefix)
      × (t.token_hash ≡ hash plaintext)
      × (expired parse_token hash unmarshal now t.expires_at ≡ false)
      × (who ≡ record {
        user_id = t.user_id;
        username = "api-token";
        scopes = some (parse_token_scopes unmarshal t.permissions);
      })

  find_row_proceeds :
      (plaintext : String) (now : ℕ) (rows : List TokenRow) (who : Identity)
      → find_row parse_token hash unmarshal plaintext now rows ≡ proceed who
      → Any (Lets plaintext now who) rows
  unfolding find_row
  find_row_proceeds plaintext now [] who h = cc
  find_row_proceeds plaintext now (t ∷ rest) who h =
      elim (Bool-cases
        (has_column t.prefix (take_bytes 11 plaintext) && t.token_hash =s hash plaintext)) [
          | inl y ↦ inl (
            has_column→some t.prefix (take_bytes 11 plaintext) (ground (arith, y)),
            ground (arith, eq_iff t.token_hash (hash plaintext)),
            ground arith,
            ground arith,
          )
          | inr n ↦ inr (find_row_proceeds plaintext now rest who (rw n at h))
        ]

  -- An API token that is let through is the text of a stored token: some row has its prefix and its
  -- hash and has not expired, and the identity is that row's user with the scopes that its permissions
  -- parse to.
  pub api_token_proceeds :
      (db : AuthDb) (now : ℕ) (r : Request) (who : Identity)
      → has_prefix (extract_token r) "wc_" ≡ true
      → authenticate parse_token hash unmarshal db now r ≡ proceed who
      → (rows : List TokenRow) × (db.api_tokens ≡ row rows)
        × Any (Lets (extract_token r) now who) rows
  unfolding authenticate
  api_token_proceeds db now r who p h = elim (Query-cases db.api_tokens) [
    | inl q ↦ absurd (ground arith)
    | inr (inl q) ↦ absurd (ground arith)
    | inr (inr (rows, q)) ↦
        (rows, q, find_row_proceeds (extract_token r) now rows who (ground arith))
  ]

-- A scope that stands for every category and every action: `*` or `*:*`.
abbrev pub IsFull : String → Type 0
IsFull g = split_scope g ≡ ("*", "*")

star_IsFull : IsFull "*"
unfolding split_scope cut
star_IsFull = refl

grants-IsFull : (g : String) → (grants g ("*", "*") (split_scope g) ≡ true) ↔ IsFull g
unfolding grants
grants-IsFull g = (
  λ h. elim (Bool-cases (g =s "*")) [
    | inl e ↦ rw ((eq_iff g "*").0 e) star_IsFull
    | inr n ↦ ground (arith, eq_iff (split_scope g).0 "*", eq_iff (split_scope g).1 "*")
  ],
  λ h. ground (arith, eq_iff (split_scope g).0 "*", eq_iff (split_scope g).1 "*"),
)

matches_cons :
    (g : String) (gs : List String)
    → scope_matches (g ∷ gs) "*" ≡ (grants g ("*", "*") (split_scope g) || scope_matches gs "*")
unfolding scope_matches
matches_cons g gs = rw star_IsFull

rest_matches :
    (g : String) (gs : List String)
    → grants g ("*", "*") (split_scope g) ≡ false
    → scope_matches (g ∷ gs) "*" ≡ true
    → scope_matches gs "*" ≡ true
rest_matches g gs n h = ground (arith, matches_cons g gs)

here_matches :
    (g : String) (gs : List String)
    → grants g ("*", "*") (split_scope g) ≡ true
    → scope_matches (g ∷ gs) "*" ≡ true
here_matches g gs n = ground (arith, matches_cons g gs)

there_matches :
    (g : String) (gs : List String)
    → scope_matches gs "*" ≡ true
    → scope_matches (g ∷ gs) "*" ≡ true
there_matches g gs n = ground (arith, matches_cons g gs)

scope_matches-IsFull : (gs : List String) → (scope_matches gs "*" ≡ true) ↔ Any IsFull gs
unfolding scope_matches
scope_matches-IsFull [] = (λ h. cc, λ h. absurd h)
scope_matches-IsFull (g ∷ gs) = (
  λ h. elim (Bool-cases (grants g ("*", "*") (split_scope g))) [
    | inl y ↦ inl ((grants-IsFull g).0 y)
    | inr n ↦ inr ((scope_matches-IsFull gs).0 (rest_matches g gs n h))
  ],
  elim [
    | inl f ↦ here_matches g gs ((grants-IsFull g).1 f)
    | inr r ↦ there_matches g gs ((scope_matches-IsFull gs).1 r)
  ],
)

-- The gate on the REST routes: a request passes exactly when its method does not mutate, when it
-- carries no API token, or when the token's scopes include one for everything.
pub require_full_scope_for_mutations_lem :
    (m : Method) (who : Identity)
    → (require_full_scope_for_mutations m who ≡ true)
      ↔ (mutates m ≡ false)
        ⊎ (who.scopes ≡ none)
        ⊎ ((gs : List String) × (who.scopes ≡ some gs) × Any IsFull gs)
unfolding require_full_scope_for_mutations require_token_scope
require_full_scope_for_mutations_lem m who = elim (Bool-cases (mutates m)) [
  | inr safe ↦ (λ h. inl safe, λ h. ground arith)
  | inl y ↦ elim (Option-cases who.scopes) [
    | inl session ↦ (λ h. inr (inl session), λ h. ground arith)
    | inr (gs, api) ↦ (
      λ h. inr (inr (gs, api, (scope_matches-IsFull gs).0 (ground arith))),
      elim [
        | inl safe ↦ absurd (ground arith)
        | inr (inl session) ↦ absurd (ground arith)
        | inr (inr (hs, same, full)) ↦
            let e : hs ≡ gs = ground arith in
            ground (arith, (scope_matches-IsFull gs).1 (rw e at full))
      ],
    )
  ]
]
