-- ===== src/Auth/Token.antt =====
-- internal/auth/auth.go: the middleware that turns a request into an identity, and the scopes of API
-- tokens. Parsing a JWT, hashing and JSON are arguments; a database answers, finds no row, or fails.
pub mod Gates
mod Tests
use Prim.Native.String.{len}
use webcasa.Base.{
  ℕ, ◌<◌, String, Bool, true, false, not, ◌&&◌, ◌||◌, Option, none, some, List, [], ◌∷◌, ltb, ◌==◌,
  ◌=s◌, if◌then◌else◌, split, cut, cut_prefix, has_prefix, trim_space, lower_is, take_bytes,
}

pub record Claims : Type 0 where
  pub user_id : ℕ
  pub username : String
  pub pending_2fa : Bool
  pub token_version : ℕ

pub data Query {ℓ} (A : Type ℓ) : Type ℓ where
  failed : Query A
  no_row : Query A
  row : A → Query A

pub record TokenRow : Type 0 where
  pub id : ℕ
  pub user_id : ℕ
  pub prefix : String
  pub token_hash : String
  pub permissions : String
  pub expires_at : Option ℕ

pub record AuthDb : Type 0 where
  pub api_tokens : Query (List TokenRow)
  pub token_version : ℕ → Query ℕ

pub record Request : Type 0 where
  pub authorization : String
  pub is_upgrade : Bool
  pub protocols : String
  pub query_token : String

-- What the middleware leaves in the context; `scopes` is set for an API token.
pub record Identity : Type 0 where
  pub user_id : ℕ
  pub username : String
  pub scopes : Option (List String)

pub data Outcome : Type 0 where
  unauthorized : String → Outcome
  proceed : Identity → Outcome

bearer : Option (String × String) → String
bearer none = ""
bearer (some (scheme, rest)) = if lower_is scheme "bearer" then rest else ""

nonempty : Option String → String → String
nonempty none other = other
nonempty (some s) other = if s =s "" then other else s

-- The first subprotocol `webcasa.token.<jwt>` that carries a token.
protocol_token : List String → String
unfolding nonempty
protocol_token [] = ""
protocol_token (raw ∷ rest) =
    nonempty (cut_prefix "webcasa.token." (trim_space raw)) (protocol_token rest)

-- The token of a request: the header first, and for a WebSocket upgrade the subprotocol, then the
-- query parameter.
pub extract_token : Request → String
unfolding bearer protocol_token
extract_token r =
    let header = bearer (cut b' ' r.authorization) in
    if header =s "" && r.is_upgrade
    then (let sub = protocol_token (split b',' r.protocols) in
        if sub =s "" then r.query_token else sub)
    else header

-- `parseTokenScopes`, over what `json.Unmarshal` makes of the text.
pub parse_token_scopes : (String → Option (List String)) → String → List String
parse_token_scopes unmarshal permissions =
    if permissions =s "" || permissions =s "[]"
    then []
    else (elim (unmarshal permissions) [ none ↦ [] | some scopes ↦ scopes ])

-- `prefix = ?`: bytes that end inside a character are the prefix of no row.
has_column : String → Option String → Bool
has_column column none = false
has_column column (some text) = column =s text

module _ (parse_token : String → Option Claims) (hash : String → String)
    (unmarshal : String → Option (List String)) where
  abbrev pub expired : ℕ → Option ℕ → Bool
  expired now none = false
  expired now (some t) = ltb t now

  accept_row : TokenRow → ℕ → Outcome
  accept_row t now =
      if expired now t.expires_at
      then unauthorized "API token expired"
      else proceed (record {
        user_id = t.user_id;
        username = "api-token";
        scopes = some (parse_token_scopes unmarshal t.permissions);
      })

  -- The candidates with the token's prefix; the first one with its hash decides.
  find_row : String → ℕ → List TokenRow → Outcome
  unfolding accept_row has_column
  find_row plaintext now [] = unauthorized "invalid API token"
  find_row plaintext now (t ∷ rest) =
      let later = find_row plaintext now rest in
      if has_column t.prefix (take_bytes 11 plaintext) && t.token_hash =s hash plaintext
      then accept_row t now
      else later

  find_rows : String → ℕ → Query (List TokenRow) → Outcome
  find_rows plaintext now failed = unauthorized "token validation failed"
  find_rows plaintext now no_row = unauthorized "invalid API token"
  find_rows plaintext now (row rows) = find_row plaintext now rows

  -- `validateAPIToken`; the update of `last_used_at` changes nothing that is modelled.
  pub validate_api_token : AuthDb → String → ℕ → Outcome
  unfolding find_rows
  validate_api_token db plaintext now =
      if ltb (len plaintext) 11
      then unauthorized "invalid API token format"
      else find_rows plaintext now db.api_tokens

  -- `Scan` leaves the version at 0 where there is no row.
  check_version : Claims → Query ℕ → Outcome
  check_version claims failed = unauthorized "Invalid or expired token"
  check_version claims no_row =
      if claims.token_version == 0
      then proceed (record { user_id = claims.user_id; username = claims.username; scopes = none })
      else unauthorized "Session expired, please log in again"
  check_version claims (row tv) =
      if claims.token_version == tv
      then proceed (record { user_id = claims.user_id; username = claims.username; scopes = none })
      else unauthorized "Session expired, please log in again"

  check_claims : AuthDb → Option Claims → Outcome
  unfolding check_version
  check_claims db none = unauthorized "Invalid or expired token"
  check_claims db (some claims) =
      if claims.pending_2fa
      then unauthorized "2FA verification required"
      else check_version claims (db.token_version claims.user_id)

  check_token : AuthDb → ℕ → String → Outcome
  unfolding validate_api_token check_claims
  check_token db now token =
      if token =s ""
      then unauthorized "Authorization required"
      else if has_prefix token "wc_"
      then validate_api_token db token now
      else check_claims db (parse_token token)

  -- `Middleware`, with a database.
  pub authenticate : AuthDb → ℕ → Request → Outcome
  unfolding check_token
  authenticate db now r = check_token db now (extract_token r)

scope_parts : String → Option (String × String) → String × String
scope_parts s none = (s, "*")
scope_parts s (some parts) = parts

-- `splitScope`.
pub split_scope : String → String × String
unfolding scope_parts
split_scope s = scope_parts s (cut b':' s)

grants : String → String × String → String × String → Bool
grants g (r_cat, r_act) (g_cat, g_act) =
    g =s "*" || ((g_cat =s "*" || g_cat =s r_cat) && (g_act =s "*" || g_act =s r_act))

-- `scopeMatches`.
pub scope_matches : List String → String → Bool
unfolding grants
scope_matches [] required = false
scope_matches (g ∷ gs) required =
    grants g (split_scope required) (split_scope g) || scope_matches gs required

pub data Method : Type 0 where
  get head post put patch delete : Method

pub mutates : Method → Bool
mutates get = false
mutates head = false
mutates _ = true

scope_gate : Option (List String) → String → Bool
scope_gate none scope = true
scope_gate (some granted) scope = scope_matches granted scope

-- `RequireTokenScope`: whether the request passes.
pub require_token_scope : String → Identity → Bool
unfolding scope_gate
require_token_scope scope who = scope_gate who.scopes scope

-- `RequireTokenScopeForMutations`.
pub require_token_scope_for_mutations : String → Method → Identity → Bool
require_token_scope_for_mutations scope m who =
    if mutates m then require_token_scope scope who else true

-- `RequireFullScopeForMutations`.
pub require_full_scope_for_mutations : Method → Identity → Bool
unfolding require_token_scope_for_mutations
require_full_scope_for_mutations = require_token_scope_for_mutations "*"
