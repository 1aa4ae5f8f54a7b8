-- ===== src/Plugin/ConfigStore/Refinement.antt =====
-- The shared table refines one map for each plugin.
use Prim.Native.Char.{Char, code}
use Prim.Native.String.{◌++◌ as ◌<>◌}
use text.Mathlib.TextLemmas.{nil-append, cons-append, append_assoc}
use webcasa.Base.{
  ℕ, String, Bool, true, false, ◌&&◌, ◌≡◌, ◌≢◌, refl, sym, ◌∙◌, ap, Option, none, some, List, [],
  ◌∷◌, ◌==◌, ◌=s◌, if◌then◌else◌, All, any_char, arith, Bool-cases, inl, inr, eq_iff, eq_refl,
}
use webcasa.Plugin.ConfigStore.{
  Settings, new_config_store, full_key, value_of, get, upserted, set, delete,
}

abbrev pub DotFree : String → Type 0
DotFree id = any_char (λ c. c == b'.') id ≡ false

behind : String → String
behind String.[] = ""
behind (String.◌∷◌ x s) = s

first_code : String → ℕ
first_code String.[] = 0
first_code (String.◌∷◌ x s) = code x

first : String → Option Char
first String.[] = none
first (String.◌∷◌ x s) = some x

dotted : String → String → String
dotted id key = id <> ("." <> key)

dotted-nil : (key : String) → dotted "" key ≡ String.◌∷◌ "." key
unfolding dotted
dotted-nil key =
    nil-append ("." <> key) ∙ cons-append "." "" key ∙ ap (λ s. String.◌∷◌ "." s) (nil-append key)

dotted-cons :
    (x : Char) (id key : String) → dotted (String.◌∷◌ x id) key ≡ String.◌∷◌ x (dotted id key)
unfolding dotted
dotted-cons x id key = cons-append x id ("." <> key)

not_dot : (x : Char) (id : String) → DotFree (String.◌∷◌ x id) → (code x ≢ b'.') × DotFree id
unfolding any_char
not_dot x id h = (ground (arith, h), ground (arith, h))

-- Where the first dot stands, the plugin's name ends.
dotted-injective :
    (i j k l : String) → DotFree i → DotFree j → dotted i k ≡ dotted j l → (i ≡ j) × (k ≡ l)
dotted-injective String.[] String.[] k l hi hj e =
    (refl, unfold behind in ap behind (sym (dotted-nil k) ∙ e ∙ dotted-nil l))
dotted-injective String.[] (String.◌∷◌ y j) k l hi hj e =
    let (n, _) = not_dot y j hj in
    absurd
      (n (sym (unfold first_code in ap first_code (sym (dotted-nil k) ∙ e ∙ dotted-cons y j l))))
dotted-injective (String.◌∷◌ x i) String.[] k l hi hj e =
    let (n, _) = not_dot x i hi in
    absurd (n (unfold first_code in ap first_code (sym (dotted-cons x i k) ∙ e ∙ dotted-nil l)))
dotted-injective (String.◌∷◌ x i) (String.◌∷◌ y j) k l hi hj e =
    let (_, hi') = not_dot x i hi in
    let (_, hj') = not_dot y j hj in
    let whole = sym (dotted-cons x i k) ∙ e ∙ dotted-cons y j l in
    let (same, keys) = dotted-injective i j k l hi' hj' (unfold behind in ap behind whole) in
    let heads : some x ≡ some y = unfold first in ap first whole in
    (ap (λ c. String.◌∷◌ c i) (cc heads) ∙ ap (λ s. String.◌∷◌ y s) same, keys)

full_key-dotted : (id key : String) → full_key id key ≡ "plugin." <> dotted id key
unfolding full_key new_config_store dotted
full_key-dotted id key =
    append_assoc "plugin." (id <> ".") key ∙ ap (λ s. "plugin." <> s) (append_assoc id "." key)

prefix_injective : (p s t : String) → p <> s ≡ p <> t → s ≡ t
prefix_injective String.[] s t e = sym (nil-append s) ∙ e ∙ nil-append t
prefix_injective (String.◌∷◌ x p) s t e =
    prefix_injective p s t
      (unfold behind in ap behind (sym (cons-append x p s) ∙ e ∙ cons-append x p t))

full_key-injective :
    (i j k l : String) → DotFree i → DotFree j → full_key i k ≡ full_key j l → (i ≡ j) × (k ≡ l)
full_key-injective i j k l hi hj e = dotted-injective i j k l hi hj (
    prefix_injective "plugin." (dotted i k) (dotted j l)
      (sym (full_key-dotted i k) ∙ e ∙ full_key-dotted j l))

-- The two tests agree: of the keys of the table, and of a plugin and its key.
full_key-test :
    (i j k l : String) → DotFree i → DotFree j → (full_key i k =s full_key j l) ≡ (i =s j && k =s l)
full_key-test i j k l hi hj = elim (Bool-cases (full_key i k =s full_key j l)) [
  | inl y ↦
      let same : full_key i k ≡ full_key j l =
        ground (arith, y, eq_iff (full_key i k) (full_key j l)) in
      let (si, sk) = full_key-injective i j k l hi hj same in
      ground (arith, y, si, sk, eq_iff i j, eq_iff k l)
  | inr n ↦ elim (Bool-cases (i =s j && k =s l)) [
    | inr m ↦ n ∙ sym m
    | inl m ↦
        let si : i ≡ j = ground (arith, m, eq_iff i j) in
        let sk : k ≡ l = ground (arith, m, eq_iff k l) in
        let same : full_key i k ≡ full_key j l =
          ap (λ a. full_key a k) si ∙ ap (λ b. full_key j b) sk in
        ground (arith, n, same, eq_iff (full_key i k) (full_key j l))
  ]
]

-- What the plugins ask for, with whether the write succeeds.
pub data Request : Type 0 where
  set_key : Bool → String → String → String → Request
  delete_key : Bool → String → String → Request

-- The maps that the plugins are promised: one for each, from keys to values.
abbrev pub Maps : Type 0
Maps = String → String → Option String

unfoldable pub replay : List Request → Maps → Maps
replay [] maps = maps
replay (set_key db_ok id key value ∷ rest) maps =
    replay rest (λ i k. if db_ok && (i =s id && k =s key) then some value else maps i k)
replay (delete_key db_ok id key ∷ rest) maps =
    replay rest (λ i k. if db_ok && (i =s id && k =s key) then none else maps i k)

-- A plugin's name has no dot, and a value that is set is not empty.
abbrev pub IsProper : Request → Type 0
IsProper (set_key db_ok id key value) = DotFree id × (value ≢ "")
IsProper (delete_key db_ok id key) = DotFree id

module _ (assign : String → String → String) where
  unfoldable pub run_requests : List Request → Settings → Settings
  unfolding set delete
  run_requests [] s = s
  run_requests (set_key db_ok id key value ∷ rest) s =
      run_requests rest (set assign db_ok id key value s).0
  run_requests (delete_key db_ok id key ∷ rest) s = run_requests rest (delete db_ok id key s).0

module _ (assign : String → String → String)
    (overwrites : (old value : String) → value ≢ "" → assign old value ≡ value) where
  -- The table holds what the maps hold.
  Agrees : Settings → Maps → Type 0
  Agrees s maps = (i k : String) → DotFree i → s (full_key i k) ≡ maps i k

  upserted-value :
      (o : Option String) (value : String) → value ≢ "" → upserted assign o value ≡ value
  upserted-value none value n = refl
  upserted-value (some old) value n = overwrites old value n

  set-Agrees :
      (db_ok : Bool) (id key value : String) (s : Settings) (maps : Maps)
      → DotFree id
      → value ≢ ""
      → Agrees s maps
      → Agrees
          (set assign db_ok id key value s).0
          (λ i k. if db_ok && (i =s id && k =s key) then some value else maps i k)
  unfolding Agrees set
  set-Agrees false id key value s maps hd n h i k hi = h i k hi
  set-Agrees true id key value s maps hd n h i k hi =
      ap (λ b. if b then some (upserted assign (s (full_key i k)) value) else s (full_key i k))
        (full_key-test i id k key hi hd)
      ∙ ap (λ v. if i =s id && k =s key then some v else s (full_key i k))
          (upserted-value (s (full_key i k)) value n)
      ∙ ap (λ o. if i =s id && k =s key then some value else o) (h i k hi)

  delete-Agrees :
      (db_ok : Bool) (id key : String) (s : Settings) (maps : Maps)
      → DotFree id
      → Agrees s maps
      → Agrees
          (delete db_ok id key s).0
          (λ i k. if db_ok && (i =s id && k =s key) then none else maps i k)
  unfolding Agrees delete
  delete-Agrees false id key s maps hd h i k hi = h i k hi
  delete-Agrees true id key s maps hd h i k hi =
      ap (λ b. if b then none else s (full_key i k)) (full_key-test i id k key hi hd)
      ∙ ap (λ o. if i =s id && k =s key then none else o) (h i k hi)

  run_requests-Agrees :
      (requests : List Request) (s : Settings) (maps : Maps)
      → All IsProper requests
      → Agrees s maps
      → Agrees (run_requests assign requests s) (replay requests maps)
  unfolding run_requests replay
  run_requests-Agrees [] s maps p h = h
  run_requests-Agrees (set_key db_ok id key value ∷ rest) s maps ((hd, n), ps) h =
      run_requests-Agrees rest _ _ ps (set-Agrees db_ok id key value s maps hd n h)
  run_requests-Agrees (delete_key db_ok id key ∷ rest) s maps (hd, ps) h =
      run_requests-Agrees rest _ _ ps (delete-Agrees db_ok id key s maps hd h)

  -- Whatever the plugins set and delete in the table that they share, each of them reads what it would
  -- read from a map of its own, if the names of plugins have no dot, no value that is set is empty, and
  -- a row that is set to a value that is not empty has that value.
  pub run_requests_refine :
      (requests : List Request) (s : Settings) (id key : String)
      → All IsProper requests
      → DotFree id
      → get id key (run_requests assign requests s)
        ≡ value_of (replay requests (λ i k. s (full_key i k)) id key)
  unfolding get Agrees
  run_requests_refine requests s id key p h =
      ap value_of
        (run_requests-Agrees requests s (λ i k. s (full_key i k)) p (λ i k hi. refl) id key h)

-- Setting a value on a row that is there to the empty text changes nothing, if the update leaves the
-- fields out that are empty.
pub set-empty :
    (assign : String → String → String) (db_ok : Bool) (id key old : String) (s : Settings)
    → ((before : String) → assign before "" ≡ before)
    → s (full_key id key) ≡ some old
    → get id key (set assign db_ok id key "" s).0 ≡ old
unfolding get set
set-empty assign true id key old s keeps e =
    ap
      (λ b.
        value_of
          (if b then some (upserted assign (s (full_key id key)) "") else s (full_key id key)))
      (eq_refl (full_key id key))
    ∙ ap (λ o. upserted assign o "") e
    ∙ keeps old
set-empty assign false id key old s keeps e = ap value_of e
