-- ===== src/Auth/Altcha/Once.antt =====
-- A solved proof of work lets a client in once.
use webcasa.Base.{
  ℕ, ◌+◌, ◌≤◌, String, true, false, ◌≡◌, some, List, [], ◌∷◌, All, arith, eq_iff, eq_refl,
  Option-cases, inl, inr,
}
use webcasa.Auth.Altcha.{
  Payload, AltchaLib, Seen, altcha_ttl, verify_altcha_solution, solution_key, is_redeemed,
}

module _ (lib : AltchaLib) where
  -- The store after a run of redemptions, each at its time.
  pub redeem_all : Seen → List (ℕ × String) → Seen
  redeem_all seen [] = seen
  redeem_all seen ((now, payload) ∷ rest) =
      redeem_all (verify_altcha_solution lib seen now payload).0 rest

  -- A redemption marks its key.
  redeemed_marks :
      (seen : Seen) (now : ℕ) (payload : String) (solution : Payload)
      → lib.decode payload ≡ some solution
      → is_redeemed (verify_altcha_solution lib seen now payload).1 ≡ true
      → (verify_altcha_solution lib seen now payload).0 (solution_key solution)
        ≡ some (now + altcha_ttl)
  unfolding verify_altcha_solution
  redeemed_marks seen now payload solution d h =
      ground (arith, d, h, eq_refl (solution_key solution))

  -- A mark stays as long as it has not expired.
  mark_stays :
      (seen : Seen) (now exp : ℕ) (payload key : String)
      → seen key ≡ some exp
      → now ≤ exp
      → (verify_altcha_solution lib seen now payload).0 key ≡ some exp
  unfolding verify_altcha_solution
  mark_stays seen now exp payload key s le = elim (Option-cases (lib.decode payload)) [
    | inl e ↦ ground arith
    | inr (p, e) ↦ ground (arith, s, le, eq_iff (solution_key p) key)
  ]

  marks_stay :
      (seen : Seen) (exp : ℕ) (key : String) (run : List (ℕ × String))
      → seen key ≡ some exp
      → All (λ p. p.0 ≤ exp) run
      → redeem_all seen run key ≡ some exp
  unfolding redeem_all
  marks_stay seen exp key [] s h = s
  marks_stay seen exp key ((now, payload) ∷ rest) s (h, hs) =
      marks_stay (verify_altcha_solution lib seen now payload).0 exp key rest
        (mark_stays seen now exp payload key s h) hs

  marked_refused :
      (seen : Seen) (now exp : ℕ) (payload : String) (solution : Payload)
      → lib.decode payload ≡ some solution
      → seen (solution_key solution) ≡ some exp
      → now ≤ exp
      → is_redeemed (verify_altcha_solution lib seen now payload).1 ≡ false
  unfolding verify_altcha_solution
  marked_refused seen now exp payload solution d s le = ground (arith, d, s, le)

  -- Once a solution is redeemed, a payload with the same key, which is the challenge or the salt and
  -- the signature, is refused until 120 seconds later, whatever else is redeemed in these 120 seconds.
  pub redeemed_once :
      (seen : Seen) (now : ℕ) (payload : String) (solution : Payload)
      → lib.decode payload ≡ some solution
      → is_redeemed (verify_altcha_solution lib seen now payload).1 ≡ true
      → (between : List (ℕ × String)) (later : ℕ) (again : String) (other : Payload)
      → All (λ p. p.0 ≤ now + altcha_ttl) between
      → later ≤ now + altcha_ttl
      → lib.decode again ≡ some other
      → solution_key other ≡ solution_key solution
      → let used = redeem_all (verify_altcha_solution lib seen now payload).0 between in
        is_redeemed (verify_altcha_solution lib used later again).1 ≡ false
  redeemed_once seen now payload solution d h between later again other inside le d' same =
      let marked = redeemed_marks seen now payload solution d h in
      let used = redeem_all (verify_altcha_solution lib seen now payload).0 between in
      marked_refused used later (now + altcha_ttl) again other d'
        (rw same (
          marks_stay (verify_altcha_solution lib seen now payload).0 (now + altcha_ttl)
            (solution_key solution) between marked inside))
        le
