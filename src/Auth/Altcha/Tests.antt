-- ===== src/Auth/Altcha/Tests.antt =====
-- The proof of work on a concrete solution.
use webcasa.Base.{
  ℕ, true, false, ◌≡◌, refl, none, some, List, [], ◌∷◌, ◌=s◌, if◌then◌else◌, arith, String,
}
use webcasa.Auth.Altcha.{
  Payload, AltchaLib, Seen, verify_altcha_solution, sweep, mark_altcha_used, solution_key,
  is_redeemed,
}
use webcasa.Auth.Altcha.Once.{redeem_all, redeemed_once}

abbrev solved : String → Payload
solved challenge = record {
  algorithm = "SHA-256";
  challenge = challenge;
  number = 7;
  salt = "salt";
  signature = "signature";
}

abbrev lib : AltchaLib
lib = record {
  decode = λ s. if s =s "" then none else some (solved s);
  verify_solution = λ p. some true;
}

abbrev unused : Seen
unused = λ key. none

abbrev between : List (ℕ × String)
between = (3_000_000_000, "other") ∷ (4_000_000_000, "work") ∷ []

redeemed_once_example :
    let used = redeem_all lib (verify_altcha_solution lib unused 2_000_000_000 "work").0 between in
    is_redeemed (verify_altcha_solution lib used 121_000_000_000 "work").1 ≡ false
unfolding verify_altcha_solution mark_altcha_used sweep solution_key
redeemed_once_example =
    redeemed_once lib unused 2_000_000_000 "work" (solved "work") refl refl between 121_000_000_000
      "work" (solved "work") (omega arith, (omega arith, tt)) (omega arith) refl refl
