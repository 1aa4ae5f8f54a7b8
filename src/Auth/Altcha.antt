-- ===== src/Auth/Altcha.antt =====
-- internal/auth/altcha.go: the proof of work of a login, which is redeemed once. The store is a function
-- from solution keys to the times at which they expire, in nanoseconds. The base64 and JSON of a payload
-- and the check of a solution are those of libraries and so arguments.
pub mod Once
mod Tests
use Prim.Native.String.{◌++◌ as ◌<>◌}
use webcasa.Base.{
  ℕ, ◌+◌, String, Bool, true, false, Option, none, some, is_some, ltb, ◌=s◌, if◌then◌else◌,
}

-- The fields of `altcha.Payload`.
pub record Payload : Type 0 where
  pub algorithm : String
  pub challenge : String
  pub number : ℕ
  pub salt : String
  pub signature : String

-- `decode` is `none` where the text is no base64 or no JSON of a payload; `verify_solution` is `none`
-- where the library reports an error.
pub record AltchaLib : Type 0 where
  pub decode : String → Option Payload
  pub verify_solution : Payload → Option Bool

-- `altchaUsedStore`.
abbrev pub Seen : Type 0
Seen = String → Option ℕ

-- `altchaTTL`.
abbrev pub altcha_ttl : ℕ
altcha_ttl = 120_000_000_000

unexpired : ℕ → Option ℕ → Option ℕ
unexpired now none = none
unexpired now (some exp) = if ltb exp now then none else some exp

-- The sweep of `markAltchaUsed`.
unfoldable pub sweep : Seen → ℕ → Seen
unfolding unexpired
sweep seen now = λ key. unexpired now (seen key)

-- `markAltchaUsed`.
unfoldable pub mark_altcha_used : Seen → ℕ → String → Seen × Bool
unfolding sweep
mark_altcha_used seen now key =
    let swept = sweep seen now in
    if is_some (swept key)
    then (swept, false)
    else ((λ j. if key =s j then some (now + altcha_ttl) else swept j), true)

unfoldable pub solution_key : Payload → String
solution_key solution =
    if solution.challenge =s ""
    then solution.salt <> ":" <> solution.signature
    else solution.challenge

redeem : Seen → ℕ → Payload → Option Bool → Seen × Option Bool
unfolding mark_altcha_used solution_key
redeem seen now solution none = (seen, none)
redeem seen now solution (some false) = (seen, some false)
redeem seen now solution (some true) =
    let (seen', fresh) = mark_altcha_used seen now (solution_key solution) in (seen', some fresh)

verify_payload : AltchaLib → Seen → ℕ → Option Payload → Seen × Option Bool
unfolding redeem
verify_payload lib seen now none = (seen, none)
verify_payload lib seen now (some solution) =
    redeem seen now solution (lib.verify_solution solution)

-- `VerifyAltchaSolution`: `none` is an error.
unfoldable pub verify_altcha_solution : AltchaLib → Seen → ℕ → String → Seen × Option Bool
unfolding verify_payload
verify_altcha_solution lib seen now payload = verify_payload lib seen now (lib.decode payload)

-- What the handlers ask: neither an error nor a refusal.
abbrev pub is_redeemed : Option Bool → Bool
is_redeemed none = false
is_redeemed (some ok) = ok
