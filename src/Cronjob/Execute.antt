-- ===== src/Cronjob/Execute.antt =====
-- plugins/cronjob/service.go, `executeTask` and `runCommand`: the guard against a second execution
-- of a task, and the attempts of one execution with what each does to the outside.
pub mod Guard
pub mod Attempts
use webcasa.Base.{
  ℕ, zero, suc, ◌+◌, ◌*◌, ◌-◌, Bool, true, false, not, ◌&&◌, Option, none, some, List, [], ◌∷◌, ltb,
  ◌==◌, if◌then◌else◌, ℤ, pos, negsuc,
}
use webcasa.Cronjob.{CronTask}

-- How the command of an attempt ends: whether its time ran out, and the error of `Run`, with the
-- exit code if it is an `ExitError`.
pub record Outcome : Type 0 where
  pub timed_out : Bool
  pub error : Option (Option ℤ)

pub data Status : Type 0 where
  success timeout failed : Status

abbrev pub is_success : Status → Bool
is_success success = true
is_success timeout = false
is_success failed = false

exit_of : Option (Option ℤ) → Status × ℤ
exit_of none = (success, pos 0)
exit_of (some (some code)) = (failed, code)
exit_of (some none) = (failed, negsuc 0)

-- The status and the exit code of an attempt.
pub verdict : Outcome → Status × ℤ
unfolding exit_of
verdict o = if o.timed_out then (timeout, negsuc 0) else exit_of o.error

-- What an attempt does, in order: it sleeps for a number of seconds, runs the command with a limit in
-- seconds, writes the log, updates the row of the task, and publishes its events.
pub data Effect : Type 0 where
  slept : ℕ → Effect
  ran : ℕ → Effect
  logged : Status → ℤ → Effect
  marked : Status → Effect
  published_executed : Status → ℤ → Effect
  published_failed : ℤ → Effect

-- The body of the loop but for its end.
pub attempt_once : ℕ → ℕ → Outcome → List Effect → List Effect
unfolding verdict
attempt_once seconds attempt o rest =
    let (status, code) = verdict o in
    let tail =
      ran seconds ∷ logged status code ∷ marked status ∷ published_executed status code ∷ rest in
    if ltb 0 attempt then slept (attempt * 2) ∷ tail else tail

-- The loop, with `left` attempts to go.
pub run_from : (ℕ → Outcome) → ℕ → ℕ → ℕ → ℕ → List Effect
unfolding attempt_once
run_from outcome seconds attempts attempt zero = []
run_from outcome seconds attempts attempt (suc left) =
    let o = outcome attempt in
    let later = run_from outcome seconds attempts (attempt + 1) left in
    attempt_once seconds attempt o (
      if is_success (verdict o).0
      then []
      else if attempt == attempts - 1
      then published_failed (verdict o).1 ∷ later
      else later)

-- 1 + MaxRetries, at most 10.
pub attempts_of : CronTask → ℕ
attempts_of t = let n = 1 + t.max_retries in if ltb 10 n then 10 else n

pub seconds_of : CronTask → ℕ
seconds_of t = if t.timeout_sec == 0 then 300 else t.timeout_sec

-- `runCommand`, for a task that ends as `outcome` says at each attempt.
unfoldable pub run_command : (ℕ → Outcome) → CronTask → List Effect
unfolding run_from
run_command outcome t = run_from outcome (seconds_of t) (attempts_of t) 0 (attempts_of t)

-- What `executeTask` answers before it runs anything; `runs` carries the `running` map it leaves.
pub data Begin : Type 0 where
  task_not_found disabled skipped : Begin
  runs : (ℕ → Bool) → Begin

unfoldable pub begin_execution : (ℕ → Bool) → ℕ → Option CronTask → Bool → Begin
begin_execution running id none is_manual = task_not_found
begin_execution running id (some t) is_manual =
    if not t.enabled && not is_manual
    then disabled
    else if running id
    then skipped
    else runs (λ j. if id == j then true else running j)

-- The deferred deletion.
pub end_execution : (ℕ → Bool) → ℕ → ℕ → Bool
end_execution running id j = if id == j then false else running j
