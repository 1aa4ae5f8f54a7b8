-- ===== src/Cronjob/Execute/Attempts.antt =====
-- How an execution tries again: how often it runs the command, how long it sleeps, and when it
-- reports a failure.
use webcasa.Base.{
  ℕ, zero, suc, ◌+◌, ◌*◌, ◌-◌, ◌≤◌, ◌<◌, Bool, true, false, ◌≡◌, refl, List, [], ◌∷◌, arith, ltb,
  ◌==◌, ◌⊎◌, if◌then◌else◌, Bool-cases, inl, inr, ap,
}
use webcasa.Cronjob.{CronTask}
use webcasa.Cronjob.Execute.{
  Outcome, Effect, slept, ran, logged, marked, published_executed, published_failed, is_success,
  verdict, attempt_once, run_from, attempts_of, seconds_of, run_command,
}

-- How often the command ran, for how many seconds the execution slept, how many failures it reported.
pub runs_in : List Effect → ℕ
runs_in [] = 0
runs_in (ran n ∷ es) = 1 + runs_in es
runs_in (slept n ∷ es) = runs_in es
runs_in (logged s c ∷ es) = runs_in es
runs_in (marked s ∷ es) = runs_in es
runs_in (published_executed s c ∷ es) = runs_in es
runs_in (published_failed c ∷ es) = runs_in es

pub sleep_in : List Effect → ℕ
sleep_in [] = 0
sleep_in (slept n ∷ es) = n + sleep_in es
sleep_in (ran n ∷ es) = sleep_in es
sleep_in (logged s c ∷ es) = sleep_in es
sleep_in (marked s ∷ es) = sleep_in es
sleep_in (published_executed s c ∷ es) = sleep_in es
sleep_in (published_failed c ∷ es) = sleep_in es

pub failures_in : List Effect → ℕ
failures_in [] = 0
failures_in (published_failed c ∷ es) = 1 + failures_in es
failures_in (slept n ∷ es) = failures_in es
failures_in (ran n ∷ es) = failures_in es
failures_in (logged s c ∷ es) = failures_in es
failures_in (marked s ∷ es) = failures_in es
failures_in (published_executed s c ∷ es) = failures_in es

abbrev pub succeeds : Outcome → Bool
succeeds o = is_success (verdict o).0

-- `n` attempts from attempt `a` on, at most `left`: all but the last fail, and a failure is reported
-- if the last fails too, which then is the last that there is.
pub Attempted : (ℕ → Outcome) → ℕ → ℕ → List Effect → ℕ → Type 0
Attempted outcome a left es n =
    (1 ≤ n)
    × (n ≤ left)
    × (runs_in es ≡ n)
    × (sleep_in es + n ≡ n * (2 * a + n))
    × ((i : ℕ) → suc i < n → succeeds (outcome (a + i)) ≡ false)
    × (((succeeds (outcome (a + n - 1)) ≡ true) × (failures_in es ≡ 0))
        ⊎ ((succeeds (outcome (a + n - 1)) ≡ false) × (n ≡ left) × (failures_in es ≡ 1)))

attempt_once-counts :
    (seconds a : ℕ) (o : Outcome) (rest : List Effect)
    → (runs_in (attempt_once seconds a o rest) ≡ 1 + runs_in rest)
      × (sleep_in (attempt_once seconds a o rest) ≡ 2 * a + sleep_in rest)
      × (failures_in (attempt_once seconds a o rest) ≡ failures_in rest)
unfolding attempt_once runs_in sleep_in failures_in
attempt_once-counts seconds a o rest = elim (Bool-cases (ltb 0 a)) [
  | inl e ↦ ground arith
  | inr e ↦ ground arith
]

-- One step of the loop, by how its attempt ends.
run_from-step :
    (outcome : ℕ → Outcome) (seconds attempts a left : ℕ)
    → let later = run_from outcome seconds attempts (a + 1) left in
      let es = run_from outcome seconds attempts a (suc left) in
      ((succeeds (outcome a) ≡ true)
        × (runs_in es ≡ 1)
        × (sleep_in es ≡ 2 * a)
        × (failures_in es ≡ 0))
      ⊎ ((succeeds (outcome a) ≡ false)
          × (runs_in es ≡ 1 + runs_in later)
          × (sleep_in es ≡ 2 * a + sleep_in later)
          × (failures_in es ≡ (if a == attempts - 1 then 1 else 0) + failures_in later))
unfolding run_from runs_in sleep_in failures_in
run_from-step outcome seconds attempts a left =
    let o = outcome a in
    let later = run_from outcome seconds attempts (a + 1) left in
    let end =
      if is_success (verdict o).0
      then []
      else if a == attempts - 1
      then published_failed (verdict o).1 ∷ later
      else later in
    let counts = attempt_once-counts seconds a o end in
    elim (Bool-cases (succeeds o)) [
      | inl e ↦ inl (ground (arith, counts))
      | inr e ↦ elim (Bool-cases (a == attempts - 1)) [
        | inl l ↦ inr (ground (arith, counts))
        | inr l ↦ inr (ground (arith, counts))
      ]
    ]

zero-or-suc : (i : ℕ) → (i ≡ 0) ⊎ ((j : ℕ) × (i ≡ suc j))
zero-or-suc zero = inl refl
zero-or-suc (suc j) = inr (j, refl)

first_only : (outcome : ℕ → Outcome) (a i : ℕ) → suc i < 1 → succeeds (outcome (a + i)) ≡ false
first_only outcome a i h = absurd (omega arith)

-- The three ways an attempt goes: it succeeds, it is the last and fails, or others follow.
one_success :
    (outcome : ℕ → Outcome) (a left : ℕ) (es : List Effect)
    → succeeds (outcome a) ≡ true
    → (runs_in es ≡ 1) × (sleep_in es ≡ 2 * a) × (failures_in es ≡ 0)
    → Attempted outcome a (suc left) es 1
unfolding Attempted
one_success outcome a left es e (r, s, f) =
    (omega arith, omega arith, r, omega arith, first_only outcome a, inl (ground arith))

one_failure :
    (outcome : ℕ → Outcome) (a : ℕ) (es : List Effect)
    → succeeds (outcome a) ≡ false
    → (runs_in es ≡ 1) × (sleep_in es ≡ 2 * a) × (failures_in es ≡ 1)
    → Attempted outcome a 1 es 1
unfolding Attempted
one_failure outcome a es e (r, s, f) =
    (omega arith, omega arith, r, omega arith, first_only outcome a, inr (ground arith))

fails_then :
    (outcome : ℕ → Outcome) (a left n : ℕ) (es later : List Effect)
    → succeeds (outcome a) ≡ false
    → (runs_in es ≡ 1 + runs_in later)
      × (sleep_in es ≡ 2 * a + sleep_in later)
      × (failures_in es ≡ failures_in later)
    → Attempted outcome (a + 1) left later n
    → Attempted outcome a (suc left) es (suc n)
unfolding Attempted
fails_then outcome a left n es later e (r, s, f) (pos, le, r', s', before, last) =
    let end : outcome (a + 1 + n - 1) ≡ outcome (a + suc n - 1) = ap outcome (omega arith) in
    (
      omega arith,
      omega arith,
      omega arith,
      omega arith,
      λ i lt. elim (zero-or-suc i) [
        | inl z ↦ rw z (ground arith)
        | inr (j, z) ↦ rw z (ground (arith, before j (omega arith)))
      ],
      rw (← end) (ground (arith, last)),
    )

-- What is left after the last attempt.
no_attempts :
    (outcome : ℕ → Outcome) (seconds attempts a : ℕ)
    → let es = run_from outcome seconds attempts a 0 in
      (runs_in es ≡ 0) × (sleep_in es ≡ 0) × (failures_in es ≡ 0)
unfolding run_from runs_in sleep_in failures_in
no_attempts outcome seconds attempts a = (refl, refl, refl)

pub run_from-Attempted :
    (outcome : ℕ → Outcome) (seconds attempts a left : ℕ)
    → a + suc left ≡ attempts
    → (n : ℕ) × Attempted outcome a (suc left) (run_from outcome seconds attempts a (suc left)) n
run_from-Attempted outcome seconds attempts a zero h =
    let es = run_from outcome seconds attempts a 1 in
    elim (run_from-step outcome seconds attempts a zero) [
      | inl (e, r, s, f) ↦ (1, one_success outcome a zero es e (r, s, f))
      | inr (e, r, s, f) ↦ (
        1,
        one_failure outcome a es e (ground (arith, no_attempts outcome seconds attempts (a + 1))),
      )
    ]
run_from-Attempted outcome seconds attempts a (suc left) h =
    let es = run_from outcome seconds attempts a (suc (suc left)) in
    let later = run_from outcome seconds attempts (a + 1) (suc left) in
    elim (run_from-step outcome seconds attempts a (suc left)) [
      | inl (e, r, s, f) ↦ (1, one_success outcome a (suc left) es e (r, s, f))
      | inr (e, r, s, f) ↦
          let (n, tried) = run_from-Attempted outcome seconds attempts (a + 1) left (omega arith) in
          (suc n, fails_then outcome a (suc left) n es later e (ground arith) tried)
    ]

attempts_of-suc :
    (t : CronTask) → (k : ℕ) × (attempts_of t ≡ suc k) × (suc k ≤ 10) × (k ≤ t.max_retries)
unfolding attempts_of
attempts_of-suc t = elim (Bool-cases (ltb 10 (1 + t.max_retries))) [
  | inl e ↦ (9, ground arith, ground arith, ground arith)
  | inr e ↦ (t.max_retries, ground arith, ground arith, ground arith)
]

-- What an execution with `n` runs comes to.
abbrev pub Execution : (ℕ → Outcome) → CronTask → ℕ → Type 0
Execution outcome t n =
    (n ≤ 10)
    × (n ≤ 1 + t.max_retries)
    × Attempted outcome 0 (attempts_of t) (run_command outcome t) n

attempts_fit :
    (outcome : ℕ → Outcome) (t : CronTask) (k n : ℕ)
    → attempts_of t ≡ suc k
    → suc k ≤ 10
    → k ≤ t.max_retries
    → Attempted outcome 0 (suc k) (run_from outcome (seconds_of t) (suc k) 0 (suc k)) n
    → Execution outcome t n
unfolding run_command Attempted
attempts_fit outcome t k n e ten few tried =
    (omega (arith, tried.1), omega (arith, tried.1), rw e tried)

-- An execution runs its command at least once, at most `1 + max_retries` times and at most 10 times.
-- Every run but the last fails. Either the last run succeeds and no failure is reported, or it fails
-- too, all the attempts are used up, and one failure is reported. `n` runs come with `n * (n - 1)`
-- seconds of sleep.
pub run_command_lem : (outcome : ℕ → Outcome) (t : CronTask) → (n : ℕ) × Execution outcome t n
run_command_lem outcome t =
    let (k, e, ten, few) = attempts_of-suc t in
    let (n, tried) = run_from-Attempted outcome (seconds_of t) (suc k) 0 k (omega arith) in
    (n, attempts_fit outcome t k n e ten few tried)
