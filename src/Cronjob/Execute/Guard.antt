-- ===== src/Cronjob/Execute/Guard.antt =====
-- No task runs twice at once: executions that begin and end in any interleaving.
use webcasa.Base.{
  ℕ, ◌+◌, ◌≤◌, Bool, true, false, ◌≡◌, refl, ap, Option, none, some, List, [], ◌∷◌, ◌++◌, arith,
  ◌==◌, if◌then◌else◌,
}
use webcasa.Cronjob.{CronTask}
use webcasa.Cronjob.Execute.{
  Begin, runs, task_not_found, disabled, skipped, begin_execution, end_execution,
}

-- The `running` map and the executions under way.
pub record Executor : Type 0 where
  pub running : ℕ → Bool
  pub active : List ℕ

-- One execution passes the guard, or one that is under way ends.
pub data Step : Executor → Executor → Type 0 where
  begins :
      (x : Executor) (id : ℕ) (task : Option CronTask) (is_manual : Bool) (running : ℕ → Bool)
      → begin_execution x.running id task is_manual ≡ runs running
      → Step x (record { running = running; active = id ∷ x.active })
  ends :
      (x : Executor) (id : ℕ) (before after : List ℕ)
      → x.active ≡ before ++ id ∷ after
      → Step x (record { running = end_execution x.running id; active = before ++ after })

pub data Reach : Executor → Executor → Type 0 where
  here : (x : Executor) → Reach x x
  then_step : (x y z : Executor) → Reach x y → Step y z → Reach x z

abbrev pub started : Executor
started = record { running = λ j. false; active = [] }

-- How often a task is under way.
pub times : ℕ → List ℕ → ℕ
times k [] = 0
times k (j ∷ js) = (if j == k then 1 else 0) + times k js

times-append : (k : ℕ) (xs ys : List ℕ) → times k (xs ++ ys) ≡ times k xs + times k ys
unfolding times
times-append k [] ys = omega arith
times-append k (x ∷ xs) ys = omega (arith, times-append k xs ys)

Agrees : Executor → Type 0
Agrees x = (k : ℕ) → times k x.active ≡ (if x.running k then 1 else 0)

-- The map that a passed guard leaves.
map_after : Begin → (ℕ → Bool) → ℕ → Bool
map_after task_not_found running = running
map_after disabled running = running
map_after skipped running = running
map_after (runs running') running = running'

begin-runs :
    (running running' : ℕ → Bool) (id : ℕ) (task : Option CronTask) (is_manual : Bool) (k : ℕ)
    → begin_execution running id task is_manual ≡ runs running'
    → (running id ≡ false) × (running' k ≡ (if id == k then true else running k))
unfolding begin_execution map_after
begin-runs running running' id none is_manual k e = absurd (ground arith)
begin-runs running running' id (some t) is_manual k e =
    ground (arith, ap (λ b. map_after b running k) e)

Step-Agrees : (x y : Executor) → Step x y → Agrees x → Agrees y
unfolding Agrees times end_execution
Step-Agrees _ _ (begins x id task is_manual running e) a k =
    ground (arith, begin-runs x.running running id task is_manual k e, a k, a id)
Step-Agrees _ _ (ends x id before after e) a k =
    ground (arith, a k, a id, e, times-append k before (id ∷ after), times-append k before after)

Reach-Agrees : (x y : Executor) → Reach x y → Agrees x → Agrees y
Reach-Agrees _ _ (here x) a = a
Reach-Agrees _ _ (then_step x y z r s) a = Step-Agrees y z s (Reach-Agrees x y r a)

started-Agrees : Agrees started
unfolding Agrees times
started-Agrees k = refl

-- From a start with an empty `running` map, however executions begin and end, no task is under way
-- twice at once, and the map marks exactly the tasks that are under way.
pub one_execution :
    (x : Executor) (k : ℕ)
    → Reach started x
    → (times k x.active ≤ 1) × (times k x.active ≡ (if x.running k then 1 else 0))
unfolding Agrees
one_execution x k r = ground (arith, Reach-Agrees started x r started-Agrees k)
