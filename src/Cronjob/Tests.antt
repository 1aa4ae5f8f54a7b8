-- ===== src/Cronjob/Tests.antt =====
-- The scheduler on concrete tasks.
use webcasa.Base.{
  ℕ, ◌≤◌, String, Bool, true, false, ◌≡◌, refl, none, some, [], ◌∷◌, List, ◌==◌, ◌=s◌,
  if◌then◌else◌, arith, pos, inl,
}
use webcasa.Cronjob.{
  CronTask, CreateTaskRequest, UpdateTaskRequest, Service, write_failed, create_task, delete_task,
}
use webcasa.Cronjob.Schedule.{Inv}
use webcasa.Cronjob.Operations.{failed_delete}
use webcasa.Cronjob.Runs.{TaskCommand, creates, updates, deletes, run_tasks, run_tasks-Inv}
use webcasa.Cronjob.Execute.{Outcome, begin_execution}
use webcasa.Cronjob.Execute.Guard.{Executor, begins, here, then_step, started, times, one_execution}
use webcasa.Cronjob.Execute.Attempts.{Execution, run_command_lem}

abbrev parses : String → Bool
parses x = x =s "@daily"

abbrev store : CronTask → CronTask
store t = t

abbrev empty : Service
empty = record {
  tasks = λ j. none;
  next_task = 1;
  entries = λ j. none;
  runner = λ j. none;
  next_entry = 1;
}

empty-Inv : Inv parses empty
empty-Inv = record {
  wired = record {
    runs = λ t e h. absurd (ground (arith, h));
    known = λ t e h. absurd (ground (arith, h));
    fresh_entry = λ e le. refl;
  };
  each = λ t. inl (refl, λ task h. absurd (ground (arith, h)));
  valid = λ t task h. absurd (ground (arith, h));
  fresh_task = λ t past. refl;
}

abbrev request : CreateTaskRequest
request = record {
  expression = "@daily";
  command = "true";
  enabled = none;
  timeout_sec = pos 0;
  max_retries = pos 2;
}

abbrev one : Service
one = (create_task parses store empty request true).0

abbrev change : UpdateTaskRequest
change = record {
  expression = none;
  command = some "false";
  enabled = some false;
  timeout_sec = none;
  max_retries = none;
}

abbrev task_commands : List TaskCommand
task_commands = creates store request true ∷ updates 1 change true ∷ deletes 1 ∷ []

run_tasks-Inv_example : Inv parses (run_tasks parses task_commands empty)
run_tasks-Inv_example =
    run_tasks-Inv parses task_commands empty ((λ t. refl), (tt, (tt, tt))) empty-Inv

abbrev daily : CronTask
daily = record {
  expression = "@daily";
  command = "true";
  enabled = true;
  timeout_sec = 300;
  max_retries = 2;
}

abbrev scheduled : Service
scheduled = record {
  tasks = λ j. if 1 == j then some daily else none;
  next_task = 2;
  entries = λ j. if 1 == j then some 1 else none;
  runner = λ j. if 1 == j then some (record { task = 1; schedule = "@daily" }) else none;
  next_entry = 2;
}

failed_delete_example :
    let (s', error) = delete_task parses scheduled 1 false in
    (error ≡ some write_failed)
    × (s'.tasks 1 ≡ some daily)
    × (s'.entries 1 ≡ none)
    × ¬ Inv parses s'
failed_delete_example = failed_delete parses scheduled 1 daily refl refl

-- One execution is under way.
abbrev busy : Executor
busy = record { running = λ j. if 1 == j then true else false; active = 1 ∷ [] }

one_execution_example : (times 1 busy.active ≤ 1) × (times 1 busy.active ≡ 1)
unfolding begin_execution
one_execution_example = one_execution busy 1 (
    then_step started started busy (here started)
      (begins started 1 (some daily) false (λ j. if 1 == j then true else false) refl))

abbrev always : ℕ → Outcome
always i = record { timed_out = false; error = some (some (pos 1)) }

run_command_lem_example : (n : ℕ) × Execution always daily n
run_command_lem_example = run_command_lem always daily
