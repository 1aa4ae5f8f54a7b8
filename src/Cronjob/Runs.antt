-- ===== src/Cronjob/Runs.antt =====
-- Sequences of the scheduler's operations (plugins/cronjob/service.go).
use webcasa.Base.{ℕ, String, Bool, true, ◌≡◌, List, [], ◌∷◌, All}
use webcasa.Cronjob.{
  CronTask, CreateTaskRequest, UpdateTaskRequest, Service, create_task, update_task, delete_task,
}
use webcasa.Cronjob.Schedule.{Inv}
use webcasa.Cronjob.Operations.{create_task-Inv, update_task-Inv, delete_task-Inv}

-- An operation, with the rows that the database stores for a new task and whether its write succeeds.
-- The write of a deletion succeeds.
pub data TaskCommand : Type 0 where
  creates : (CronTask → CronTask) → CreateTaskRequest → Bool → TaskCommand
  updates : ℕ → UpdateTaskRequest → Bool → TaskCommand
  deletes : ℕ → TaskCommand

abbrev pub StoresExpression : TaskCommand → Type 0
StoresExpression (creates create req db_ok) = (t : CronTask) → (create t).expression ≡ t.expression
StoresExpression (updates id req db_ok) = Unit
StoresExpression (deletes id) = Unit

module _ (parses : String → Bool) where
  unfoldable pub run_tasks : List TaskCommand → Service → Service
  unfolding create_task update_task delete_task
  run_tasks [] s = s
  run_tasks (creates create req db_ok ∷ rest) s =
      run_tasks rest (create_task parses create s req db_ok).0
  run_tasks (updates id req db_ok ∷ rest) s = run_tasks rest (update_task parses s id req db_ok).0
  run_tasks (deletes id ∷ rest) s = run_tasks rest (delete_task parses s id true).0

  -- After any sequence of creations, updates and deletions, whichever of them are refused and whichever
  -- writes of creations and updates fail, every enabled task is scheduled once, by its expression, and
  -- no other task is, if it was so before, the database stores expressions as given and the writes of
  -- deletions succeed.
  pub run_tasks-Inv :
      (commands : List TaskCommand) (s : Service)
      → All StoresExpression commands
      → Inv parses s
      → Inv parses (run_tasks commands s)
  unfolding run_tasks
  run_tasks-Inv [] s k h = h
  run_tasks-Inv (creates create req db_ok ∷ rest) s (k, ks) h =
      run_tasks-Inv rest _ ks (create_task-Inv parses create s req db_ok k h)
  run_tasks-Inv (updates id req db_ok ∷ rest) s (k, ks) h =
      run_tasks-Inv rest _ ks (update_task-Inv parses s id req db_ok h)
  run_tasks-Inv (deletes id ∷ rest) s (k, ks) h =
      run_tasks-Inv rest _ ks (delete_task-Inv parses s id h)
