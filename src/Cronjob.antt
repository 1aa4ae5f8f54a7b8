-- ===== src/Cronjob.antt =====
-- plugins/cronjob/service.go: the tasks of the table and their entries in the scheduler. The cron
-- library's parser is the argument `parses`; its runner hands out entry ids in turn. The fields that
-- only describe a task (name, tags, times, status) are left out.
pub mod Schedule
pub mod Operations
pub mod Runs
pub mod Execute
mod Tests
use webcasa.Base.{
  ℕ, suc, ◌+◌, String, Bool, true, false, not, ◌&&◌, Option, none, some, ltb, ◌==◌, if◌then◌else◌,
  ℤ, is_nonpos, pos_part,
}

pub record CronTask : Type 0 where
  pub expression : String
  pub command : String
  pub enabled : Bool
  pub timeout_sec : ℕ
  pub max_retries : ℕ

-- `CreateTaskRequest`, and `UpdateTaskRequest` with its optional fields.
pub record CreateTaskRequest : Type 0 where
  pub expression : String
  pub command : String
  pub enabled : Option Bool
  pub timeout_sec : ℤ
  pub max_retries : ℤ

pub record UpdateTaskRequest : Type 0 where
  pub expression : Option String
  pub command : Option String
  pub enabled : Option Bool
  pub timeout_sec : Option ℤ
  pub max_retries : Option ℤ

pub record Job : Type 0 where
  pub task : ℕ
  pub schedule : String

-- `tasks` is the table, `entries` the map from task ids to entry ids, `runner` the scheduler.
pub record Service : Type 0 where
  pub tasks : ℕ → Option CronTask
  pub next_task : ℕ
  pub entries : ℕ → Option ℕ
  pub runner : ℕ → Option Job
  pub next_entry : ℕ

pub data CronError : Type 0 where
  invalid_expression not_found write_failed : CronError

abbrev pub Error : Type 0
Error = Option CronError

abbrev pub put {ℓ} : {A : Type ℓ} → (ℕ → Option A) → ℕ → Option A → ℕ → Option A
put f k v = λ j. if k == j then v else f j

-- `TimeoutSec` of at most a day, 300 if it is not positive; `MaxRetries` from 0 to 10.
pub clamp_timeout : ℤ → ℕ
clamp_timeout z = if is_nonpos z then 300 else if ltb 86400 (pos_part z) then 86400 else pos_part z

pub clamp_retries : ℤ → ℕ
clamp_retries z = if ltb 10 (pos_part z) then 10 else pos_part z

abbrev pub or_else {ℓ} : {A : Type ℓ} → Option A → A → A
or_else none a = a
or_else (some b) a = b

module _ (parses : String → Bool) where
  -- `addToScheduler`: an expression that does not parse is logged and left out.
  pub add_to_scheduler : Service → ℕ → CronTask → Service
  add_to_scheduler s id task =
      if parses task.expression
      then record s {
        entries = put s.entries id (some s.next_entry);
        runner =
            put s.runner s.next_entry (some (record { task = id; schedule = task.expression }));
        next_entry = suc s.next_entry;
      }
      else s

  remove_entry : Service → ℕ → Option ℕ → Service
  remove_entry s id none = s
  remove_entry s id (some e) = record s {
    runner = put s.runner e none;
    entries = put s.entries id none;
  }

  -- `removeFromScheduler`.
  pub remove_from_scheduler : Service → ℕ → Service
  unfolding remove_entry
  remove_from_scheduler s id = remove_entry s id (s.entries id)

  pub schedule_if : Service → ℕ → CronTask → Service
  schedule_if s id task = if task.enabled then add_to_scheduler s id task else s

  new_task : CreateTaskRequest → CronTask
  new_task req = record {
    expression = req.expression;
    command = req.command;
    enabled = or_else req.enabled true;
    timeout_sec = clamp_timeout req.timeout_sec;
    max_retries = clamp_retries req.max_retries;
  }

  -- `CreateTask`. `create` is what the database makes of the new row and hands back.
  unfoldable pub create_task :
      (CronTask → CronTask) → Service → CreateTaskRequest → Bool → Service × Error
  unfolding new_task schedule_if
  create_task create s req db_ok =
      if not (parses req.expression)
      then (s, some invalid_expression)
      else if db_ok
      then (let row = create (new_task req) in
          let stored = record s {
            tasks = put s.tasks s.next_task (some row);
            next_task = suc s.next_task;
          } in
          (schedule_if stored s.next_task row, none))
      else (s, some write_failed)

  clamp_option : Option ℤ → (ℤ → ℕ) → ℕ → ℕ
  clamp_option none clamp n = n
  clamp_option (some z) clamp n = clamp z

  apply_update : CronTask → UpdateTaskRequest → CronTask
  unfolding clamp_option
  apply_update t req = record {
    expression = or_else req.expression t.expression;
    command = or_else req.command t.command;
    enabled = or_else req.enabled t.enabled;
    timeout_sec = clamp_option req.timeout_sec clamp_timeout t.timeout_sec;
    max_retries = clamp_option req.max_retries clamp_retries t.max_retries;
  }

  expression_ok : Option String → Bool
  expression_ok none = true
  expression_ok (some x) = parses x

  update_found : Service → ℕ → UpdateTaskRequest → Bool → Option CronTask → Service × Error
  unfolding apply_update schedule_if expression_ok
  update_found s id req db_ok none = (s, some not_found)
  update_found s id req db_ok (some t) =
      if not (expression_ok req.expression)
      then (s, some invalid_expression)
      else if db_ok
      then (let task = apply_update t req in
          let saved = record s { tasks = put s.tasks id (some task) } in
          (schedule_if (remove_from_scheduler saved id) id task, none))
      else (s, some write_failed)

  -- `UpdateTask`.
  unfoldable pub update_task : Service → ℕ → UpdateTaskRequest → Bool → Service × Error
  unfolding update_found
  update_task s id req db_ok = update_found s id req db_ok (s.tasks id)

  delete_found : Service → ℕ → Bool → Option CronTask → Service × Error
  delete_found s id db_ok none = (s, if db_ok then some not_found else some write_failed)
  delete_found s id db_ok (some t) =
      if db_ok then (record s { tasks = put s.tasks id none }, none) else (s, some write_failed)

  -- `DeleteTask`: the entry goes first, whatever the database does then.
  unfoldable pub delete_task : Service → ℕ → Bool → Service × Error
  unfolding delete_found
  delete_task s id db_ok = delete_found (remove_from_scheduler s id) id db_ok (s.tasks id)
