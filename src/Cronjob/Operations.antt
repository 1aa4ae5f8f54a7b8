-- ===== src/Cronjob/Operations.antt =====
-- Creating, updating and deleting a task keeps the table and the scheduler in agreement.
use native.Mathlib.Decide.{ℕ_discrete}
use webcasa.Base.{
  ℕ, suc, ◌≤◌, ◌<◌, String, Bool, true, false, ◌≡◌, ◌≢◌, refl, ap, ◌∙◌, Option, none, some, arith,
  Bool-cases, Option-cases, inl, inr, ◌==◌, if◌then◌else◌, sym,
}
use webcasa.Cronjob.{
  CronTask, CreateTaskRequest, UpdateTaskRequest, Service, write_failed, put, remove_from_scheduler,
  schedule_if, remove_entry, create_task, update_task, update_found, delete_task, delete_found,
  apply_update, new_task, expression_ok,
}
use webcasa.Cronjob.Schedule.{
  Wired, Settled, Inv, reschedule, remove-Wired, remove_keeps, remove-Settled,
}

module _ (parses : String → Bool) where
  -- A row of the table is written, and ids below `next` are in use.
  write : Service → ℕ → Option CronTask → ℕ → Service
  write s id row next = record s { tasks = put s.tasks id row; next_task = next }

  write-Wired :
      (s : Service) (id : ℕ) (row : Option CronTask) (next : ℕ)
      → Wired s
      → Wired (write s id row next)
  unfolding write
  write-Wired s id row next w = record {
    runs = w.runs;
    known = w.known;
    fresh_entry = w.fresh_entry;
  }

  write-Settled :
      (s : Service) (id t : ℕ) (row : Option CronTask) (next : ℕ)
      → id ≢ t
      → Settled s t
      → Settled (write s id row next) t
  unfolding write
  write-Settled s id t row next ne (inl (off, gone)) = inl (off, λ task h. gone task (ground arith))
  write-Settled s id t row next ne (inr (e, task, en, tk, on, run)) =
      inr (e, task, en, ground arith, on, run)

  -- What the table has after a write.
  written :
      (s : Service) (id : ℕ) (row : Option CronTask) (next t : ℕ)
      → ((write s id row next).tasks t ≡ (if id == t then row else s.tasks t))
        × ((write s id row next).next_task ≡ next)
  unfolding write
  written s id row next t = (refl, refl)

  -- A row is written and its task scheduled anew.
  rewrite_Inv :
      (s : Service) (id : ℕ) (task : CronTask) (next : ℕ)
      → Inv parses s
      → parses task.expression ≡ true
      → s.next_task ≤ next
      → id < next
      → Inv parses (
          schedule_if parses
            (remove_from_scheduler parses (write s id (some task) next) id)
            id
            task)
  rewrite_Inv s id task next i ok le lt =
      let s1 = write s id (some task) next in
      let (w, each, tasks, next') =
        reschedule parses s1 id task (write-Wired s id (some task) next i.wired)
          (λ t ne. write-Settled s id t (some task) next ne (i.each t))
          (ground (arith, (written s id (some task) next id).0)) ok in
      record {
        wired = w;
        each = each;
        valid = λ t task' h.
            let h' : s1.tasks t ≡ some task' = ap (λ f. f t) (sym tasks) ∙ h in
            ground (arith, h', (written s id (some task) next t).0, i.valid t task');
        fresh_task = λ t past.
            let here = written s id (some task) next t in
            ap (λ f. f t) tasks ∙ ground (arith, here.0, here.1, next', past, i.fresh_task t);
      }

  -- A new id has no entry.
  no_entry : (s : Service) → Inv parses s → s.entries s.next_task ≡ none
  no_entry s i = elim (i.each s.next_task) [
    | inl (off, gone) ↦ off
    | inr (e, task, en, tk, on, run) ↦
        absurd (ground (arith, i.fresh_task s.next_task (omega arith)))
  ]

  remove_none : (s : Service) (id : ℕ) → s.entries id ≡ none → remove_from_scheduler parses s id ≡ s
  unfolding remove_from_scheduler
  remove_none s id h = ground arith

  -- `CreateTask` keeps every enabled task scheduled once, by its expression, and no other task
  -- scheduled, on every branch, for a database that stores the expression as given.
  pub create_task-Inv :
      (create : CronTask → CronTask) (s : Service) (req : CreateTaskRequest) (db_ok : Bool)
      → ((t : CronTask) → (create t).expression ≡ t.expression)
      → Inv parses s
      → Inv parses (create_task parses create s req db_ok).0
  unfolding create_task write
  create_task-Inv create s req db_ok stored i =
      let row = create (new_task parses req) in
      let ok = stored (new_task parses req) in
      elim (Bool-cases (parses req.expression)) [
        | inr bad ↦ rw bad i
        | inl y ↦ elim (Bool-cases db_ok) [
          | inr failed ↦ rw (y, failed) i
          | inl done ↦
              let r =
                rewrite_Inv s s.next_task row (suc s.next_task) i (ground (arith, ok)) (omega arith)
                  (omega arith) in
              rw (y, done)
                (rw
                  (remove_none (write s s.next_task (some row) (suc s.next_task)) s.next_task
                    (no_entry s i))
                  at r)
        ]
      ]

  next-existing :
      (s : Service) (id : ℕ) (t : CronTask) → Inv parses s → s.tasks id ≡ some t → id < s.next_task
  next-existing s id t i h = ground (arith, i.fresh_task id)

  update-parses :
      (t : CronTask) (req : UpdateTaskRequest)
      → parses t.expression ≡ true
      → expression_ok parses req.expression ≡ true
      → parses (apply_update parses t req).expression ≡ true
  unfolding apply_update expression_ok
  update-parses t req old ok = elim (Option-cases req.expression) [
    | inl e ↦ ground arith
    | inr (x, e) ↦ ground arith
  ]

  -- `UpdateTask` keeps every enabled task scheduled once, by its current expression, and no other task
  -- scheduled, on every branch.
  pub update_task-Inv :
      (s : Service) (id : ℕ) (req : UpdateTaskRequest) (db_ok : Bool)
      → Inv parses s
      → Inv parses (update_task parses s id req db_ok).0
  unfolding update_task update_found write
  update_task-Inv s id req db_ok i = elim (Option-cases (s.tasks id)) [
    | inl e ↦ rw e i
    | inr (t, e) ↦ rw e (elim (Bool-cases (expression_ok parses req.expression)) [
      | inr bad ↦ rw bad i
      | inl y ↦ elim (Bool-cases db_ok) [
        | inr failed ↦ rw (y, failed) i
        | inl done ↦
            rw (y, done)
              (rewrite_Inv s id (apply_update parses t req) s.next_task i
                (update-parses t req (i.valid id t e) y) (omega arith) (next-existing s id t i e))
      ]
    ])
  ]

  -- The entry of a task is taken off, then its row is cleared.
  remove-clear-Inv :
      (s : Service) (id : ℕ)
      → Inv parses s
      → Inv parses (
          write
            (remove_from_scheduler parses s id)
            id
            none
            (remove_from_scheduler parses s id).next_task)
  remove-clear-Inv s id i =
      let r = remove_from_scheduler parses s id in
      let (tasks, next, off) = remove_keeps parses s id in
      let row = λ (t : ℕ). (written r id none r.next_task t).0 in
      record {
        wired = write-Wired r id none r.next_task (remove-Wired parses s id i.wired);
        each = λ t. elim (ℕ_discrete id t) [
          | yes e ↦ rw (← e) (unfold write in (inl (off, λ task h. ground (arith, row id))))
          | no ne ↦
              write-Settled r id t none r.next_task ne
                (remove-Settled parses s id t ne i.wired (i.each t))
        ];
        valid = λ t task h. ground (arith, row t, ap (λ f. f t) tasks, i.valid t task);
        fresh_task = λ t past. ground (
          arith,
          row t,
          ap (λ f. f t) tasks,
          next,
          i.fresh_task t,
          (written r id none r.next_task t).1,
        );
      }

  -- `DeleteTask`, when its write succeeds, keeps every enabled task scheduled once, by its expression,
  -- and no other task scheduled.
  pub delete_task-Inv :
      (s : Service) (id : ℕ) → Inv parses s → Inv parses (delete_task parses s id true).0
  unfolding delete_task delete_found write remove_from_scheduler
  delete_task-Inv s id i = elim (Option-cases (s.tasks id)) [
    | inl e ↦ elim (i.each id) [
      | inl (off, gone) ↦ rw (e, off, remove_entry) i
      | inr (en, task, o, tk, on, run) ↦ absurd (ground arith)
    ]
    | inr (t, e) ↦ rw e (remove-clear-Inv s id i)
  ]

  -- `DeleteTask` with a write that fails: the row stays, its task still enabled, and the task has lost
  -- its entry in the scheduler.
  pub failed_delete :
      (s : Service) (id : ℕ) (t : CronTask)
      → s.tasks id ≡ some t
      → t.enabled ≡ true
      → let (s', error) = delete_task parses s id false in
        (error ≡ some write_failed)
        × (s'.tasks id ≡ some t)
        × (s'.entries id ≡ none)
        × ¬ Inv parses s'
  unfolding delete_task delete_found
  failed_delete s id t here on =
      let (tasks, next, off) = remove_keeps parses s id in
      rw here (
        refl,
        ap (λ f. f id) tasks ∙ here,
        off,
        λ i. elim (i.each id) [
          | inl (o, gone) ↦ absurd (ground (arith, gone t (ap (λ f. f id) tasks ∙ here)))
          | inr (e, task, en, tk, o, run) ↦ absurd (ground (arith, off, en))
        ],
      )
