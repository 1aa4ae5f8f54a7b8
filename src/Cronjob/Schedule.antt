-- ===== src/Cronjob/Schedule.antt =====
-- Every enabled task is scheduled exactly once, by its current expression, and nothing else is.
use native.Mathlib.Decide.{ℕ_discrete}
use webcasa.Base.{
  ℕ, ◌≤◌, String, Bool, true, false, ◌≡◌, ◌≢◌, refl, ap, ◌∙◌, Option, none, some, arith, Bool-cases,
  Option-cases, inl, inr, ◌⊎◌,
}
use webcasa.Cronjob.{
  CronTask, Job, Service, add_to_scheduler, remove_from_scheduler, schedule_if, remove_entry,
}

abbrev pub job_task : Option Job → Option ℕ
job_task none = none
job_task (some j) = some j.task

-- The two maps of the scheduler: the entry of a task is what runs that task, and the entry ids not
-- yet handed out are free.
pub record Wired (s : Service) : Type 0 where
  pub runs : (t e : ℕ) → s.entries t ≡ some e → job_task (s.runner e) ≡ some t
  pub known : (t e : ℕ) → job_task (s.runner e) ≡ some t → s.entries t ≡ some e
  pub fresh_entry : (e : ℕ) → s.next_entry ≤ e → s.runner e ≡ none

-- A task that is not scheduled: it is not enabled, or not there.
abbrev pub Unscheduled : Service → ℕ → Type 0
Unscheduled s t =
    (s.entries t ≡ none) × ((task : CronTask) → s.tasks t ≡ some task → task.enabled ≡ false)

-- A task that is scheduled, by the expression that the table has.
abbrev pub Scheduled : Service → ℕ → Type 0
Scheduled s t =
    (e : ℕ) × (task : CronTask) × (s.entries t ≡ some e)
    × (s.tasks t ≡ some task)
    × (task.enabled ≡ true)
    × (s.runner e ≡ some (record { task = t; schedule = task.expression }))

abbrev pub Settled : Service → ℕ → Type 0
Settled s t = Unscheduled s t ⊎ Scheduled s t

module _ (parses : String → Bool) where
  -- Every task is scheduled exactly if it is there and enabled.
  pub record Inv (s : Service) : Type 0 where
    pub wired : Wired s
    pub each : (t : ℕ) → Settled s t
    pub valid : (t : ℕ) (task : CronTask) → s.tasks t ≡ some task → parses task.expression ≡ true
    pub fresh_task : (t : ℕ) → s.next_task ≤ t → s.tasks t ≡ none

  pub remove-Wired : (s : Service) (id : ℕ) → Wired s → Wired (remove_from_scheduler parses s id)
  unfolding remove_from_scheduler
  remove-Wired s id w = elim (Option-cases (s.entries id)) [
    | inl none_here ↦ rw (none_here, remove_entry) w
    | inr (e0, here) ↦
        rw (here, remove_entry)
          (record {
            runs = λ t e h. ground (arith, w.runs t e, w.runs id e0);
            known = λ t e h. ground (arith, w.known t e);
            fresh_entry = λ e le. ground (arith, w.fresh_entry e);
          })
  ]

  add-Wired :
      (s : Service) (id : ℕ) (task : CronTask)
      → Wired s
      → s.entries id ≡ none
      → Wired (add_to_scheduler parses s id task)
  unfolding add_to_scheduler
  add-Wired s id task w free = elim (Bool-cases (parses task.expression)) [
    | inr bad ↦ rw bad w
    | inl y ↦ rw y (record {
      runs = λ t e h. ground (arith, w.runs t e, w.fresh_entry s.next_entry (omega arith));
      known = λ t e h. ground (arith, w.known t e);
      fresh_entry = λ e le. ground (arith, w.fresh_entry e);
    })
  ]

  pub remove_keeps :
      (s : Service) (id : ℕ)
      → ((remove_from_scheduler parses s id).tasks ≡ s.tasks)
        × ((remove_from_scheduler parses s id).next_task ≡ s.next_task)
        × ((remove_from_scheduler parses s id).entries id ≡ none)
  unfolding remove_from_scheduler
  remove_keeps s id = elim (Option-cases (s.entries id)) [
    | inl e ↦ rw (e, remove_entry) (refl, refl, e)
    | inr (e0, e) ↦ rw (e, remove_entry) (refl, refl, ground arith)
  ]

  pub remove-Settled :
      (s : Service) (id t : ℕ)
      → id ≢ t
      → Wired s
      → Settled s t
      → Settled (remove_from_scheduler parses s id) t
  unfolding remove_from_scheduler
  remove-Settled s id t ne w h = elim (Option-cases (s.entries id)) [
    | inl e ↦ rw (e, remove_entry) h
    | inr (e0, e) ↦
        rw (e, remove_entry)
          (elim h [
            | inl (off, gone) ↦ inl (ground arith, gone)
            | inr (e1, task, en, tk, on, run) ↦
                inr (e1, task, ground arith, tk, on, ground (arith, w.runs id e0 e))
          ])
  ]

  add-Settled :
      (s : Service) (id t : ℕ) (task : CronTask)
      → id ≢ t
      → Wired s
      → Settled s t
      → Settled (add_to_scheduler parses s id task) t
  unfolding add_to_scheduler
  add-Settled s id t task ne w h = elim (Bool-cases (parses task.expression)) [
    | inr bad ↦ rw bad h
    | inl y ↦ rw y (elim h [
      | inl (off, gone) ↦ inl (ground arith, gone)
      | inr (e1, task, en, tk, on, run) ↦
          inr (
            e1,
            task,
            ground arith,
            tk,
            on,
            ground (arith, w.fresh_entry s.next_entry (omega arith)),
          )
    ])
  ]

  add_keeps :
      (s : Service) (id : ℕ) (task : CronTask)
      → ((add_to_scheduler parses s id task).tasks ≡ s.tasks)
        × ((add_to_scheduler parses s id task).next_task ≡ s.next_task)
  unfolding add_to_scheduler
  add_keeps s id task = (ground arith, ground arith)

  add_own :
      (s : Service) (id : ℕ) (task : CronTask)
      → parses task.expression ≡ true
      → task.enabled ≡ true
      → s.tasks id ≡ some task
      → Scheduled (add_to_scheduler parses s id task) id
  unfolding add_to_scheduler
  add_own s id task ok on here = (s.next_entry, task, ground arith, ground arith, on, ground arith)

  schedule_if-on :
      (s : Service) (id : ℕ) (task : CronTask)
      → task.enabled ≡ true
      → schedule_if parses s id task ≡ add_to_scheduler parses s id task
  unfolding schedule_if
  schedule_if-on s id task on = ground arith

  schedule_if-off :
      (s : Service) (id : ℕ) (task : CronTask)
      → task.enabled ≡ false
      → schedule_if parses s id task ≡ s
  unfolding schedule_if
  schedule_if-off s id task off = ground arith

  -- What `reschedule` comes to.
  abbrev pub Rescheduled : Service → Service → Type 0
  Rescheduled s s' =
      Wired s' × ((t : ℕ) → Settled s' t) × (s'.tasks ≡ s.tasks) × (s'.next_task ≡ s.next_task)

  -- The end of `CreateTask` and `UpdateTask`: the task is taken off the scheduler and, if enabled, put
  -- on it again.
  pub reschedule :
      (s : Service) (id : ℕ) (task : CronTask)
      → Wired s
      → ((t : ℕ) → id ≢ t → Settled s t)
      → s.tasks id ≡ some task
      → parses task.expression ≡ true
      → Rescheduled s (schedule_if parses (remove_from_scheduler parses s id) id task)
  reschedule s id task w others here ok =
      let r = remove_from_scheduler parses s id in
      let (tasks, next, off) = remove_keeps s id in
      let w' = remove-Wired s id w in
      let rest = λ (t : ℕ) (ne : id ≢ t). remove-Settled s id t ne w (others t ne) in
      elim (Bool-cases task.enabled) [
        | inr disabled ↦ rw (schedule_if-off r id task disabled) (
          w',
          λ t. elim (ℕ_discrete id t) [
            | yes e ↦ rw (← e) (inl (off, λ task' h. ground (arith, ap (λ f. f id) tasks)))
            | no ne ↦ rest t ne
          ],
          tasks,
          next,
        )
        | inl on ↦
            let kept = add_keeps r id task in
            rw (schedule_if-on r id task on) (
              add-Wired r id task w' off,
              λ t. elim (ℕ_discrete id t) [
                | yes e ↦ rw (← e) (inr (add_own r id task ok on (ap (λ f. f id) tasks ∙ here)))
                | no ne ↦ add-Settled r id t task ne w' (rest t ne)
              ],
              kept.0 ∙ tasks,
              kept.1 ∙ next,
            )
      ]
