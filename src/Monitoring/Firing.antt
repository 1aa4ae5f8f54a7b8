-- ===== src/Monitoring/Firing.antt =====
-- When a rule fires, whatever the other rules do.
use webcasa.Base.{
  ℕ, ◌+◌, Bool, false, not, ◌≡◌, ◌≢◌, refl, Option, some, List, [], ◌∷◌, ◌++◌, ltb, if◌then◌else◌,
  pos_part, arith, All, ◌∙◌,
}
use webcasa.Monitoring.{
  MetricSnapshot, AlertRule, Floats, Alerter, violated, in_cooldown, evaluate_rule, evaluate_loop,
  evaluate, fire,
}

module _ {ℓ} {V : Type ℓ} (floats : Floats V) (webhook_ok : AlertRule V → Bool) (now : ℕ)
    (snap : MetricSnapshot V) where
  -- Two alerters agree on a rule.
  abbrev Agree : ℕ → Alerter V → Alerter V → Type 0
  Agree id a b = (a.violations id ≡ b.violations id) × (a.last_fired_at id ≡ b.last_fired_at id)

  other_rule :
      (loaded : ℕ → Option ℕ) (rule : AlertRule V) (id : ℕ) (a : Alerter V)
      → rule.id ≢ id
      → Agree id (evaluate_rule floats webhook_ok now snap loaded rule a) a
  unfolding evaluate_rule fire
  other_rule loaded rule id a ne = (ground arith, ground arith)

  other_rules :
      (loaded : ℕ → Option ℕ) (rules : List (AlertRule V)) (id : ℕ) (a : Alerter V)
      → All (λ r. r.id ≢ id) rules
      → Agree id (evaluate_loop floats webhook_ok now snap loaded rules a) a
  unfolding evaluate_loop
  other_rules loaded [] id a h = (refl, refl)
  other_rules loaded (rule ∷ rules) id a h =
      let a' = evaluate_rule floats webhook_ok now snap loaded rule a in
      let (v, f) = other_rules loaded rules id a' h.1 in
      let (v', f') = other_rule loaded rule id a h.0 in (v ∙ v', f ∙ f')

  -- Whether a rule fires, by its counter and the time that it last fired.
  abbrev pub fires : AlertRule V → ℕ → Option ℕ → Bool
  fires rule n last =
      if not (violated floats snap rule)
      then false
      else if ltb (n + 1) (pos_part rule.duration)
      then false
      else not (in_cooldown floats now rule last)

  own_rule :
      (loaded : ℕ → Option ℕ) (rule : AlertRule V) (a : Alerter V)
      → let a' = evaluate_rule floats webhook_ok now snap loaded rule a in
        let fired = fires rule (a.violations rule.id) (loaded rule.id) in
        (a'.last_fired_at rule.id ≡ (if fired then some now else a.last_fired_at rule.id))
        × (a'.violations rule.id ≡ (
            if not (violated floats snap rule)
            then 0
            else if fired
            then 0
            else a.violations rule.id + 1))
  unfolding evaluate_rule fire
  own_rule loaded rule a = (ground arith, ground arith)

  loop-append :
      (loaded : ℕ → Option ℕ) (front back : List (AlertRule V)) (a : Alerter V)
      → evaluate_loop floats webhook_ok now snap loaded (front ++ back) a
        ≡ evaluate_loop floats webhook_ok now snap loaded back
            (evaluate_loop floats webhook_ok now snap loaded front a)
  unfolding evaluate_loop
  loop-append loaded [] back a = refl
  loop-append loaded (rule ∷ front) back a =
      loop-append loaded front back (evaluate_rule floats webhook_ok now snap loaded rule a)

  evaluated :
      (before after : List (AlertRule V)) (rule : AlertRule V) (a : Alerter V)
      → let mid = evaluate_loop floats webhook_ok now snap a.last_fired_at before a in
        evaluate floats webhook_ok now snap (some (before ++ rule ∷ after)) a
        ≡ evaluate_loop floats webhook_ok now snap a.last_fired_at after
            (evaluate_rule floats webhook_ok now snap a.last_fired_at rule mid)
  unfolding evaluate evaluate_loop
  evaluated before after rule a = loop-append a.last_fired_at before (rule ∷ after) a

  -- In one `Evaluate` over rules of which no other has this rule's id, the rule fires, and its time is
  -- set, exactly when its threshold is violated, its counter with this violation reaches `duration`,
  -- and its cooldown is over. The counter goes to 0 when the rule fires and when the threshold is not
  -- violated, and else goes up by one.
  pub evaluate_lem :
      (before after : List (AlertRule V)) (rule : AlertRule V) (a : Alerter V)
      → All (λ r. r.id ≢ rule.id) before
      → All (λ r. r.id ≢ rule.id) after
      → let a' = evaluate floats webhook_ok now snap (some (before ++ rule ∷ after)) a in
        let fired = fires rule (a.violations rule.id) (a.last_fired_at rule.id) in
        (a'.last_fired_at rule.id ≡ (if fired then some now else a.last_fired_at rule.id))
        × (a'.violations rule.id ≡ (
            if not (violated floats snap rule)
            then 0
            else if fired
            then 0
            else a.violations rule.id + 1))
  evaluate_lem before after rule a hb ha =
      let loaded = a.last_fired_at in
      let mid = evaluate_loop floats webhook_ok now snap loaded before a in
      let own = evaluate_rule floats webhook_ok now snap loaded rule mid in
      let (v, f) = other_rules loaded before rule.id a hb in
      let (v', f') = own_rule loaded rule mid in
      let (v'', f'') = other_rules loaded after rule.id own ha in
      rw (evaluated before after rule a) (ground (arith, v, f, v', f', v'', f''))
