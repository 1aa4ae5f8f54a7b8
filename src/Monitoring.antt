-- ===== src/Monitoring.antt =====
-- plugins/monitoring/alerter.go: the alert rules. Floats and their comparisons are arguments, and so
-- is whether a webhook call succeeds. A time that was never set is `none`; times are nanoseconds, and
-- the clock is read once in each evaluation.
pub mod Firing
mod Tests
use webcasa.Base.{
  ℕ, ◌+◌, ◌-◌, ◌*◌, String, Bool, true, false, not, ◌&&◌, Option, none, some, List, [], ◌∷◌, ◌++◌,
  ltb, ◌==◌, ◌=s◌, if◌then◌else◌, ℤ, pos_part,
}

pub record MetricSnapshot {ℓ} (V : Type ℓ) : Type ℓ where
  pub cpu_percent : V
  pub mem_percent : V
  pub disk_percent : V
  pub load_avg_1 : V
  pub load_avg_5 : V
  pub load_avg_15 : V

pub record AlertRule {ℓ} (V : Type ℓ) : Type ℓ where
  pub id : ℕ
  pub metric : String
  pub operator : String
  pub threshold : V
  pub duration : ℤ
  pub cooldown_min : ℤ
  pub notify_type : String
  pub notify_url : String

-- The comparisons of floats, and the float 0.
pub record Floats {ℓ} (V : Type ℓ) : Type ℓ where
  pub gt : V → V → Bool
  pub ge : V → V → Bool
  pub lt : V → V → Bool
  pub le : V → V → Bool
  pub nought : V

pub record AlertHistory {ℓ} (V : Type ℓ) : Type ℓ where
  pub rule_id : ℕ
  pub value : V
  pub notified : Bool

-- The counters of the alerter, the column `last_fired_at` and the table of past alerts.
pub record Alerter {ℓ} (V : Type ℓ) : Type ℓ where
  pub violations : ℕ → ℕ
  pub last_fired_at : ℕ → Option ℕ
  pub history : List (AlertHistory V)

abbrev pub set_at {ℓ} : {A : Type ℓ} → (ℕ → A) → ℕ → A → ℕ → A
set_at f k v = λ j. if k == j then v else f j

module _ {ℓ} {V : Type ℓ} (floats : Floats V) where
  -- `extractMetric`.
  pub extract_metric : MetricSnapshot V → String → V
  extract_metric snap metric =
      if metric =s "cpu_percent"
      then snap.cpu_percent
      else if metric =s "mem_percent"
      then snap.mem_percent
      else if metric =s "disk_percent"
      then snap.disk_percent
      else if metric =s "load_avg_1"
      then snap.load_avg_1
      else if metric =s "load_avg_5"
      then snap.load_avg_5
      else if metric =s "load_avg_15"
      then snap.load_avg_15
      else floats.nought

  -- `checkThreshold`.
  pub check_threshold : V → String → V → Bool
  check_threshold value operator threshold =
      if operator =s ">"
      then floats.gt value threshold
      else if operator =s ">="
      then floats.ge value threshold
      else if operator =s "<"
      then floats.lt value threshold
      else if operator =s "<="
      then floats.le value threshold
      else floats.gt value threshold

  pub violated : MetricSnapshot V → AlertRule V → Bool
  unfolding extract_metric check_threshold
  violated snap rule =
      check_threshold (extract_metric snap rule.metric) rule.operator rule.threshold

  pub in_cooldown : ℕ → AlertRule V → Option ℕ → Bool
  in_cooldown now rule none = false
  in_cooldown now rule (some fired) =
      ltb (now - fired) (pos_part rule.cooldown_min * 60_000_000_000)

  fire : (AlertRule V → Bool) → ℕ → MetricSnapshot V → AlertRule V → Alerter V → Alerter V
  fire webhook_ok now snap rule a = record {
    violations = set_at a.violations rule.id 0;
    last_fired_at = set_at a.last_fired_at rule.id (some now);
    history =
        a.history
        ++ record {
          rule_id = rule.id;
          value = extract_metric snap rule.metric;
          notified =
              rule.notify_type =s "webhook" && not (rule.notify_url =s "") && webhook_ok rule;
        }
          ∷ [];
  }

  -- The body of the loop for one rule; `loaded` is the column as the rules were read.
  pub evaluate_rule :
      (AlertRule V → Bool)
      → ℕ
      → MetricSnapshot V
      → (ℕ → Option ℕ)
      → AlertRule V
      → Alerter V
      → Alerter V
  unfolding violated in_cooldown fire
  evaluate_rule webhook_ok now snap loaded rule a =
      let n = a.violations rule.id + 1 in
      let counted = record a { violations = set_at a.violations rule.id n } in
      if not (violated snap rule)
      then record a { violations = set_at a.violations rule.id 0 }
      else if ltb n (pos_part rule.duration)
      then counted
      else if in_cooldown now rule (loaded rule.id)
      then counted
      else fire webhook_ok now snap rule counted

  pub evaluate_loop :
      (AlertRule V → Bool)
      → ℕ
      → MetricSnapshot V
      → (ℕ → Option ℕ)
      → List (AlertRule V)
      → Alerter V
      → Alerter V
  evaluate_loop webhook_ok now snap loaded [] a = a
  evaluate_loop webhook_ok now snap loaded (rule ∷ rules) a =
      evaluate_loop webhook_ok now snap loaded rules
        (evaluate_rule webhook_ok now snap loaded rule a)

  -- `Evaluate`, over the enabled rules; `none`: they could not be loaded.
  pub evaluate :
      (AlertRule V → Bool)
      → ℕ
      → MetricSnapshot V
      → Option (List (AlertRule V))
      → Alerter V
      → Alerter V
  unfolding evaluate_loop
  evaluate webhook_ok now snap none a = a
  evaluate webhook_ok now snap (some rules) a =
      evaluate_loop webhook_ok now snap a.last_fired_at rules a
