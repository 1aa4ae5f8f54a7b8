-- ===== src/Monitoring/Tests.antt =====
-- A rule on the load, with percentages as numbers.
use webcasa.Base.{
  ℕ, ◌+◌, Bool, true, not, ◌≡◌, none, some, [], ◌∷◌, ltb, leb, if◌then◌else◌, arith, pos,
}
use webcasa.Monitoring.{MetricSnapshot, AlertRule, Floats, Alerter, violated, evaluate}
use webcasa.Monitoring.Firing.{fires, evaluate_lem}

abbrev numbers : Floats ℕ
numbers = record {
  gt = λ a b. ltb b a;
  ge = λ a b. leb b a;
  lt = λ a b. ltb a b;
  le = λ a b. leb a b;
  nought = 0;
}

abbrev rule : ℕ → AlertRule ℕ
rule id = record {
  id = id;
  metric = "cpu_percent";
  operator = ">";
  threshold = 90;
  duration = pos 2;
  cooldown_min = pos 30;
  notify_type = "webhook";
  notify_url = "";
}

abbrev snap : MetricSnapshot ℕ
snap = record {
  cpu_percent = 95;
  mem_percent = 40;
  disk_percent = 10;
  load_avg_1 = 3;
  load_avg_5 = 2;
  load_avg_15 = 1;
}

abbrev alerter : Alerter ℕ
alerter = record { violations = λ j. 1; last_fired_at = λ j. none; history = [] }

abbrev webhook_ok : AlertRule ℕ → Bool
webhook_ok r = true

evaluate_lem_example :
    let a' = evaluate numbers webhook_ok 70 snap (some (rule 4 ∷ rule 7 ∷ rule 9 ∷ [])) alerter in
    let fired = fires numbers webhook_ok 70 snap (rule 7) 1 none in
    (a'.last_fired_at 7 ≡ (if fired then some 70 else none))
    × (a'.violations 7
        ≡ (if not (violated numbers snap (rule 7)) then 0 else if fired then 0 else 1 + 1))
evaluate_lem_example =
    evaluate_lem numbers webhook_ok 70 snap (rule 4 ∷ []) (rule 9 ∷ []) (rule 7) alerter
      ((λ e. ground arith), tt) ((λ e. ground arith), tt)
