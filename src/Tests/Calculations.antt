-- ===== src/Tests/Calculations.antt =====
-- The schedule, the spend window, the composed decision and a feed's conversion at concrete inputs.
use xrp_payguard.Base.{
  ◌≡◌, refl, ◌↔◌, ◌||◌, List, [], ◌∷◌, some, leb, arith, ℕ, if◌then◌else◌, ◌+◌, ◌-◌, ◌*◌, ◌^◌, ◌≤◌,
  ◌<◌,
}
use xrp_payguard.Base.Int.{pos, ltb_ℤ, pos_part, ◌<ℤ◌, ◌+ℤ◌, ◌-ℤ◌, ◌*ℤ◌, ◌/ℤ◌, ◌%ℤ◌}
use xrp_payguard.Protocol.Evaluator.Inputs.{reference_value}
use xrp_payguard.Protocol.Evaluator.Reference.{reference_value-ceil}
use xrp_payguard.Failure.{ok}
use xrp_payguard.Integrations.Ftso.{reference_value_ceil}
use xrp_payguard.Integrations.Ftso.Laws.{reference_value_ceil-reference_value}
use xrp_payguard.Text.{codes}
use xrp_payguard.Protocol.Types.{FtsoSnapshot, deny, malformed}
use xrp_payguard.Protocol.Schedule.{ScheduleWindow}
use xrp_payguard.Protocol.Schedule.Laws.{IsWindow, schedule_window_iff, schedule_window-lt}
use xrp_payguard.Protocol.SpendWindow.{SpendWindowEntry, SpendWindowTotals}
use xrp_payguard.Protocol.SpendWindow.Totals.{IsTotals, spend_window_totals_iff}
use xrp_payguard.Protocol.Violations.{priority}
use xrp_payguard.Protocol.Violations.Laws.{holds, decide_by, compose_policy_decision-eq}
use xrp_payguard.Protocol.Schedule.{out_of_range, close_window, window_at, schedule_window}
use xrp_payguard.Protocol.SpendWindow.{
  is_bad_entry, add_checked, sum_entries, is_bad_window, spend_window_totals,
}
use xrp_payguard.Protocol.Violations.{
  flag, reason_of, mask_from, policy_violation_mask, and_not, has_flag, first_reason,
  compose_policy_decision, raise,
}

abbrev first_window : ScheduleWindow
first_window = record { slot = pos 1000; deadline = pos 1100 }

abbrev second_window : ScheduleWindow
second_window = record { slot = pos 4600; deadline = pos 4700 }

first : schedule_window (pos 1000) (pos 3600) (pos 100) (pos 1) ≡ some first_window
unfolding out_of_range close_window window_at schedule_window is_bad_entry add_checked sum_entries
    is_bad_window spend_window_totals flag reason_of mask_from policy_violation_mask and_not
    has_flag first_reason compose_policy_decision raise ◌+ℤ◌ ◌-ℤ◌ ◌*ℤ◌ ◌/ℤ◌ ◌%ℤ◌
first = refl

second : schedule_window (pos 1000) (pos 3600) (pos 100) (pos 2) ≡ some second_window
unfolding out_of_range close_window window_at schedule_window is_bad_entry add_checked sum_entries
    is_bad_window spend_window_totals flag reason_of mask_from policy_violation_mask and_not
    has_flag first_reason compose_policy_decision raise ◌+ℤ◌ ◌-ℤ◌ ◌*ℤ◌ ◌/ℤ◌ ◌%ℤ◌
second = refl

schedule_window_iff_example :
    (schedule_window (pos 1000) (pos 3600) (pos 100) (pos 2) ≡ some second_window)
    ↔ IsWindow (pos 1000) (pos 3600) (pos 100) (pos 2) second_window
schedule_window_iff_example =
    schedule_window_iff (pos 1000) (pos 3600) (pos 100) (pos 2) second_window

earlier : pos 1 <ℤ pos 2
earlier = omega arith

schedule_window-lt_example : pos 1100 <ℤ pos 4600
schedule_window-lt_example =
    schedule_window-lt (pos 1000) (pos 3600) (pos 100) (pos 1) (pos 2) first_window second_window
      earlier first second

-- One entry of the day before, and one of today.
abbrev entries : List SpendWindowEntry
entries =
    record { value = pos 70; executed_at = pos 86000 }
    ∷ record { value = pos 30; executed_at = pos 86500 }
    ∷ []

abbrev totals : SpendWindowTotals
totals = record { daily_spend = pos 30; rolling_spend = pos 100 }

sums : spend_window_totals entries (pos 90000) (pos 86400) ≡ some totals
unfolding out_of_range close_window window_at schedule_window is_bad_entry add_checked sum_entries
    is_bad_window spend_window_totals flag reason_of mask_from policy_violation_mask and_not
    has_flag first_reason compose_policy_decision raise ◌+ℤ◌ ◌-ℤ◌ ◌*ℤ◌ ◌/ℤ◌ ◌%ℤ◌
sums = refl

spend_window_totals_iff_example :
    (spend_window_totals entries (pos 90000) (pos 86400) ≡ some totals)
    ↔ IsTotals entries (pos 90000) (pos 86400) totals
spend_window_totals_iff_example = spend_window_totals_iff entries (pos 90000) (pos 86400) totals

-- A target and a cap: the target comes first.
compose_policy_decision-eq_example : compose_policy_decision (pos 258) ≡ (
    if ltb_ℤ (pos 258) (pos 0) || leb 1024 (pos_part (pos 258))
    then record { decision = deny; public_reason_class = malformed }
    else decide_by (holds (pos_part (pos 258))) priority)
compose_policy_decision-eq_example = compose_policy_decision-eq (pos 258)

-- Seven units at 2.5 are seventeen and a half, rounded to eighteen.
converts : reference_value (pos 7) (pos 25) (pos 1) ≡ some (pos 18)
unfolding reference_value ◌*ℤ◌ ◌/ℤ◌ ◌%ℤ◌ ◌+ℤ◌
converts = refl

reference_value-ceil_example :
    (a : ℕ) × (p : ℕ) × (d : ℕ) × (n : ℕ) × (pos 7 ≡ pos a)
    × (pos 25 ≡ pos p)
    × (pos 1 ≡ pos d)
    × (pos 18 ≡ pos n)
    × (d ≤ 36)
    × (a * p ≤ 2 ^ 256 - 1)
    × (a * p ≤ n * 10 ^ d)
    × (n * 10 ^ d < a * p + 10 ^ d)
reference_value-ceil_example = reference_value-ceil (pos 7) (pos 25) (pos 1) (pos 18) converts

-- A price of 2.5 with one decimal.
abbrev quote : FtsoSnapshot
quote = record {
  feed_id = codes "0x01";
  value = pos 25;
  decimals = pos 1;
  timestamp = pos 1000;
  checkpoint = codes "0x02";
}

reference_value_ceil-reference_value_example : reference_value_ceil (pos 7) quote ≡ ok (pos 18)
reference_value_ceil-reference_value_example =
    reference_value_ceil-reference_value (pos 7) (pos 18) quote converts
