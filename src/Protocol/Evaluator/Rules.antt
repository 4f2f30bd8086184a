-- ===== src/Protocol/Evaluator/Rules.antt =====
-- packages/protocol/src/evaluator.ts, lines 173 to 240: the tests that `evaluatePolicy` makes, each a
-- function of the values that it reads, and the word of violations that the rules raise.
use xrp_payguard.Base.{
  ℕ, Bool, true, false, ◌||◌, ◌&&◌, not, is_some, List, [], ◌∷◌, Option, none, some, if◌then◌else◌,
}
use xrp_payguard.Base.Int.{ℤ, pos, ◌+ℤ◌, ltb_ℤ, leb_ℤ, ◌==ℤ◌, max_uint256, max_uint32}
use xrp_payguard.Text.{Text, same_hex}
use xrp_payguard.Viem.{Viem}
use xrp_payguard.Protocol.Types.{Policy, ActionRequest, SpendState, malformed}
use xrp_payguard.Protocol.Constants.{action_ftestxrp_transfer}
use xrp_payguard.Protocol.Schedule.{ScheduleWindow, schedule_window}
use xrp_payguard.Protocol.SpendWindow.{SpendWindowTotals}
use xrp_payguard.Protocol.Violations.{Violation, raise, has_flag}
use xrp_payguard.Protocol.Codec.Encoding.{genesis_spend_checkpoint}
use xrp_payguard.Protocol.Evaluator.Step.{Step, done, returns, ◌>>=◌, lift}
use xrp_payguard.Protocol.Evaluator.Inputs.{
  contains, ftso_reference_value, valid_fdc_snapshot, input_commitment_matches,
}

-- `Number.isInteger` holds by the type of the count.
unfoldable pub is_malformed_input : ActionRequest → SpendState → Bool
is_malformed_input request state =
    ltb_ℤ state.available_balance (pos 0)
    || (ltb_ℤ max_uint256 state.available_balance
        || (ltb_ℤ state.last_accounting_at (pos 0)
            || (ltb_ℤ request.amount (pos 0)
                || (ltb_ℤ max_uint256 request.amount
                    || (ltb_ℤ state.occurrence_count (pos 0)
                        || ltb_ℤ max_uint32 state.occurrence_count)))))

unfoldable pub is_stale_position : ActionRequest → SpendState → Bool
is_stale_position request state =
    not (same_hex state.spend_checkpoint request.spend_checkpoint)
    || (not (same_hex state.balance_checkpoint request.balance_checkpoint)
        || (state.occurrence_count ==ℤ max_uint32
            || not (request.occurrence ==ℤ state.occurrence_count +ℤ pos 1)))

-- The last disjunct, which computes the first checkpoint of a policy that has spent nothing.
unfoldable pub is_wrong_genesis : Viem → ActionRequest → SpendState → Step Bool
is_wrong_genesis V request state =
    if state.occurrence_count ==ℤ pos 0
    then (do
      genesis ← lift (genesis_spend_checkpoint V request.policy_commitment)
      done (not (same_hex request.spend_checkpoint genesis)))
    else done false

unfoldable pub is_stale : Viem → ActionRequest → SpendState → Step Bool
is_stale V request state =
    if is_stale_position request state then done true else is_wrong_genesis V request state

unfoldable pub is_malformed_request : Viem → Policy → ActionRequest → ℤ → Bool
is_malformed_request V policy request now =
    not (same_hex request.asset policy.asset)
    || (not (same_hex request.action_type (action_ftestxrp_transfer V))
        || (leb_ℤ request.amount (pos 0)
            || (ltb_ℤ now request.created_at
                || (ltb_ℤ request.expiry now
                    || (ltb_ℤ request.grace_deadline request.created_at
                        || ltb_ℤ request.expiry request.grace_deadline)))))

unfoldable pub is_outside_term : Policy → ℤ → Bool
is_outside_term policy now =
    ltb_ℤ now policy.start_at || not (policy.end_at ==ℤ pos 0) && ltb_ℤ policy.end_at now

unfoldable pub is_outside_window : Policy → ActionRequest → ℤ → Option ScheduleWindow → Bool
is_outside_window policy request now none = true
is_outside_window policy request now (some window) =
    not (request.schedule_slot ==ℤ window.slot)
    || (ltb_ℤ request.created_at window.slot
        || (ltb_ℤ window.deadline request.created_at
            || (not (request.grace_deadline ==ℤ window.deadline)
                || (not (request.expiry ==ℤ window.deadline)
                    || (ltb_ℤ now window.slot
                        || (ltb_ℤ window.deadline now
                            || not (policy.end_at ==ℤ pos 0)
                              && ltb_ℤ policy.end_at window.deadline))))))

unfoldable pub is_off_schedule : Policy → ActionRequest → ℤ → Bool
is_off_schedule policy request now =
    if policy.schedule_interval_seconds ==ℤ pos 0
    then not (request.schedule_slot ==ℤ pos 0)
    else is_outside_window policy request now (
        schedule_window policy.start_at policy.schedule_interval_seconds
          policy.schedule_grace_seconds request.occurrence)

-- `values.length > 0`
unfoldable pub is_nonempty : List Text → Bool
is_nonempty [] = false
is_nonempty (_ ∷ _) = true

unfoldable pub is_target_denied : Policy → ActionRequest → Bool
is_target_denied policy request =
    contains policy.deny_targets request.target
    || is_nonempty policy.allow_targets && not (contains policy.allow_targets request.target)

unfoldable pub is_requester_denied : Policy → ActionRequest → Bool
is_requester_denied policy request =
    not (same_hex request.requester policy.owner)
    && not (contains policy.allow_requesters request.requester)

unfoldable pub is_action_denied : Policy → ActionRequest → Bool
is_action_denied policy request =
    is_nonempty policy.allow_action_types
    && not (contains policy.allow_action_types request.action_type)

unfoldable pub is_exhausted : Policy → SpendState → Bool
is_exhausted policy state =
    not (policy.max_occurrences ==ℤ pos 0) && leb_ℤ policy.max_occurrences state.occurrence_count

unfoldable pub is_cooling_down : Policy → SpendState → Bool
is_cooling_down policy state =
    not (policy.cooldown_seconds ==ℤ pos 0)
    && (not (state.last_accounting_at ==ℤ pos 0)
        && ltb_ℤ state.now (state.last_accounting_at +ℤ policy.cooldown_seconds))

unfoldable pub is_over_cap : Policy → SpendWindowTotals → ℤ → Bool
is_over_cap policy totals value =
    not (policy.max_per_action ==ℤ pos 0) && ltb_ℤ policy.max_per_action value
    || (not (policy.daily_cap ==ℤ pos 0) && ltb_ℤ policy.daily_cap (totals.daily_spend +ℤ value)
        || not (policy.rolling_cap ==ℤ pos 0)
          && ltb_ℤ policy.rolling_cap (totals.rolling_spend +ℤ value))

-- The violations of the rules that read neither feed nor proof, in the order of the source.
unfoldable pub plain_violations : Policy → ActionRequest → SpendState → ℕ
plain_violations policy request state =
    raise (ltb_ℤ state.available_balance request.amount) Violation.insufficient_balance (
      raise (is_cooling_down policy state) Violation.cooldown (
        raise (is_exhausted policy state) Violation.occurrence_exceeded (
          raise (is_action_denied policy request) Violation.action_denied (
            raise (is_requester_denied policy request) Violation.requester_denied (
              raise (is_target_denied policy request) Violation.target_denied (
                raise (is_off_schedule policy request state.now) Violation.policy_denied
                  (raise (is_outside_term policy state.now) Violation.policy_denied 0)))))))

-- `ftsoReferenceValue` where the policy asks for a feed, and the amount itself where it does not.
unfoldable pub priced_amount : Policy → ActionRequest → SpendState → Option ℤ
priced_amount policy request state =
    if policy.require_ftso
    then ftso_reference_value policy request state.ftso state.now
    else some request.amount

-- `referenceValue` after the FTSO rule: it stays the amount where the feed gives no value.
unfoldable pub value_or_amount : Option ℤ → ℤ → ℤ
value_or_amount none amount = amount
value_or_amount (some value) amount = value

-- `if (…unbound…) { if (policy.requireFdc) … else if (policy.requireFtso) … else return … }`
unfoldable pub bind_input : Policy → Bool → ℕ → Step ℕ
bind_input policy false violations = done violations
bind_input policy true violations =
    if policy.require_fdc
    then done (raise true Violation.fdc_invalid violations)
    else if policy.require_ftso
    then done (raise true Violation.ftso_invalid violations)
    else returns malformed

unfoldable pub cap_violations : Policy → ActionRequest → SpendState → SpendWindowTotals → ℕ → ℕ
cap_violations policy request state totals violations =
    raise
      (not (has_flag violations Violation.ftso_invalid)
        && is_over_cap policy totals
            (value_or_amount (priced_amount policy request state) request.amount))
      Violation.cap_exceeded violations

module _ (V : Viem) where
  unfoldable pub feed_violations : Policy → ActionRequest → SpendState → ℕ
  feed_violations policy request state =
      raise (policy.require_fdc && not (valid_fdc_snapshot V policy request state.fdc state.now))
        Violation.fdc_invalid
        (raise (not (is_some (priced_amount policy request state))) Violation.ftso_invalid
          (plain_violations policy request state))

  unfoldable pub is_unbound_input : Policy → ActionRequest → SpendState → Step Bool
  is_unbound_input policy request state =
      if not policy.require_fdc && is_some state.fdc then done true else (do
        matches ← lift (input_commitment_matches V policy request state.ftso state.fdc)
        done (not matches))

  -- `violations` at the end of the rules.
  unfoldable pub rule_violations : Policy → ActionRequest → SpendState → SpendWindowTotals → Step ℕ
  rule_violations policy request state totals = do
    unbound ← is_unbound_input policy request state
    bound ← bind_input policy unbound (feed_violations policy request state)
    done (cap_violations policy request state totals bound)
