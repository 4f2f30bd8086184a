-- ===== src/Protocol/Evaluator/Evaluate.antt =====
-- packages/protocol/src/evaluator.ts, lines 173 to 248: `evaluatePolicy`.
use xrp_payguard.Base.{not, if◌then◌else◌}
use xrp_payguard.Base.Int.{ℤ, pos, ◌+ℤ◌, ltb_ℤ}
use xrp_payguard.Text.{Text, zero_bytes32}
use xrp_payguard.Failure.{Result, ok, err}
use xrp_payguard.Viem.{Viem}
use xrp_payguard.Protocol.Types.{
  Policy, ActionRequest, SpendState, EvaluationResult, PublicReasonClass, reason_ok, allow, deny,
  malformed, wrong_domain, stale_input, expired, Decision,
}
use xrp_payguard.Protocol.Violations.{Composed, compose_policy_decision}
use xrp_payguard.Protocol.Codec.Policy.{normalize_policy}
use xrp_payguard.Protocol.Codec.Encoding.{policy_commitment}
use xrp_payguard.Protocol.Evaluator.Step.{Step, done, returns, throws, ◌>>=◌, ◌>>◌, return_if, lift}
use xrp_payguard.Protocol.Evaluator.Inputs.{denial, matches_policy_domain, next_checkpoint}
use xrp_payguard.Protocol.Evaluator.History.{replay_spend_history}
use xrp_payguard.Protocol.Evaluator.Rules.{
  is_malformed_input, is_stale, is_malformed_request, rule_violations,
}

unfoldable pub approval : ActionRequest → Text → ℤ → EvaluationResult
approval request checkpoint now = record {
  request = request;
  decision = allow;
  public_reason_class = reason_ok;
  reserved_amount = request.amount;
  resulting_checkpoint = checkpoint;
  result_nonce = request.request_id;
  attempt = request.attempt;
  issued_at = now;
  expiry = request.expiry;
  machine_id = zero_bytes32;
  key_fingerprint = zero_bytes32;
}

module _ (V : Viem) where
  -- The last lines: deny for the composed reason, or approve.
  unfoldable pub conclude :
      ActionRequest → SpendState → Decision → PublicReasonClass → Step EvaluationResult
  conclude request state deny why = returns why
  conclude request state allow _ = do
    checkpoint ←
        lift (next_checkpoint V request request.amount (state.occurrence_count +ℤ pos 1) state.now)
    done (approval request checkpoint state.now)

  -- From the replay of the history on, for a policy that is normalised.
  unfoldable pub judge : Policy → Text → ActionRequest → SpendState → Step EvaluationResult
  judge policy commitment request state = do
    totals ← replay_spend_history V policy commitment state
    return_if (is_malformed_request V policy request state.now)
        (if ltb_ℤ request.expiry state.now then expired else malformed)
    violations ← rule_violations V policy request state totals
    let composed : Composed = compose_policy_decision (pos violations)
    conclude request state composed.decision composed.public_reason_class

  unfoldable pub evaluate_steps : Policy → ActionRequest → SpendState → Step EvaluationResult
  evaluate_steps policy_input request state = do
    policy ← lift (normalize_policy V policy_input)
    return_if (is_malformed_input request state) malformed
    commitment ← lift (policy_commitment V policy)
    return_if (not (matches_policy_domain policy request commitment)) wrong_domain
    stale ← is_stale V request state
    return_if stale stale_input
    judge policy commitment request state

-- An early return is a denial for its reason.
unfoldable pub settle : ActionRequest → ℤ → Step EvaluationResult → Result EvaluationResult
settle request now (done result) = ok result
settle request now (returns reason) = ok (denial request reason now)
settle request now (throws e) = err e

unfoldable pub evaluate_policy :
    Viem → Policy → ActionRequest → SpendState → Result EvaluationResult
evaluate_policy V policy_input request state =
    settle request state.now (evaluate_steps V policy_input request state)
