-- ===== src/Protocol/Evaluator/Denial.antt =====
-- A denial reserves nothing, keeps the checkpoint, and never carries the reason OK.
use xrp_payguard.Base.{
  ℕ, ◌≡◌, ◌≢◌, refl, sym, subst, ◌∙◌, ◌⊎◌, inl, inr, Bool, true, false, ◌||◌, List, [], ◌∷◌, arith,
  Bool-cases, suc, leb,
}
use xrp_payguard.Base.Int.{ℤ, pos, ltb_ℤ, pos_part, ◌+ℤ◌}
use xrp_payguard.Text.{Text}
use xrp_payguard.Failure.{ok, ok-injective}
use xrp_payguard.Viem.{Viem}
use xrp_payguard.Protocol.Types.{
  Policy, ActionRequest, SpendState, SpendHistoryEntry, EvaluationResult, PublicReasonClass,
  Decision, allow, deny, reason_ok, malformed,
}
use xrp_payguard.Protocol.SpendWindow.{SpendWindowTotals}
use xrp_payguard.Protocol.Violations.{Violation, priority, Composed, compose_policy_decision}
use xrp_payguard.Protocol.Violations.Laws.{decide_by, holds, compose_policy_decision-eq}
use xrp_payguard.Protocol.Evaluator.Step.{Step, done, returns, throws}
use xrp_payguard.Protocol.Evaluator.Inputs.{denial, next_checkpoint}
use xrp_payguard.Protocol.Evaluator.History.{
  entry_value, check_entry_fdc, mismatch_reason, replay_entry, replay_from, replay_spend_history,
}
use xrp_payguard.Protocol.Evaluator.Rules.{
  is_wrong_genesis, is_stale, is_unbound_input, bind_input, rule_violations,
}
use xrp_payguard.Protocol.Evaluator.Evaluate.{
  approval, conclude, judge, evaluate_steps, settle, evaluate_policy,
}
use xrp_payguard.Protocol.Evaluator.Run.{evaluate_steps-Run}
use xrp_payguard.Protocol.Evaluator.Reasons.{
  GivesReason, ends, gives, GivesReason-bind, GivesReason-then, GivesReason-lift,
  GivesReason-caught, GivesReason-or_return, GivesReason-if, GivesReason-return_if, malformed-ne-ok,
  ftso_invalid-ne-ok, fdc_invalid-ne-ok, stale_input-ne-ok, wrong_domain-ne-ok, expired-ne-ok,
  reason_of-ne-ok,
}

ruleset gives_reason = (
  GivesReason-bind, GivesReason-then, GivesReason-lift, GivesReason-caught, GivesReason-or_return,
  GivesReason-if, GivesReason-return_if, ends,
)

ruleset reasons = (
  gives_reason, malformed-ne-ok, ftso_invalid-ne-ok, fdc_invalid-ne-ok, stale_input-ne-ok,
  wrong_domain-ne-ok, expired-ne-ok,
)

-- What a decision carries: OK exactly with an approval.
abbrev pub IsHonest : Composed → Type 0
IsHonest c =
    ((c.decision ≡ allow) × (c.public_reason_class ≡ reason_ok))
    ⊎ ((c.decision ≡ deny) × (c.public_reason_class ≢ reason_ok))

pub decide_by-IsHonest : (p : Violation → Bool) (vs : List Violation) → IsHonest (decide_by p vs)
decide_by-IsHonest p [] = inl (refl, refl)
decide_by-IsHonest p (v ∷ vs) = elim (Bool-cases (p v)) [
  | inl hit ↦ rw hit (inr (refl, reason_of-ne-ok v))
  | inr miss ↦ rw miss (decide_by-IsHonest p vs)
]

pub compose-IsHonest : (n : ℤ) → IsHonest (compose_policy_decision n)
compose-IsHonest n =
    rw (compose_policy_decision-eq n)
      (elim (Bool-cases (ltb_ℤ n (pos 0) || leb 1024 (pos_part n))) [
        | inl bad ↦ rw bad (inr (refl, λ e. cc))
        | inr good ↦ rw good (decide_by-IsHonest (holds (pos_part n)) priority)
      ])

conclude-GivesReason :
    (V : Viem) (request : ActionRequest) (state : SpendState) (d : Decision)
    (why : PublicReasonClass)
    → ((d ≡ allow) × (why ≡ reason_ok)) ⊎ ((d ≡ deny) × (why ≢ reason_ok))
    → GivesReason (conclude V request state d why)
unfolding conclude
conclude-GivesReason V request state allow why h =
    GivesReason-bind (GivesReason-lift _) (λ c. ends _)
conclude-GivesReason V request state deny why (inl (e, _)) = cc
conclude-GivesReason V request state deny why (inr (_, h)) = gives why h

-- A denial for a reason, and an approval with a checkpoint.
abbrev pub IsDenied : ActionRequest → PublicReasonClass → EvaluationResult → Type 0
IsDenied request why r =
    (r.request ≡ request)
    × (r.decision ≡ deny)
    × (r.public_reason_class ≡ why)
    × (r.reserved_amount ≡ pos 0)
    × (r.resulting_checkpoint ≡ request.spend_checkpoint)

abbrev pub Grants : ActionRequest → Text → EvaluationResult → Type 0
Grants request checkpoint r =
    (r.request ≡ request)
    × (r.decision ≡ allow)
    × (r.public_reason_class ≡ reason_ok)
    × (r.reserved_amount ≡ request.amount)
    × (r.resulting_checkpoint ≡ checkpoint)

module _ (V : Viem) (policy : Policy) (commitment : Text) where
  mismatch_reason-ne-ok : mismatch_reason V policy commitment ≢ reason_ok
  unfolding mismatch_reason
  mismatch_reason-ne-ok = ground arith

  entry_value-GivesReason :
      (entry : SpendHistoryEntry) → GivesReason (entry_value V policy commitment entry)
  unfolding entry_value
  entry_value-GivesReason entry = search reasons

  check_entry_fdc-GivesReason :
      (entry : SpendHistoryEntry) → GivesReason (check_entry_fdc V policy commitment entry)
  unfolding check_entry_fdc
  check_entry_fdc-GivesReason entry = search reasons

  replay_entry-GivesReason :
      (now n : ℤ) (c : Text) (entry : SpendHistoryEntry)
      → GivesReason (replay_entry V policy commitment now n c entry)
  unfolding replay_entry
  replay_entry-GivesReason now n c entry =
      search (reasons, entry_value-GivesReason, check_entry_fdc-GivesReason, mismatch_reason-ne-ok)
        depth 12

  replay_from-GivesReason :
      (now : ℤ) (n : ℕ) (c : Text) (es : List SpendHistoryEntry)
      → GivesReason (replay_from V policy commitment now n c es)
  unfolding replay_from
  replay_from-GivesReason now n c [] = ends _
  replay_from-GivesReason now n c (e ∷ es) =
      GivesReason-bind (replay_entry-GivesReason now (pos (suc n)) c e)
        (λ p. GivesReason-bind (replay_from-GivesReason now (suc n) p.0 es) (λ q. ends _))

  replay_spend_history-GivesReason :
      (state : SpendState) → GivesReason (replay_spend_history V policy commitment state)
  unfolding replay_spend_history
  replay_spend_history-GivesReason state = search (reasons, replay_from-GivesReason) depth 12

module _ (V : Viem) where
  bind_input-GivesReason :
      (policy : Policy) (b : Bool) (n : ℕ) → GivesReason (bind_input policy b n)
  unfolding bind_input
  bind_input-GivesReason policy false n = ends n
  bind_input-GivesReason policy true n =
      GivesReason-if policy.require_fdc (ends _)
        (GivesReason-if policy.require_ftso (ends _) (gives malformed malformed-ne-ok))

  is_stale-GivesReason :
      (request : ActionRequest) (state : SpendState) → GivesReason (is_stale V request state)
  unfolding is_stale is_wrong_genesis
  is_stale-GivesReason request state = search reasons depth 8

  rule_violations-GivesReason :
      (policy : Policy) (request : ActionRequest) (state : SpendState) (totals : SpendWindowTotals)
      → GivesReason (rule_violations V policy request state totals)
  unfolding rule_violations is_unbound_input
  rule_violations-GivesReason policy request state totals =
      search (reasons, bind_input-GivesReason) depth 12

  judge-GivesReason :
      (policy : Policy) (commitment : Text) (request : ActionRequest) (state : SpendState)
      → GivesReason (judge V policy commitment request state)
  unfolding judge
  judge-GivesReason policy commitment request state =
      GivesReason-bind (replay_spend_history-GivesReason V policy commitment state) (λ totals.
        GivesReason-then (GivesReason-return_if _ (expired-ne-ok _)) (
          GivesReason-bind (rule_violations-GivesReason policy request state totals)
            (λ n. conclude-GivesReason V request state _ _ (compose-IsHonest (pos n)))))

  evaluate_steps-GivesReason :
      (p : Policy) (request : ActionRequest) (state : SpendState)
      → GivesReason (evaluate_steps V p request state)
  unfolding evaluate_steps
  evaluate_steps-GivesReason p request state =
      search (reasons, is_stale-GivesReason, judge-GivesReason) depth 14

  Outcome : ActionRequest → SpendState → EvaluationResult → Type 0
  Outcome request state r =
      ((why : PublicReasonClass) × (why ≢ reason_ok) × (r ≡ denial request why state.now))
      ⊎ ((checkpoint : Text) × (next_checkpoint V request request.amount
              (state.occurrence_count +ℤ pos 1) state.now
            ≡ ok checkpoint)
          × (r ≡ approval request checkpoint state.now))

  settle-Outcome :
      (request : ActionRequest) (state : SpendState) (p : Policy) (r : EvaluationResult)
      (s : Step EvaluationResult)
      → s ≡ evaluate_steps V p request state
      → GivesReason s
      → settle request state.now s ≡ ok r
      → Outcome request state r
  unfolding settle Outcome
  settle-Outcome request state p r (done q) e h k =
      let run = evaluate_steps-Run V p request state q (sym e) in
      inr (run.checkpoint, run.advanced, sym (ok-injective k) ∙ run.approved)
  settle-Outcome request state p r (returns why) e (gives _ h) k =
      inl (why, h, sym (ok-injective k))
  settle-Outcome request state p r (throws x) e h k = cc

IsDenied-fields :
    (request : ActionRequest) (why : PublicReasonClass) (now : ℤ) (r : EvaluationResult)
    → r ≡ denial request why now
    → IsDenied request why r
unfolding denial
IsDenied-fields request why now r e =
    subst (IsDenied request why) (sym e) (refl, refl, refl, refl, refl)

approved_fields :
    (request : ActionRequest) (checkpoint : Text) (now : ℤ) (r : EvaluationResult)
    → r ≡ approval request checkpoint now
    → Grants request checkpoint r
unfolding approval
approved_fields request checkpoint now r e =
    subst (Grants request checkpoint) (sym e) (refl, refl, refl, refl, refl)

-- Whatever the evaluator returns is one of two results: the denial of the request as it came, for a
-- reason other than OK, with nothing reserved and the checkpoint kept; or the approval of the request,
-- with the requested amount reserved and the next checkpoint of the chain.
pub evaluate_policy-outcome :
    (V : Viem) (p : Policy) (request : ActionRequest) (state : SpendState) (r : EvaluationResult)
    → evaluate_policy V p request state ≡ ok r
    → ((why : PublicReasonClass) × (why ≢ reason_ok) × IsDenied request why r)
      ⊎ ((checkpoint : Text) × (next_checkpoint V request request.amount
              (state.occurrence_count +ℤ pos 1)
              state.now
            ≡ ok checkpoint)
          × Grants request checkpoint r)
unfolding evaluate_policy Outcome
evaluate_policy-outcome V p request state r h =
    elim (settle-Outcome V request state p r _ refl (evaluate_steps-GivesReason V p request state)
      h) [
        | inl (why, n, e) ↦ inl (why, n, IsDenied-fields request why state.now r e)
        | inr (checkpoint, a, e) ↦
            inr (checkpoint, a, approved_fields request checkpoint state.now r e)
      ]
