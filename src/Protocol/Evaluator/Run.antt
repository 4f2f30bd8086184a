-- ===== src/Protocol/Evaluator/Run.antt =====
-- What a run of the evaluator that does not return early went through.
use xrp_payguard.Base.{
  not-false, ℕ, ◌<◌, ◌≡◌, refl, Bool, true, false, not, arith, Option, none, some, is_some, ◌&&◌,
}
use xrp_payguard.Base.Int.{ℤ, pos, ◌+ℤ◌}
use mathlib.Core.Path.{subst}
use xrp_payguard.Text.{Text}
use xrp_payguard.Failure.{ok}
use xrp_payguard.Viem.{Viem}
use xrp_payguard.Protocol.Types.{
  Policy, ActionRequest, SpendState, EvaluationResult, allow, deny, Decision, PublicReasonClass,
}
use xrp_payguard.Protocol.SpendWindow.{SpendWindowTotals}
use xrp_payguard.Protocol.Violations.{Violation, has_flag, flag}
use xrp_payguard.Protocol.Violations.Laws.{compose-allow, raise_bound, raise-eq-zero}
use xrp_payguard.Protocol.Codec.Policy.{normalize_policy}
use xrp_payguard.Protocol.Codec.Encoding.{policy_commitment}
use xrp_payguard.Protocol.Evaluator.Step.{
  Step, done, returns, throws, >>=-eq-done, return_if-then, lift-eq-done,
}
use xrp_payguard.Protocol.Evaluator.Inputs.{
  denial, matches_policy_domain, next_checkpoint, valid_fdc_snapshot,
}
use xrp_payguard.Protocol.Evaluator.History.{replay_spend_history}
use xrp_payguard.Protocol.Evaluator.Rules.{
  is_malformed_input, is_stale, is_malformed_request, rule_violations, is_unbound_input, bind_input,
  feed_violations, cap_violations, plain_violations, is_outside_term, is_off_schedule,
  is_target_denied, is_requester_denied, is_action_denied, is_exhausted, is_cooling_down,
  is_over_cap, priced_amount, value_or_amount,
}
use xrp_payguard.Protocol.Evaluator.Evaluate.{
  approval, conclude, judge, evaluate_steps, settle, evaluate_policy,
}
use xrp_payguard.Base.Int.{ltb_ℤ}

module _ (V : Viem) where
  -- The values that an approving run computes, and the tests that it passes.
  pub record Run (policy_input : Policy) (request : ActionRequest) (state : SpendState)
      (r : EvaluationResult) : Type 0 where
    pub policy : Policy
    pub normalized : normalize_policy V policy_input ≡ ok policy
    pub well_formed : is_malformed_input request state ≡ false
    pub commitment : Text
    pub committed : policy_commitment V policy ≡ ok commitment
    pub in_domain : matches_policy_domain policy request commitment ≡ true
    pub fresh : is_stale V request state ≡ done false
    pub totals : SpendWindowTotals
    pub replayed : replay_spend_history V policy commitment state ≡ done totals
    pub acceptable : is_malformed_request V policy request state.now ≡ false
    pub ruled : rule_violations V policy request state totals ≡ done 0
    pub checkpoint : Text
    pub advanced :
        next_checkpoint V request request.amount (state.occurrence_count +ℤ pos 1) state.now
        ≡ ok checkpoint
    pub approved : r ≡ approval request checkpoint state.now

  conclude-eq-done :
      (request : ActionRequest) (state : SpendState) (d : Decision) (reason : PublicReasonClass)
      (r : EvaluationResult)
      → conclude V request state d reason ≡ done r
      → (checkpoint : Text) × (d ≡ allow)
        × (next_checkpoint V request request.amount (state.occurrence_count +ℤ pos 1) state.now
            ≡ ok checkpoint)
        × (r ≡ approval request checkpoint state.now)
  unfolding conclude
  conclude-eq-done request state deny why r h = cc
  conclude-eq-done request state allow why r h =
      let (checkpoint, e, e') = >>=-eq-done _ _ h in (checkpoint, refl, lift-eq-done _ e, cc)

  -- A run that concludes approves, and found no violation.
  pub evaluate_steps-Run :
      (p : Policy) (request : ActionRequest) (state : SpendState) (r : EvaluationResult)
      → evaluate_steps V p request state ≡ done r
      → Run p request state r
  unfolding evaluate_steps judge
  evaluate_steps-Run p request state r h =
      let (policy, normal, h1) = >>=-eq-done _ _ h in
      let (formed, h2) = return_if-then _ _ _ h1 in
      let (commitment, commits, h3) = >>=-eq-done _ _ h2 in
      let (outside, h4) = return_if-then _ _ _ h3 in
      let (stale, fresh, h5) = >>=-eq-done _ _ h4 in
      let (current, h6) = return_if-then _ _ _ h5 in
      let (totals, replayed, h7) = >>=-eq-done _ _ h6 in
      let (acceptable, h8) = return_if-then _ _ _ h7 in
      let (n, ruled, h9) = >>=-eq-done _ _ h8 in
      let (checkpoint, allowed, advanced, approved) = conclude-eq-done request state _ _ r h9 in
      record {
        policy = policy;
        normalized = lift-eq-done _ normal;
        well_formed = formed;
        commitment = commitment;
        committed = lift-eq-done _ commits;
        in_domain = not-false _ outside;
        fresh = subst (λ b. is_stale V request state ≡ done b) current fresh;
        totals = totals;
        replayed = replayed;
        acceptable = acceptable;
        ruled =
            subst (λ m. rule_violations V policy request state totals ≡ done m)
              (compose-allow n allowed) ruled;
        checkpoint = checkpoint;
        advanced = advanced;
        approved = approved;
      }

  settle-allow :
      (request : ActionRequest) (now : ℤ) (s : Step EvaluationResult) (r : EvaluationResult)
      → settle request now s ≡ ok r
      → r.decision ≡ allow
      → s ≡ done r
  unfolding settle denial
  settle-allow request now (done q) r h a = cc
  settle-allow request now (returns why) r h a = ground arith
  settle-allow request now (throws e) r h a = cc

  pub evaluate_policy-Run :
      (p : Policy) (request : ActionRequest) (state : SpendState) (r : EvaluationResult)
      → evaluate_policy V p request state ≡ ok r
      → r.decision ≡ allow
      → Run p request state r
  unfolding evaluate_policy
  evaluate_policy-Run p request state r h a =
      evaluate_steps-Run p request state r (settle-allow request state.now _ r h a)

  -- The rules that a run with no violation has passed.
  pub record Passes (policy : Policy) (request : ActionRequest) (state : SpendState)
      (totals : SpendWindowTotals) : Type 0 where
    pub term : is_outside_term policy state.now ≡ false
    pub schedule : is_off_schedule policy request state.now ≡ false
    pub target : is_target_denied policy request ≡ false
    pub requester : is_requester_denied policy request ≡ false
    pub action : is_action_denied policy request ≡ false
    pub occurrences : is_exhausted policy state ≡ false
    pub cooldown : is_cooling_down policy state ≡ false
    pub balance : ltb_ℤ state.available_balance request.amount ≡ false
    pub value : ℤ
    pub priced : priced_amount policy request state ≡ some value
    pub proof :
        (policy.require_fdc && not (valid_fdc_snapshot V policy request state.fdc state.now))
        ≡ false
    pub bound : is_unbound_input V policy request state ≡ done false
    pub caps : is_over_cap policy totals value ≡ false

  done-injective : {a b : ℕ} → Step.done a ≡ done b → a ≡ b
  done-injective h = cc

  bind_input-eq-zero :
      (policy : Policy) (u : Bool) (n m : ℕ)
      → n < 1024
      → bind_input policy u n ≡ done m
      → (m < 1024) × (m ≡ 0 → (u ≡ false) × (n ≡ 0))
  unfolding bind_input
  bind_input-eq-zero policy false n m h e = ground arith
  bind_input-eq-zero policy true n m h e = ground (
    arith,
    raise_bound true Violation.fdc_invalid n h,
    raise-eq-zero true Violation.fdc_invalid n h,
    raise_bound true Violation.ftso_invalid n h,
    raise-eq-zero true Violation.ftso_invalid n h,
  )

  is_some-true : (o : Option ℤ) → not (is_some o) ≡ false → (v : ℤ) × (o ≡ some v)
  is_some-true none h = cc
  is_some-true (some v) h = (v, refl)

  -- Where no plain rule raised a flag, each of their tests was false.
  plain_passes :
      (policy : Policy) (request : ActionRequest) (state : SpendState)
      → (plain_violations policy request state < 1024)
        × (plain_violations policy request state ≡ 0
            → (is_outside_term policy state.now ≡ false)
              × (is_off_schedule policy request state.now ≡ false)
              × (is_target_denied policy request ≡ false)
              × (is_requester_denied policy request ≡ false)
              × (is_action_denied policy request ≡ false)
              × (is_exhausted policy state ≡ false)
              × (is_cooling_down policy state ≡ false)
              × (ltb_ℤ state.available_balance request.amount ≡ false))
  unfolding plain_violations
  plain_passes policy request state =
      let b1 =
        raise_bound (is_outside_term policy state.now) Violation.policy_denied 0 (omega arith) in
      let b2 =
        raise_bound (is_off_schedule policy request state.now) Violation.policy_denied _ b1 in
      let b3 = raise_bound (is_target_denied policy request) Violation.target_denied _ b2 in
      let b4 = raise_bound (is_requester_denied policy request) Violation.requester_denied _ b3 in
      let b5 = raise_bound (is_action_denied policy request) Violation.action_denied _ b4 in
      let b6 = raise_bound (is_exhausted policy state) Violation.occurrence_exceeded _ b5 in
      let b7 = raise_bound (is_cooling_down policy state) Violation.cooldown _ b6 in
      let b8 =
        raise_bound (ltb_ℤ state.available_balance request.amount) Violation.insufficient_balance _
          b7 in
      (
        b8,
        λ e.
            let (balance, e7) = raise-eq-zero _ _ _ b7 e in
            let (cooldown, e6) = raise-eq-zero _ _ _ b6 e7 in
            let (occurrences, e5) = raise-eq-zero _ _ _ b5 e6 in
            let (action, e4) = raise-eq-zero _ _ _ b4 e5 in
            let (requester, e3) = raise-eq-zero _ _ _ b3 e4 in
            let (target, e2) = raise-eq-zero _ _ _ b2 e3 in
            let (schedule, e1) = raise-eq-zero _ _ _ b1 e2 in
            let (term, e0) = raise-eq-zero _ _ _ (omega arith) e1 in
            (term, schedule, target, requester, action, occurrences, cooldown, balance),
      )

  no_ftso_flag : has_flag 0 Violation.ftso_invalid ≡ false
  unfolding has_flag flag
  no_ftso_flag = refl

  caps_under :
      (policy : Policy) (totals : SpendWindowTotals) (m : ℕ) (o : Option ℤ) (value amount : ℤ)
      → m ≡ 0
      → o ≡ some value
      → (not (has_flag m Violation.ftso_invalid)
          && is_over_cap policy totals (value_or_amount o amount))
        ≡ false
      → is_over_cap policy totals value ≡ false
  unfolding value_or_amount
  caps_under policy totals m o value amount e f h = rw (e, f, no_ftso_flag) at h

  -- Where the rules raise nothing, every one of them is kept.
  pub rule_violations-Passes :
      (policy : Policy) (request : ActionRequest) (state : SpendState) (totals : SpendWindowTotals)
      → rule_violations V policy request state totals ≡ done 0
      → Passes policy request state totals
  unfolding rule_violations feed_violations cap_violations value_or_amount
  rule_violations-Passes policy request state totals h =
      let (plain_bound, plain) = plain_passes policy request state in
      let b9 =
        raise_bound (not (is_some (priced_amount policy request state))) Violation.ftso_invalid _
          plain_bound in
      let b10 =
        raise_bound
          (policy.require_fdc && not (valid_fdc_snapshot V policy request state.fdc state.now))
          Violation.fdc_invalid _ b9 in
      let (unbound, bound, h1) = >>=-eq-done _ _ h in
      let (m, given, h2) = >>=-eq-done _ _ h1 in
      let (small, nothing) = bind_input-eq-zero policy unbound _ m b10 given in
      let (caps, none_bound) = raise-eq-zero _ _ m small (done-injective h2) in
      let (clear, e10) = nothing none_bound in
      let (proof, e9) = raise-eq-zero _ _ _ b9 e10 in
      let (priced, e8) = raise-eq-zero _ _ _ plain_bound e9 in
      let (value, found) = is_some-true _ priced in
      let (term, schedule, target, requester, action, occurrences, cooldown, balance) = plain e8 in
      record {
        term = term;
        schedule = schedule;
        target = target;
        requester = requester;
        action = action;
        occurrences = occurrences;
        cooldown = cooldown;
        balance = balance;
        value = value;
        priced = found;
        proof = proof;
        bound = subst (λ b. is_unbound_input V policy request state ≡ done b) clear bound;
        caps = caps_under policy totals m _ value request.amount none_bound found caps;
      }
