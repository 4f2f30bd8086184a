-- ===== src/Protocol/Evaluator/Priority.antt =====
-- The word of violations that the rules raise, read as one test for each violation.
use xrp_payguard.Base.{
  or_false, ℕ, ◌<◌, ◌≡◌, refl, ◌∙◌, ap, Bool, true, false, ◌||◌, ◌&&◌, not, same_bool, is_some,
  List, [], ◌∷◌, all, all_below, all_below_sound, leb, arith,
}
use xrp_payguard.Base.Int.{pos, ltb_ℤ}
use xrp_payguard.Viem.{Viem}
use xrp_payguard.Protocol.Types.{Policy, ActionRequest, SpendState}
use xrp_payguard.Protocol.SpendWindow.{SpendWindowTotals}
use xrp_payguard.Protocol.Violations.{Violation, raise, flag, priority, compose_policy_decision}
use xrp_payguard.Text.{Text}
use xrp_payguard.Protocol.Evaluator.Step.{done}
use xrp_payguard.Protocol.Evaluator.Inputs.{valid_fdc_snapshot}
use xrp_payguard.Protocol.Evaluator.History.{replay_spend_history}
use xrp_payguard.Protocol.Evaluator.Rules.{
  is_malformed_request, rule_violations, is_unbound_input, bind_input, feed_violations,
  cap_violations, plain_violations, is_outside_term, is_off_schedule, is_target_denied,
  is_requester_denied, is_action_denied, is_exhausted, is_cooling_down, is_over_cap, priced_amount,
  value_or_amount,
}
use xrp_payguard.Protocol.Evaluator.Evaluate.{conclude, judge}
use xrp_payguard.Protocol.Violations.Laws.{
  holds, raise_bound, decide_by, has_flag-eq-holds, compose_policy_decision-eq,
}

abbrev same : Violation → Violation → Bool
same Violation.policy_denied Violation.policy_denied = true
same Violation.target_denied Violation.target_denied = true
same Violation.requester_denied Violation.requester_denied = true
same Violation.action_denied Violation.action_denied = true
same Violation.occurrence_exceeded Violation.occurrence_exceeded = true
same Violation.cooldown Violation.cooldown = true
same Violation.insufficient_balance Violation.insufficient_balance = true
same Violation.fdc_invalid Violation.fdc_invalid = true
same Violation.ftso_invalid Violation.ftso_invalid = true
same Violation.cap_exceeded Violation.cap_exceeded = true
same _ _ = false

agrees : Violation → Violation → ℕ → Bool
agrees v w n = same_bool (holds (raise true v n) w) (same v w || holds n w)

table : (v : Violation) → all_below 1024 (λ n. all (λ w. agrees v w n) priority) ≡ true
unfolding all_below agrees raise flag
table Violation.policy_denied = refl
table _ = refl

every : (p : Violation → Bool) (w : Violation) → all p priority ≡ true → p w ≡ true
every p Violation.policy_denied h = ground arith
every p _ h = ground arith

same_bool-eq : (a b : Bool) → same_bool a b ≡ true → a ≡ b
same_bool-eq a b h = ground arith

holds-raise :
    (b : Bool) (v w : Violation) (n : ℕ)
    → n < 1024
    → holds (raise b v n) w ≡ (b && same v w || holds n w)
unfolding agrees
holds-raise false v w n h = unfold raise in refl
holds-raise true v w n h =
    same_bool-eq _ _ (every (λ w. agrees v w n) w (all_below_sound 1024 _ n (table v) h))

-- The tests of a list, each raising its flag, the last of the list first.
abbrev raises : List (Bool × Violation) → ℕ
raises [] = 0
raises (e ∷ es) = raise e.0 e.1 (raises es)

raises_bound : (es : List (Bool × Violation)) → raises es < 1024
raises_bound [] = omega arith
raises_bound (e ∷ es) = raise_bound e.0 e.1 _ (raises_bound es)

abbrev is_hit : List (Bool × Violation) → Violation → Bool
is_hit [] w = false
is_hit (e ∷ es) w = e.0 && same e.1 w || is_hit es w

holds-zero : (w : Violation) → holds 0 w ≡ false
holds-zero Violation.policy_denied = refl
holds-zero _ = refl

holds-raises : (es : List (Bool × Violation)) (w : Violation) → holds (raises es) w ≡ is_hit es w
holds-raises [] w = holds-zero w
holds-raises (e ∷ es) w =
    holds-raise e.0 e.1 w _ (raises_bound es) ∙ ap (λ b. e.0 && same e.1 w || b) (holds-raises es w)

and_false : (b : Bool) → (b && false) ≡ false
and_false b = ground arith

and_true : (b : Bool) → (b && true) ≡ b
and_true b = ground arith

or_comm : (a b : Bool) → (a || b) ≡ (b || a)
or_comm a b = ground arith

decide_by_ext :
    (p q : Violation → Bool) (vs : List Violation)
    → ((v : Violation) → p v ≡ q v)
    → decide_by p vs ≡ decide_by q vs
decide_by_ext p q [] h = refl
decide_by_ext p q (v ∷ vs) h = rw (h v, decide_by_ext p q vs h)

module _ (V : Viem) (policy : Policy) (request : ActionRequest) (state : SpendState) where
  -- What each violation stands for, over the replayed totals and the test of the input commitment.
  unfoldable pub fails : SpendWindowTotals → Bool → Violation → Bool
  fails totals unbound Violation.policy_denied =
      is_outside_term policy state.now || is_off_schedule policy request state.now
  fails totals unbound Violation.target_denied = is_target_denied policy request
  fails totals unbound Violation.requester_denied = is_requester_denied policy request
  fails totals unbound Violation.action_denied = is_action_denied policy request
  fails totals unbound Violation.occurrence_exceeded = is_exhausted policy state
  fails totals unbound Violation.cooldown = is_cooling_down policy state
  fails totals unbound Violation.insufficient_balance = ltb_ℤ state.available_balance request.amount
  fails totals unbound Violation.fdc_invalid =
      policy.require_fdc
      && (unbound || not (valid_fdc_snapshot V policy request state.fdc state.now))
  fails totals unbound Violation.ftso_invalid =
      not (is_some (priced_amount policy request state))
      || (policy.require_ftso && (not policy.require_fdc && unbound))
  fails totals unbound Violation.cap_exceeded =
      is_some (priced_amount policy request state)
      && (not (policy.require_ftso && (not policy.require_fdc && unbound))
          && is_over_cap policy totals
              (value_or_amount (priced_amount policy request state) request.amount))

  plain : List (Bool × Violation)
  plain =
      (ltb_ℤ state.available_balance request.amount, Violation.insufficient_balance)
      ∷ (is_cooling_down policy state, Violation.cooldown)
      ∷ (is_exhausted policy state, Violation.occurrence_exceeded)
      ∷ (is_action_denied policy request, Violation.action_denied)
      ∷ (is_requester_denied policy request, Violation.requester_denied)
      ∷ (is_target_denied policy request, Violation.target_denied)
      ∷ (is_off_schedule policy request state.now, Violation.policy_denied)
      ∷ (is_outside_term policy state.now, Violation.policy_denied)
      ∷ []

  fed : List (Bool × Violation)
  fed =
      (
        policy.require_fdc && not (valid_fdc_snapshot V policy request state.fdc state.now),
        Violation.fdc_invalid,
      )
      ∷ (not (is_some (priced_amount policy request state)), Violation.ftso_invalid)
      ∷ plain

  bound : Bool → List (Bool × Violation)
  bound unbound =
      (policy.require_fdc && unbound, Violation.fdc_invalid)
      ∷ (policy.require_ftso && (not policy.require_fdc && unbound), Violation.ftso_invalid)
      ∷ fed

  word : SpendWindowTotals → Bool → List (Bool × Violation)
  word totals unbound =
      (
        not (is_hit (bound unbound) Violation.ftso_invalid)
            && is_over_cap policy totals
                (value_or_amount (priced_amount policy request state) request.amount),
        Violation.cap_exceeded,
      )
      ∷ bound unbound

  feed_violations-eq : feed_violations V policy request state ≡ raises fed
  unfolding feed_violations plain_violations fed plain
  feed_violations-eq = refl

  bind_input-eq :
      (unbound : Bool) (n : ℕ)
      → (unbound && not (policy.require_fdc || policy.require_ftso)) ≡ false
      → bind_input policy unbound n
        ≡ done (
            raise (policy.require_fdc && unbound) Violation.fdc_invalid (
              raise
                (policy.require_ftso && (not policy.require_fdc && unbound))
                Violation.ftso_invalid
                n))
  unfolding bind_input raise
  bind_input-eq unbound n h = ground arith

  cap_violations-eq :
      (totals : SpendWindowTotals) (unbound : Bool)
      → cap_violations policy request state totals (raises (bound unbound))
        ≡ raises (word totals unbound)
  unfolding cap_violations word
  cap_violations-eq totals unbound =
      rw
        (
          has_flag-eq-holds _ Violation.ftso_invalid (raises_bound (bound unbound)),
          holds-raises (bound unbound) Violation.ftso_invalid,
        )
        refl

  rule_violations-eq :
      (totals : SpendWindowTotals) (unbound : Bool)
      → is_unbound_input V policy request state ≡ done unbound
      → (unbound && not (policy.require_fdc || policy.require_ftso)) ≡ false
      → rule_violations V policy request state totals ≡ done (raises (word totals unbound))
  unfolding rule_violations bound
  rule_violations-eq totals unbound e h =
      rw (e, bind_input-eq unbound (feed_violations V policy request state) h, feed_violations-eq)
        (ap done (cap_violations-eq totals unbound))

  fails_fdc : (u r v : Bool) → (r && u || r && not v) ≡ (r && (u || not v))
  fails_fdc u r v = ground arith

  unpriced : (s p o : Bool) → (not (s || not p) && o) ≡ (p && (not s && o))
  unpriced s p o = ground arith

  is_hit-word :
      (totals : SpendWindowTotals) (unbound : Bool) (w : Violation)
      → is_hit (word totals unbound) w ≡ fails totals unbound w
  unfolding word bound fed plain fails
  is_hit-word totals unbound Violation.policy_denied = simp (and_false, and_true, or_false, or_comm)
  is_hit-word totals unbound Violation.fdc_invalid = simp (and_false, and_true, or_false, fails_fdc)
  is_hit-word totals unbound Violation.ftso_invalid = simp (and_false, and_true, or_false, or_comm)
  is_hit-word totals unbound Violation.cap_exceeded = simp (and_false, and_true, or_false, unpriced)
  is_hit-word totals unbound _ = simp (and_false, and_true, or_false)

  in_mask : (n : ℕ) → n < 1024 → (ltb_ℤ (pos n) (pos 0) || leb 1024 n) ≡ false
  in_mask n h = ground arith

  composed-eq :
      (totals : SpendWindowTotals) (unbound : Bool)
      → compose_policy_decision (pos (raises (word totals unbound)))
        ≡ decide_by (fails totals unbound) priority
  composed-eq totals unbound =
      let es = word totals unbound in
      compose_policy_decision-eq (pos (raises es))
      ∙ (rw (in_mask _ (raises_bound es))
          (decide_by_ext _ _ priority (λ v. holds-raises es v ∙ is_hit-word totals unbound v)))

-- Once the history is replayed and the request is well formed, the rules are a priority list: the
-- decision is the first violation whose test fails in the order policy, target, requester, action,
-- occurrences, cooldown, balance, proof, feed, caps, whatever the order in which the evaluator runs
-- the tests and merges their flags; with none of them it is an approval. The condition on an unbound
-- input commitment leaves out the early return for a policy that asks for neither feed nor proof.
pub judge-decide_by :
    (V : Viem) (policy : Policy) (commitment : Text) (request : ActionRequest) (state : SpendState)
    (totals : SpendWindowTotals) (unbound : Bool)
    → replay_spend_history V policy commitment state ≡ done totals
    → is_malformed_request V policy request state.now ≡ false
    → is_unbound_input V policy request state ≡ done unbound
    → (unbound && not (policy.require_fdc || policy.require_ftso)) ≡ false
    → judge V policy commitment request state ≡ (
        let composed = decide_by (fails V policy request state totals unbound) priority in
        conclude V request state composed.decision composed.public_reason_class)
unfolding judge
judge-decide_by V policy commitment request state totals unbound replayed formed tested h =
    rw
      (
        replayed,
        formed,
        rule_violations-eq V policy request state totals unbound tested h,
        composed-eq V policy request state totals unbound,
      )
      refl
