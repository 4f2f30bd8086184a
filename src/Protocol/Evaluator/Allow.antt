-- ===== src/Protocol/Evaluator/Allow.antt =====
-- What an approval of `evaluatePolicy` promises.
use xrp_payguard.Base.{
  Bool, or-false, not-false, ◌≢◌, refl, ◌≡◌, ◌⊎◌, inl, inr, true, false, ◌&&◌, not, [], some, arith,
  Bool-cases,
}
use xrp_payguard.Base.Int.{max_uint256, max_uint32, ◌==ℤ◌, ==ℤ_iff, ℤ, pos, ◌+ℤ◌, ◌≤ℤ◌, ◌<ℤ◌}
use xrp_payguard.Text.{Text, same_hex}
use xrp_payguard.Text.Laws.{same_hex_iff}
use xrp_payguard.Text.Members.{SameHex, Lists}
use xrp_payguard.Failure.{ok}
use xrp_payguard.Viem.{Viem}
use xrp_payguard.Protocol.Types.{Policy, ActionRequest, SpendState, EvaluationResult, allow}
use xrp_payguard.Protocol.Constants.{action_ftestxrp_transfer}
use xrp_payguard.Protocol.SpendWindow.{SpendWindowTotals}
use xrp_payguard.Protocol.Codec.Policy.{normalize_policy}
use xrp_payguard.Protocol.Codec.Encoding.{policy_commitment, genesis_spend_checkpoint}
use xrp_payguard.Protocol.Evaluator.Step.{done, lift, >>=-eq-done, lift-eq-done}
use xrp_payguard.Protocol.Evaluator.Inputs.{
  next_checkpoint, valid_fdc_snapshot, ftso_reference_value,
}
use xrp_payguard.Protocol.Evaluator.History.{replay_spend_history}
use xrp_payguard.Protocol.Evaluator.Rules.{
  is_malformed_request, is_exhausted, is_cooling_down, priced_amount, is_stale, is_stale_position,
  is_malformed_input, is_wrong_genesis,
}
use xrp_payguard.Protocol.Evaluator.Evaluate.{approval, evaluate_policy}
use xrp_payguard.Protocol.Evaluator.Run.{evaluate_policy-Run, rule_violations-Passes}
use xrp_payguard.Protocol.Evaluator.Evidence.{
  HasFeed, HasProof, IsBound, ftso_reference_value_sound, valid_fdc_snapshot_sound,
  is_unbound_input_sound,
}
use xrp_payguard.Protocol.Evaluator.Approval.{
  InDomain, Within, InWindow, matches_policy_domain_sound, term_sound, schedule_sound, target_sound,
  requester_sound, action_sound, caps_sound,
}

-- The request is a transfer of the policy's asset, made before the clock and not yet expired.
pub record IsTransfer (V : Viem) (policy : Policy) (request : ActionRequest) (now : ℤ)
    : Type 0 where
  pub asset : SameHex request.asset policy.asset
  pub action : SameHex request.action_type (action_ftestxrp_transfer V)
  pub amount : pos 0 <ℤ request.amount
  pub created : request.created_at ≤ℤ now
  pub unexpired : now ≤ℤ request.expiry
  pub grace : request.created_at ≤ℤ request.grace_deadline
  pub deadline : request.grace_deadline ≤ℤ request.expiry

-- The amounts, the times and the count are within their widths.
pub record IsWellFormed (request : ActionRequest) (state : SpendState) : Type 0 where
  pub balance : (pos 0 ≤ℤ state.available_balance) × (state.available_balance ≤ℤ max_uint256)
  pub accounting : pos 0 ≤ℤ state.last_accounting_at
  pub amount : request.amount ≤ℤ max_uint256
  pub count : (pos 0 ≤ℤ state.occurrence_count) × (state.occurrence_count <ℤ max_uint32)

-- The request continues the state that it is judged against, and the first one starts from the
-- checkpoint of its policy.
pub record IsFresh (V : Viem) (request : ActionRequest) (state : SpendState) : Type 0 where
  pub spend : SameHex state.spend_checkpoint request.spend_checkpoint
  pub balance : SameHex state.balance_checkpoint request.balance_checkpoint
  pub occurrence : request.occurrence ≡ state.occurrence_count +ℤ pos 1
  pub genesis :
      (state.occurrence_count ≢ pos 0)
      ⊎ ((start : Text) × (genesis_spend_checkpoint V request.policy_commitment ≡ ok start)
          × SameHex request.spend_checkpoint start)

pub record IsApproved (V : Viem) (policy_input : Policy) (request : ActionRequest)
    (state : SpendState) (r : EvaluationResult) : Type 0 where
  pub policy : Policy
  pub normalized : normalize_policy V policy_input ≡ ok policy
  pub commitment : Text
  pub committed : policy_commitment V policy ≡ ok commitment
  pub domain : InDomain policy request commitment
  pub transfer : IsTransfer V policy request state.now
  pub well_formed : IsWellFormed request state
  pub fresh : IsFresh V request state
  pub funded : request.amount ≤ℤ state.available_balance
  pub started : policy.start_at ≤ℤ state.now
  pub not_ended : Within state.now policy.end_at
  pub schedule :
      ((policy.schedule_interval_seconds ≡ pos 0) × (request.schedule_slot ≡ pos 0))
      ⊎ InWindow policy request state.now
  pub not_denied : ¬ (Lists policy.deny_targets request.target)
  pub target : (policy.allow_targets ≡ []) ⊎ Lists policy.allow_targets request.target
  pub requester :
      SameHex request.requester policy.owner ⊎ Lists policy.allow_requesters request.requester
  pub action :
      (policy.allow_action_types ≡ []) ⊎ Lists policy.allow_action_types request.action_type
  pub occurrences :
      (policy.max_occurrences ≡ pos 0) ⊎ (state.occurrence_count <ℤ policy.max_occurrences)
  pub cooldown :
      (policy.cooldown_seconds ≡ pos 0)
      ⊎ ((state.last_accounting_at ≡ pos 0)
          ⊎ (state.last_accounting_at +ℤ policy.cooldown_seconds ≤ℤ state.now))
  pub value : ℤ
  pub priced :
      ((policy.require_ftso ≡ false) × (value ≡ request.amount))
      ⊎ HasFeed policy request state value
  pub proved : (policy.require_fdc ≡ false) ⊎ HasProof V policy request state
  pub bound : IsBound V policy request state
  pub totals : SpendWindowTotals
  pub replayed : replay_spend_history V policy commitment state ≡ done totals
  pub per_action : Within value policy.max_per_action
  pub daily : Within (totals.daily_spend +ℤ value) policy.daily_cap
  pub rolling : Within (totals.rolling_spend +ℤ value) policy.rolling_cap
  pub checkpoint : Text
  pub advanced :
      next_checkpoint V request request.amount (state.occurrence_count +ℤ pos 1) state.now
      ≡ ok checkpoint
  pub result : r ≡ approval request checkpoint state.now

module _ (V : Viem) (policy : Policy) (request : ActionRequest) (state : SpendState) where
  IsTransfer-sound :
      is_malformed_request V policy request state.now ≡ false
      → IsTransfer V policy request state.now
  unfolding is_malformed_request
  IsTransfer-sound h = ground (
    arith,
    same_hex_iff request.asset policy.asset,
    same_hex_iff request.action_type (action_ftestxrp_transfer V),
  )

  IsWellFormed-sound :
      is_malformed_input request state ≡ false
      → is_stale_position request state ≡ false
      → IsWellFormed request state
  unfolding is_malformed_input is_stale_position
  IsWellFormed-sound h k = ground arith

  -- The tests of the position, and the first checkpoint where it is the first occurrence.
  is_stale_sound :
      is_stale V request state ≡ done false
      → (is_stale_position request state ≡ false) × (is_wrong_genesis V request state ≡ done false)
  unfolding is_stale
  is_stale_sound h = elim (Bool-cases (is_stale_position request state)) [
    | inl stale ↦ cc (rw stale at h)
    | inr current ↦ (current, rw current at h)
  ]

  genesis_sound :
      is_wrong_genesis V request state ≡ done false
      → (state.occurrence_count ≢ pos 0)
        ⊎ ((start : Text) × (genesis_spend_checkpoint V request.policy_commitment ≡ ok start)
            × SameHex request.spend_checkpoint start)
  unfolding is_wrong_genesis
  genesis_sound h = elim (Bool-cases (state.occurrence_count ==ℤ pos 0)) [
    | inl first ↦
        let (start, e, h1) =
          >>=-eq-done (lift (genesis_spend_checkpoint V request.policy_commitment))
            (λ x. done (not (same_hex request.spend_checkpoint x))) (rw first at h) in
        let same : not (same_hex request.spend_checkpoint start) ≡ false = cc in
        inr (
          start,
          lift-eq-done _ e,
          (same_hex_iff request.spend_checkpoint start).0 (not-false _ same),
        )
    | inr later ↦ inl (λ e.
        let zero : (state.occurrence_count ==ℤ pos 0) ≡ true =
          (==ℤ_iff state.occurrence_count (pos 0)).1 e in
        cc)
  ]

  IsFresh-sound : is_stale V request state ≡ done false → IsFresh V request state
  unfolding is_stale_position
  IsFresh-sound h =
      let (current, start) = is_stale_sound h in
      let (a, g1) =
        or-false (not (same_hex state.spend_checkpoint request.spend_checkpoint)) _ current in
      let (b, g2) =
        or-false (not (same_hex state.balance_checkpoint request.balance_checkpoint)) _ g1 in
      let (_, d) =
        or-false (state.occurrence_count ==ℤ max_uint32)
          (not (request.occurrence ==ℤ state.occurrence_count +ℤ pos 1)) g2 in
      record {
        spend = (same_hex_iff state.spend_checkpoint request.spend_checkpoint).0 (not-false _ a);
        balance =
            (same_hex_iff state.balance_checkpoint request.balance_checkpoint).0 (not-false _ b);
        occurrence =
            (==ℤ_iff request.occurrence (state.occurrence_count +ℤ pos 1)).0 (not-false _ d);
        genesis = genesis_sound start;
      }

  occurrences_sound :
      is_exhausted policy state ≡ false
      → (policy.max_occurrences ≡ pos 0) ⊎ (state.occurrence_count <ℤ policy.max_occurrences)
  unfolding is_exhausted
  occurrences_sound h = ground arith

  cooldown_sound :
      is_cooling_down policy state ≡ false
      → (policy.cooldown_seconds ≡ pos 0)
        ⊎ ((state.last_accounting_at ≡ pos 0)
            ⊎ (state.last_accounting_at +ℤ policy.cooldown_seconds ≤ℤ state.now))
  unfolding is_cooling_down
  cooldown_sound h = ground arith

  priced_or :
      (value : ℤ)
      → priced_amount policy request state ≡ some value
      → ((policy.require_ftso ≡ false) × (value ≡ request.amount))
        ⊎ (ftso_reference_value policy request state.ftso state.now ≡ some value)
  unfolding priced_amount
  priced_or value h = ground arith

  priced_sound :
      (value : ℤ)
      → priced_amount policy request state ≡ some value
      → ((policy.require_ftso ≡ false) × (value ≡ request.amount))
        ⊎ HasFeed policy request state value
  priced_sound value h = elim (priced_or value h) [
    | inl plain ↦ inl plain
    | inr priced ↦
        inr (ftso_reference_value_sound policy request state state.ftso value refl priced)
  ]

  proof_or : (b v : Bool) → (b && not v) ≡ false → (b ≡ false) ⊎ (v ≡ true)
  proof_or b v h = ground arith

  proof_sound :
      (policy.require_fdc && not (valid_fdc_snapshot V policy request state.fdc state.now)) ≡ false
      → (policy.require_fdc ≡ false) ⊎ HasProof V policy request state
  proof_sound h = elim (proof_or policy.require_fdc _ h) [
    | inl free ↦ inl free
    | inr valid ↦ inr (valid_fdc_snapshot_sound V policy request state state.fdc refl valid)
  ]

-- An approval is given only for numbers within their widths and for a transfer of the policy's own
-- domain and asset, already made and not expired, that continues the current checkpoints, or starts
-- from the policy's first one, and is covered by the balance. It falls into the policy's term; with
-- an interval its slot, its creation, its grace and its expiry, and the clock, are those of its
-- occurrence's window, and without one it names no slot. Its target, its requester and its action are
-- admitted, it keeps the cooldown, the number of occurrences and the three caps over the replayed
-- history, by the amount or by its worth in a recent price of the policy's feed. A policy that asks
-- for a payment proof is given one that is its own in every field and is bound to this request. The
-- request commits to the feed and the proof that are given, and one that is not asked for is not
-- given. The approval reserves the requested amount and names the next checkpoint.
pub evaluate_policy-allow :
    (V : Viem) (p : Policy) (request : ActionRequest) (state : SpendState) (r : EvaluationResult)
    → evaluate_policy V p request state ≡ ok r
    → r.decision ≡ allow
    → IsApproved V p request state r
evaluate_policy-allow V p request state r e a =
    let run = evaluate_policy-Run V p request state r e a in
    let policy = run.policy in
    let passes = rule_violations-Passes V policy request state run.totals run.ruled in
    let (started, not_ended) = term_sound policy request state.now passes.term in
    let (not_denied, target) = target_sound policy request passes.target in
    let (per_action, daily, rolling) =
      caps_sound policy request run.totals passes.value passes.caps in
    record {
      policy = policy;
      normalized = run.normalized;
      commitment = run.commitment;
      committed = run.committed;
      domain = matches_policy_domain_sound policy request run.commitment run.in_domain;
      transfer = IsTransfer-sound V policy request state run.acceptable;
      well_formed =
          IsWellFormed-sound V policy request state run.well_formed
            (is_stale_sound V policy request state run.fresh).0;
      fresh = IsFresh-sound V policy request state run.fresh;
      funded = let b = passes.balance in ground arith;
      started = started;
      not_ended = not_ended;
      schedule = schedule_sound policy request state.now passes.schedule;
      not_denied = not_denied;
      target = target;
      requester = requester_sound policy request passes.requester;
      action = action_sound policy request passes.action;
      occurrences = occurrences_sound V policy request state passes.occurrences;
      cooldown = cooldown_sound V policy request state passes.cooldown;
      value = passes.value;
      priced = priced_sound V policy request state passes.value passes.priced;
      proved = proof_sound V policy request state passes.proof;
      bound = is_unbound_input_sound V policy request state passes.bound;
      totals = run.totals;
      replayed = run.replayed;
      per_action = per_action;
      daily = daily;
      rolling = rolling;
      checkpoint = run.checkpoint;
      advanced = run.advanced;
      result = run.approved;
    }
