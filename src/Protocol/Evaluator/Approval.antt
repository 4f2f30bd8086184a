-- ===== src/Protocol/Evaluator/Approval.antt =====
-- What each rule of the evaluator demands, stated without the evaluator's tests.
use xrp_payguard.Base.{
  ◌≡◌, refl, ◌⊎◌, inl, inr, true, false, [], Option, none, some, arith, Bool-cases, or-false,
}
use xrp_payguard.Base.Int.{ℤ, pos, ◌+ℤ◌, ◌≤ℤ◌, ◌==ℤ◌}
use xrp_payguard.Text.{Text}
use xrp_payguard.Text.Laws.{same_hex_iff}
use xrp_payguard.Text.Members.{SameHex, Lists, any-same_hex_iff, any-same_hex-eq-false}
use xrp_payguard.Protocol.Types.{Policy, ActionRequest}
use xrp_payguard.Protocol.Schedule.{ScheduleWindow, schedule_window}
use xrp_payguard.Protocol.Schedule.Laws.{IsWindow, schedule_window_iff}
use xrp_payguard.Protocol.SpendWindow.{SpendWindowTotals}
use xrp_payguard.Protocol.Evaluator.Inputs.{contains, matches_policy_domain}
use xrp_payguard.Protocol.Evaluator.Rules.{
  is_outside_term, is_off_schedule, is_outside_window, is_nonempty, is_target_denied,
  is_requester_denied, is_action_denied, is_over_cap,
}

-- The request names the policy's chain, contracts, identity and commitment.
pub record InDomain (policy : Policy) (request : ActionRequest) (commitment : Text) : Type 0 where
  pub chain : request.chain_id ≡ policy.chain_id
  pub registry : SameHex request.registry policy.registry
  pub vault : SameHex request.vault policy.vault
  pub router : SameHex request.router policy.router
  pub policy_id : SameHex request.policy_id policy.policy_id
  pub version : request.policy_version ≡ policy.policy_version
  pub committed : SameHex request.policy_commitment commitment

-- A limit of zero is no limit.
abbrev pub Within : ℤ → ℤ → Type 0
Within value limit = (limit ≡ pos 0) ⊎ (value ≤ℤ limit)

-- The request's slot is that of its occurrence in the policy's schedule; it was made in the window
-- of that slot, the clock lies in it too, and its grace and its expiry end where the window does.
pub record InWindow (policy : Policy) (request : ActionRequest) (now : ℤ) : Type 0 where
  pub window : ScheduleWindow
  pub scheduled :
      IsWindow policy.start_at policy.schedule_interval_seconds policy.schedule_grace_seconds
        request.occurrence window
  pub slot : request.schedule_slot ≡ window.slot
  pub created : window.slot ≤ℤ request.created_at
  pub created_in : request.created_at ≤ℤ window.deadline
  pub grace : request.grace_deadline ≡ window.deadline
  pub expiry : request.expiry ≡ window.deadline
  pub opened : window.slot ≤ℤ now
  pub still_open : now ≤ℤ window.deadline
  pub in_term : Within window.deadline policy.end_at

module _ (policy : Policy) (request : ActionRequest) where
  pub matches_policy_domain_sound :
      (commitment : Text)
      → matches_policy_domain policy request commitment ≡ true
      → InDomain policy request commitment
  unfolding matches_policy_domain
  matches_policy_domain_sound commitment h = ground (
    arith,
    same_hex_iff request.registry policy.registry,
    same_hex_iff request.vault policy.vault,
    same_hex_iff request.router policy.router,
    same_hex_iff request.policy_id policy.policy_id,
    same_hex_iff request.policy_commitment commitment,
  )

  pub term_sound :
      (now : ℤ)
      → is_outside_term policy now ≡ false
      → (policy.start_at ≤ℤ now) × Within now policy.end_at
  unfolding is_outside_term
  term_sound now h = ground arith

  window_sound :
      (now : ℤ) (o : Option ScheduleWindow)
      → schedule_window policy.start_at policy.schedule_interval_seconds
          policy.schedule_grace_seconds request.occurrence
        ≡ o
      → is_outside_window policy request now o ≡ false
      → InWindow policy request now
  unfolding is_outside_window
  window_sound now none e h = cc
  window_sound now (some w) e h = record {
    window = w;
    scheduled = (schedule_window_iff _ _ _ _ w).0 e;
    slot = ground arith;
    created = ground arith;
    created_in = ground arith;
    grace = ground arith;
    expiry = ground arith;
    opened = ground arith;
    still_open = ground arith;
    in_term = ground arith;
  }

  pub schedule_sound :
      (now : ℤ)
      → is_off_schedule policy request now ≡ false
      → ((policy.schedule_interval_seconds ≡ pos 0) × (request.schedule_slot ≡ pos 0))
        ⊎ InWindow policy request now
  unfolding is_off_schedule
  schedule_sound now h = elim (Bool-cases (policy.schedule_interval_seconds ==ℤ pos 0)) [
    | inl plain ↦ inl (ground arith)
    | inr recurring ↦ inr (window_sound now _ refl (rw recurring at h))
  ]

  pub target_sound :
      is_target_denied policy request ≡ false
      → ¬ (Lists policy.deny_targets request.target)
        × ((policy.allow_targets ≡ []) ⊎ Lists policy.allow_targets request.target)
  unfolding is_target_denied contains is_nonempty
  target_sound h =
      let (denied, allowed) = or-false _ _ h in
      (
        any-same_hex-eq-false policy.deny_targets request.target denied,
        ground (arith, any-same_hex_iff policy.allow_targets request.target),
      )

  pub requester_sound :
      is_requester_denied policy request ≡ false
      → SameHex request.requester policy.owner ⊎ Lists policy.allow_requesters request.requester
  unfolding is_requester_denied contains
  requester_sound h = ground (
    arith,
    same_hex_iff request.requester policy.owner,
    any-same_hex_iff policy.allow_requesters request.requester,
  )

  pub action_sound :
      is_action_denied policy request ≡ false
      → (policy.allow_action_types ≡ []) ⊎ Lists policy.allow_action_types request.action_type
  unfolding is_action_denied contains is_nonempty
  action_sound h = ground (arith, any-same_hex_iff policy.allow_action_types request.action_type)

  pub caps_sound :
      (totals : SpendWindowTotals) (value : ℤ)
      → is_over_cap policy totals value ≡ false
      → Within value policy.max_per_action
        × Within (totals.daily_spend +ℤ value) policy.daily_cap
        × Within (totals.rolling_spend +ℤ value) policy.rolling_cap
  unfolding is_over_cap
  caps_sound totals value h = ground arith
