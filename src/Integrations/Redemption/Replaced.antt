-- ===== src/Integrations/Redemption/Replaced.antt =====
-- A job one of whose legs is replaced by its settlement: the checks of its legs, of its state and of its
-- amounts.
use xrp_payguard.Base.{
  ◌≡◌, refl, sym, ◌∙◌, ap, subst, Bool, true, false, ◌||◌, not, all, same_bool, is_some, List, [],
  ◌∷◌, some, or-false, inl, inr,
}
use xrp_payguard.Base.Int.{ℤ}
use xrp_payguard.Failure.{ok, >>=-eq-ok, bind_ok}
use xrp_payguard.Viem.{Viem}
use xrp_payguard.Integrations.Redemption.{
  RedemptionJobState, created, requested, settled, RedemptionIntent, RedemptionLeg, RedemptionJob,
}
use xrp_payguard.Integrations.Redemption.Integrity.{
  Seen, visit, check_legs, check_settlement, state_of, same_state, is_created, is_misstated,
  check_totals, is_pending, job_drift,
}
use xrp_payguard.Integrations.Redemption.Step.{find_leg, set_leg, settled_or_requested}
use xrp_payguard.Integrations.Redemption.Events.{is_requested}
use xrp_payguard.Integrations.Redemption.Legs.{found, not_found}

module _ (V : Viem) (id : ℤ) (new leg : RedemptionLeg) where
  pub check_legs-set_leg :
      (i : RedemptionIntent) (seen last : Seen) (legs : List RedemptionLeg)
      → find_leg id legs ≡ some leg
      → new.request ≡ leg.request
      → check_settlement new.state new ≡ ok tt
      → check_legs V i seen legs ≡ ok last
      → check_legs V i seen (set_leg id new legs) ≡ ok last
  unfolding check_legs
  check_legs-set_leg i seen last [] h r c k = absurd (not_found id leg h)
  check_legs-set_leg i seen last (l ∷ ls) h r c k =
      let (next, visited, k1) = >>=-eq-ok (visit V i job_drift seen l.request) _ k in
      let (u, kept, k2) = >>=-eq-ok (check_settlement l.state l) _ k1 in
      elim (found id new leg l ls h) [
        | inl (e, is) ↦
            let same : l.request ≡ new.request = ap (λ x. x.request) is ∙ sym r in
            let again : visit V i job_drift seen new.request ≡ ok next =
              subst (λ q. visit V i job_drift seen q ≡ ok next) same visited in
            rw e (bind_ok _ again (bind_ok _ c k2))
        | inr (e, later) ↦
            rw e
              (bind_ok _ visited (bind_ok _ kept (check_legs-set_leg i next last ls later r c k2)))
      ]

  -- The leg that is found met the check of its state.
  pub found-checked :
      (i : RedemptionIntent) (seen last : Seen) (legs : List RedemptionLeg)
      → find_leg id legs ≡ some leg
      → check_legs V i seen legs ≡ ok last
      → check_settlement leg.state leg ≡ ok tt
  unfolding check_legs
  found-checked i seen last [] h k = absurd (not_found id leg h)
  found-checked i seen last (l ∷ ls) h k =
      let (next, visited, k1) = >>=-eq-ok (visit V i job_drift seen l.request) _ k in
      let (u, kept, k2) = >>=-eq-ok (check_settlement l.state l) _ k1 in
      elim (found id new leg l ls h) [
        | inl (e, is) ↦ subst (λ x. check_settlement x.state x ≡ ok tt) is kept
        | inr (e, later) ↦ found-checked i next last ls later k2
      ]

pub state_of-set_leg :
    (id : ℤ) (new leg : RedemptionLeg) (legs : List RedemptionLeg)
    → find_leg id legs ≡ some leg
    → state_of (set_leg id new legs) ≡ settled_or_requested (set_leg id new legs)
unfolding state_of
state_of-set_leg id new leg [] h = absurd (not_found id leg h)
state_of-set_leg id new leg (l ∷ ls) h = elim (found id new leg l ls h) [
  | inl (e, _) ↦ rw e refl
  | inr (e, _) ↦ rw e refl
]

abbrev sor : Bool → RedemptionJobState
sor b = elim b [ true ↦ settled | false ↦ requested ]

same_state_refl : (b : Bool) → same_state (sor b) (sor b) ≡ true
unfolding same_state
same_state_refl true = refl
same_state_refl false = refl

not_created : (b : Bool) → is_created (sor b) ≡ false
not_created true = refl
not_created false = refl

pub requested_only : (s : RedemptionJobState) → is_requested s ≡ true → s ≡ requested
requested_only created h = cc
requested_only requested h = refl
requested_only settled h = cc

-- The statement of a job in progress, with legs whose state it takes.
pub stated_again :
    (job : RedemptionJob) (legs : List RedemptionLeg)
    → job.state ≡ requested
    → is_misstated job ≡ false
    → state_of legs ≡ settled_or_requested legs
    → is_misstated (record job { state = settled_or_requested legs; requests = legs }) ≡ false
unfolding is_misstated
stated_again job legs st h e =
    let (_, rest) = or-false (not (same_state job.state (state_of job.requests))) _ h in
    let done = all (λ l. not (is_pending l.state)) legs in
    let kept =
      subst
        (λ s.
          (not (same_bool (is_created s) (not (is_some job.request_transaction_hash)))
            || (not (same_bool (is_created s) (not (is_some job.redeemed_amount)))
                || not (same_bool (is_created s) (not (is_some job.remaining_amount)))))
          ≡ false)
        st rest in
    rw (e, same_state_refl done, not_created done) kept

pub totals_again :
    (job : RedemptionJob) (legs : List RedemptionLeg) (b : Bool) (total : ℤ)
    → check_totals requested job total ≡ ok tt
    → check_totals (sor b) (record job { state = sor b; requests = legs }) total ≡ ok tt
unfolding check_totals
totals_again job legs true total h = h
totals_again job legs false total h = h
