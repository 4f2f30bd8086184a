-- ===== src/Integrations/Redemption/Outcome.antt =====
-- What the outcome of a redemption says of its legs.
use xrp_payguard.Base.{
  not-false, ℕ, suc, ◌⊎◌, ◌&&◌, ◌≡◌, ◌≢◌, ◌≤◌, refl, sym, ◌∙◌, ap, subst, Bool, true, false, not,
  all, length, ◌==◌, List, [], ◌∷◌, or-false, and-true, arith, inl, inr, Bool-cases, All, Member,
  here, there,
}
use xrp_payguard.Failure.{ok, >>=-eq-ok, ok-injective}
use xrp_payguard.Viem.{Viem}
use xrp_payguard.Integrations.Redemption.{
  RedemptionJobState, created, requested, settled, RedemptionLegState, pending, underlying_paid,
  collateral_default, RedemptionOutcome, not_requested, still_pending, all_paid, all_defaulted,
  mixed, RedemptionLeg, RedemptionJob,
}
use xrp_payguard.Integrations.Redemption.Integrity.{
  state_of, same_state, is_misstated, is_pending, assert_redemption_job_integrity,
}
use xrp_payguard.Integrations.Redemption.Step.{
  count_paid, settled_outcome, outcome_of, redemption_outcome,
}
use xrp_payguard.Integrations.Redemption.Laws.{assert_sound}

-- Some leg is in the state.
abbrev pub Has : RedemptionLegState → List RedemptionLeg → Type 0
Has s legs = (leg : RedemptionLeg) × Member leg legs × (leg.state ≡ s)

-- Every leg is in the state.
abbrev pub Each : RedemptionLegState → List RedemptionLeg → Type 0
Each s legs = All (λ leg. leg.state ≡ s) legs

abbrev pub Says : RedemptionOutcome → List RedemptionLeg → Type 0
Says not_requested legs = legs ≡ []
Says still_pending legs = Has pending legs
Says all_paid legs = (legs ≢ []) × Each underlying_paid legs
Says all_defaulted legs = (legs ≢ []) × Each collateral_default legs
Says mixed legs = Has underlying_paid legs × Has collateral_default legs

later :
    (s : RedemptionLegState) (l : RedemptionLeg) (ls : List RedemptionLeg)
    → Has s ls
    → Has s (l ∷ ls)
later s l ls (leg, m, e) = (leg, there m, e)

abbrev tick : RedemptionLegState → ℕ → ℕ
tick s n = elim s [ underlying_paid ↦ suc n | _ ↦ n ]

tick-fits : (s : RedemptionLegState) (n m : ℕ) → n ≤ m → tick s n ≤ suc m
tick-fits pending n m h = omega arith
tick-fits underlying_paid n m h = omega arith
tick-fits collateral_default n m h = omega arith

count-fits : (legs : List RedemptionLeg) → count_paid legs ≤ length legs
unfolding count_paid
count-fits [] = omega arith
count-fits (l ∷ ls) = tick-fits l.state (count_paid ls) (length ls) (count-fits ls)

tick-full :
    (s : RedemptionLegState) (n m : ℕ) → n ≤ m → tick s n ≡ suc m → (s ≡ underlying_paid) × (n ≡ m)
tick-full pending n m h e = absurd (omega arith)
tick-full underlying_paid n m h e = (refl, omega arith)
tick-full collateral_default n m h e = absurd (omega arith)

Each-paid : (legs : List RedemptionLeg) → count_paid legs ≡ length legs → Each underlying_paid legs
unfolding count_paid
Each-paid [] h = tt
Each-paid (l ∷ ls) h =
    let (p, q) = tick-full l.state (count_paid ls) (length ls) (count-fits ls) h in
    (p, Each-paid ls q)

tick-zero :
    (s : RedemptionLegState) (n : ℕ)
    → not (is_pending s) ≡ true
    → tick s n ≡ 0
    → (s ≡ collateral_default) × (n ≡ 0)
tick-zero pending n c e = cc
tick-zero underlying_paid n c e = cc
tick-zero collateral_default n c e = (refl, e)

abbrev closed : List RedemptionLeg → Bool
closed legs = all (λ l. not (is_pending l.state)) legs

Each-defaulted :
    (legs : List RedemptionLeg)
    → closed legs ≡ true
    → count_paid legs ≡ 0
    → Each collateral_default legs
unfolding count_paid
Each-defaulted [] c h = tt
Each-defaulted (l ∷ ls) c h =
    let (c1, c2) = and-true (not (is_pending l.state)) (closed ls) c in
    let (p, q) = tick-zero l.state (count_paid ls) c1 h in (p, Each-defaulted ls c2 q)

tick-some : (s : RedemptionLegState) (n : ℕ) → tick s n ≢ 0 → (s ≡ underlying_paid) ⊎ (n ≢ 0)
tick-some pending n h = inr h
tick-some underlying_paid n h = inl refl
tick-some collateral_default n h = inr h

Has-paid : (legs : List RedemptionLeg) → count_paid legs ≢ 0 → Has underlying_paid legs
unfolding count_paid
Has-paid [] h = absurd (h refl)
Has-paid (l ∷ ls) h = elim (tick-some l.state (count_paid ls) h) [
  | inl e ↦ (l, here, e)
  | inr k ↦ later underlying_paid l ls (Has-paid ls k)
]

tick-less :
    (s : RedemptionLegState) (n m : ℕ)
    → not (is_pending s) ≡ true
    → tick s n ≢ suc m
    → (s ≡ collateral_default) ⊎ (n ≢ m)
tick-less pending n m c h = cc
tick-less underlying_paid n m c h = inr (λ e. h (ap suc e))
tick-less collateral_default n m c h = inl refl

Has-defaulted :
    (legs : List RedemptionLeg)
    → closed legs ≡ true
    → count_paid legs ≢ length legs
    → Has collateral_default legs
unfolding count_paid
Has-defaulted [] c h = absurd (h refl)
Has-defaulted (l ∷ ls) c h =
    let (c1, c2) = and-true (not (is_pending l.state)) (closed ls) c in
    elim (tick-less l.state (count_paid ls) (length ls) c1 h) [
      | inl e ↦ (l, here, e)
      | inr k ↦ later collateral_default l ls (Has-defaulted ls c2 k)
    ]

pending-or :
    (s : RedemptionLegState) (b : Bool)
    → (not (is_pending s) && b) ≡ false
    → (s ≡ pending) ⊎ (b ≡ false)
pending-or pending b h = inl refl
pending-or underlying_paid b h = inr h
pending-or collateral_default b h = inr h

Has-pending : (legs : List RedemptionLeg) → closed legs ≡ false → Has pending legs
Has-pending [] h = cc
Has-pending (l ∷ ls) h = elim (pending-or l.state (closed ls) h) [
  | inl e ↦ (l, here, e)
  | inr k ↦ later pending l ls (Has-pending ls k)
]

settled_outcome-Says :
    (legs : List RedemptionLeg)
    → legs ≢ []
    → closed legs ≡ true
    → Says (settled_outcome (count_paid legs) (length legs)) legs
unfolding settled_outcome
settled_outcome-Says legs n c = elim (Bool-cases (count_paid legs == length legs)) [
  | inl full ↦ rw full (n, Each-paid legs (ground arith))
  | inr less ↦ elim (Bool-cases (count_paid legs == 0)) [
    | inl nothing ↦ rw (less, nothing) (n, Each-defaulted legs c (ground arith))
    | inr something ↦
        rw (less, something) (Has-paid legs (ground arith), Has-defaulted legs c (ground arith))
  ]
]

outcome_by :
    (legs : List RedemptionLeg) (b : Bool)
    → (b ≡ true → Says (settled_outcome (count_paid legs) (length legs)) legs)
    → (b ≡ false → Has pending legs)
    → Says (outcome_of (elim b [ true ↦ settled | false ↦ requested ]) legs) legs
unfolding outcome_of
outcome_by legs true f g = f refl
outcome_by legs false f g = g refl

outcome_of-Says : (legs : List RedemptionLeg) → Says (outcome_of (state_of legs) legs) legs
unfolding outcome_of state_of
outcome_of-Says [] = refl
outcome_of-Says (l ∷ ls) =
    outcome_by (l ∷ ls) (closed (l ∷ ls)) (λ c. settled_outcome-Says (l ∷ ls) (λ e. cc) c)
      (λ o. Has-pending (l ∷ ls) o)

same_state-eq : (s t : RedemptionJobState) → same_state s t ≡ true → s ≡ t
unfolding same_state
same_state-eq created created h = refl
same_state-eq created requested h = cc
same_state-eq created settled h = cc
same_state-eq requested created h = cc
same_state-eq requested requested h = refl
same_state-eq requested settled h = cc
same_state-eq settled created h = cc
same_state-eq settled requested h = cc
same_state-eq settled settled h = refl

stated-eq : (job : RedemptionJob) → is_misstated job ≡ false → job.state ≡ state_of job.requests
unfolding is_misstated
stated-eq job h =
    let (g, _) = or-false (not (same_state job.state (state_of job.requests))) _ h in
    same_state-eq job.state (state_of job.requests) (not-false _ g)

-- The outcome of a redemption that passes the integrity check tells its legs' states: none was asked for,
-- one is still open, all were paid, all fell to the collateral, or there is one of each of these two.
pub redemption_outcome-Says :
    (V : Viem) (job : RedemptionJob) (o : RedemptionOutcome)
    → redemption_outcome V job ≡ ok o
    → Says o job.requests
unfolding redemption_outcome
redemption_outcome-Says V job o h =
    let (u, intact, h1) = >>=-eq-ok (assert_redemption_job_integrity V job) _ h in
    let i = assert_sound V job intact in
    let e : outcome_of job.state job.requests ≡ o = ok-injective h1 in
    subst (λ x. Says x job.requests)
      (ap (λ s. outcome_of s job.requests) (sym (stated-eq job i.stated)) ∙ e)
      (outcome_of-Says job.requests)
