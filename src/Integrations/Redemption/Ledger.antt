-- ===== src/Integrations/Redemption/Ledger.antt =====
-- A redemption seen as a ledger of its requests and their states, and what a settlement does to it.
use xrp_payguard.Base.{
  ◌≡◌, refl, sym, ◌∙◌, ap, true, List, [], ◌∷◌, Option, some, inl, inr, Bool-cases,
}
use xrp_payguard.Base.Int.{ℤ, ◌==ℤ◌, ==ℤ_iff}
use xrp_payguard.Viem.{Viem}
use xrp_payguard.Integrations.Redemption.{
  RedemptionLegState, pending, underlying_paid, collateral_default, LegRequest, RedemptionLeg,
  RedemptionJob,
}
use xrp_payguard.Integrations.Redemption.Integrity.{is_pending}
use xrp_payguard.Integrations.Redemption.Step.{find_leg, set_leg}
use xrp_payguard.Integrations.Redemption.Legs.{found, not_found}
use xrp_payguard.Integrations.Redemption.Life.{
  LegSettled, settled_id, settled_state, LegSettled-IsSettlement,
}

-- The ledger of a job: its requests in order, and how each stands.
abbrev pub Ledger : Type 0
Ledger = List (LegRequest × RedemptionLegState)

abbrev pub ledger : List RedemptionLeg → Ledger
ledger [] = []
ledger (leg ∷ legs) = (leg.request, leg.state) ∷ ledger legs

-- The one step of a ledger: an open request with the identifier is marked, and all else stays.
pub data Marks (id : ℤ) (s : RedemptionLegState) : Ledger → Ledger → Type 0 where
  marked :
      {request : LegRequest} {rest : Ledger}
      → request.request_id ≡ id
      → Marks id s ((request, pending) ∷ rest) ((request, s) ∷ rest)
  after :
      {entry : LegRequest × RedemptionLegState} {before rest : Ledger}
      → Marks id s before rest
      → Marks id s (entry ∷ before) (entry ∷ rest)

find_leg-id :
    (id : ℤ) (leg : RedemptionLeg) (legs : List RedemptionLeg)
    → find_leg id legs ≡ some leg
    → leg.request.request_id ≡ id
unfolding find_leg
find_leg-id id leg [] h = cc
find_leg-id id leg (l ∷ ls) h = elim (Bool-cases (l.request.request_id ==ℤ id)) [
  | inl hit ↦
      let there : Option.some l ≡ some leg = rw hit at h in
      let is : l ≡ leg = cc in
      ap (λ x. x.request.request_id) (sym is) ∙ (==ℤ_iff l.request.request_id id).0 hit
  | inr miss ↦ let later : find_leg id ls ≡ some leg = rw miss at h in find_leg-id id leg ls later
]

pending_only : (s : RedemptionLegState) → is_pending s ≡ true → s ≡ pending
pending_only pending h = refl
pending_only underlying_paid h = cc
pending_only collateral_default h = cc

mark_head :
    (id : ℤ) (s p q : RedemptionLegState) (a b : LegRequest) (rest : Ledger)
    → a.request_id ≡ id
    → b ≡ a
    → p ≡ pending
    → q ≡ s
    → Marks id s ((a, p) ∷ rest) ((b, q) ∷ rest)
mark_head id s p q a b rest h e f g = rw (e, f, g) (marked h)

set_leg-Marks :
    (id : ℤ) (s : RedemptionLegState) (new leg : RedemptionLeg) (legs : List RedemptionLeg)
    → find_leg id legs ≡ some leg
    → is_pending leg.state ≡ true
    → new.request ≡ leg.request
    → new.state ≡ s
    → Marks id s (ledger legs) (ledger (set_leg id new legs))
set_leg-Marks id s new leg [] h w r e = absurd (not_found id leg h)
set_leg-Marks id s new leg (l ∷ ls) h w r e = elim (found id new leg l ls h) [
  | inl (f, is) ↦
      let same : new.request ≡ l.request = r ∙ ap (λ x. x.request) (sym is) in
      rw f (
        mark_head id s l.state new.state l.request new.request (ledger ls)
          (ap (λ x. x.request.request_id) is ∙ find_leg-id id leg (l ∷ ls) h) same
          (ap (λ x. x.state) is ∙ pending_only leg.state w) e)
  | inr (f, later) ↦ rw f (after (set_leg-Marks id s new leg ls later w r e))
]

-- An event that is accepted marks, in the ledger of the job, one open request that has the event's
-- identifier, as paid for a payment and as defaulted for a default; the request itself, the other
-- entries and their order stay as they are.
pub LegSettled-Marks :
    (V : Viem) (job j : RedemptionJob) (l : LegSettled V job j)
    → Marks (settled_id l) (settled_state l) (ledger job.requests) (ledger j.requests)
LegSettled-Marks V job j l =
    let (c, s) = LegSettled-IsSettlement V job j l in
    rw s.requests (
      set_leg-Marks (settled_id l) (settled_state l) s.new s.leg job.requests s.there s.waiting
        s.same s.settled_as)
