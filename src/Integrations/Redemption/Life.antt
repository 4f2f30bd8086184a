-- ===== src/Integrations/Redemption/Life.antt =====
-- The life of a redemption: its creation, its request, and the settlement of its legs.
use xrp_payguard.Base.{
  ℕ, suc, ◌+◌, ◌≡◌, ◌↔◌, refl, sym, ◌∙◌, ap, subst, Bool, true, false, not, all, length, List, [],
  ◌∷◌, Option, and-true, arith, Distinct,
}
use xrp_payguard.Base.Int.{ℤ}
use xrp_payguard.Text.{Text}
use xrp_payguard.Failure.{ok}
use xrp_payguard.Viem.{Viem}
use xrp_payguard.Integrations.Redemption.{
  RedemptionJobState, requested, settled, RedemptionLegState, pending, underlying_paid,
  collateral_default, RedemptionIntent, RedemptionLeg, RedemptionJob,
}
use xrp_payguard.Integrations.Redemption.Integrity.{
  is_pending, create_redemption_job, assert_redemption_job_integrity,
}
use xrp_payguard.Integrations.Redemption.Sending.{RedemptionClient, request_redemption}
use xrp_payguard.Integrations.Redemption.Events.{EventVerifier, PerformedEvent, DefaultEvent}
use xrp_payguard.Integrations.Redemption.Step.{
  settled_or_requested, accept_redemption_performed, accept_redemption_default,
}
use xrp_payguard.Integrations.Redemption.Laws.{IsIntact, assert_complete}
use xrp_payguard.Integrations.Redemption.Legs.{open_legs, proofs}
use xrp_payguard.Integrations.Redemption.Settle.{IsSettlement}
use xrp_payguard.Integrations.Redemption.Accept.{
  accept_redemption_performed-IsSettlement, accept_redemption_default-IsSettlement,
}
use xrp_payguard.Integrations.Redemption.Request.{
  create_redemption_job-IsIntact, request_redemption-IsRequested,
}

-- One leg of a job settled, by a payment or by a default.
pub data LegSettled (V : Viem) (job j : RedemptionJob) : Type 0 where
  performed :
      (event : PerformedEvent) (verifier : Option (EventVerifier PerformedEvent)) (used : List Text)
      → accept_redemption_performed V job event verifier used ≡ ok j
      → LegSettled V job j
  defaulted :
      (event : DefaultEvent) (verifier : Option (EventVerifier DefaultEvent)) (used : List Text)
      → accept_redemption_default V job event verifier used ≡ ok j
      → LegSettled V job j

-- A job that the operations lead to.
pub data IsReached (V : Viem) (i : RedemptionIntent) : RedemptionJob → Type 0 where
  opened : (j : RedemptionJob) → create_redemption_job V i ≡ ok j → IsReached V i j
  sent :
      (job j : RedemptionJob) (client : Option RedemptionClient)
      → IsReached V i job
      → request_redemption V job client ≡ ok j
      → IsReached V i j
  continued : (job j : RedemptionJob) → IsReached V i job → LegSettled V job j → IsReached V i j

-- A number of settlements that lead from one job to another.
pub data Settlements (V : Viem) (job : RedemptionJob) : ℕ → RedemptionJob → Type 0 where
  none_yet : Settlements V job 0 job
  one_more :
      (n : ℕ) (k j : RedemptionJob)
      → Settlements V job n k
      → LegSettled V k j
      → Settlements V job (suc n) j

-- The request whose leg is settled, and how.
abbrev pub settled_id : {V : Viem} {job j : RedemptionJob} → LegSettled V job j → ℤ
settled_id (performed event _ _ _) = event.request_id
settled_id (defaulted event _ _ _) = event.request_id

abbrev pub settled_state :
    {V : Viem} {job j : RedemptionJob} → LegSettled V job j → RedemptionLegState
settled_state (performed _ _ _ _) = underlying_paid
settled_state (defaulted _ _ _ _) = collateral_default

pub LegSettled-IsSettlement :
    (V : Viem) (job j : RedemptionJob)
    → (l : LegSettled V job j)
    → (c : Text) × IsSettlement V job (settled_id l) (settled_state l) c j
LegSettled-IsSettlement V job j (performed event verifier used h) =
    let (c, s, _, _) = accept_redemption_performed-IsSettlement V job event verifier used j h in
    (c, s)
LegSettled-IsSettlement V job j (defaulted event verifier used h) =
    let (c, s, _, _) = accept_redemption_default-IsSettlement V job event verifier used j h in
    (c, s)

reached :
    (V : Viem) (i : RedemptionIntent) (j : RedemptionJob)
    → IsReached V i j
    → IsIntact V j × (j.intent ≡ i) × Distinct (proofs j.requests)
reached V i j (opened _ h) =
    let (intact, intent, _, none_there) = create_redemption_job-IsIntact V i j h in
    (intact, intent, subst (λ x. Distinct (proofs x)) (sym none_there) tt)
reached V i j (sent job _ client r h) =
    let s = request_redemption-IsRequested V job client j h in
    let (_, intent, _) = reached V i job r in
    (s.intact, s.intent ∙ intent, subst Distinct (sym s.unproved) tt)
reached V i j (continued job _ r l) =
    let (c, s) = LegSettled-IsSettlement V job j l in
    let (_, intent, distinct) = reached V i job r in
    (s.intact, s.intent ∙ intent, s.distinct distinct)

-- A redemption job that its creation, its request and any sequence of payments and defaults lead to
-- passes the integrity check, keeps the intent that it was created with, and no two of its legs are
-- settled by the same proof, whatever the case of its letters.
pub redemption_job-integrity :
    (V : Viem) (i : RedemptionIntent) (j : RedemptionJob)
    → IsReached V i j
    → (assert_redemption_job_integrity V j ≡ ok tt) × (j.intent ≡ i) × Distinct (proofs j.requests)
redemption_job-integrity V i j r =
    let (intact, intent, distinct) = reached V i j r in
    (assert_complete V j intact, intent, distinct)

-- A job is settled when no leg is open.
is_pending-closed :
    (s : RedemptionLegState) (n : ℕ)
    → (elim s [ pending ↦ suc n | _ ↦ n ]) ≡ 0
    → (not (is_pending s) ≡ true) × (n ≡ 0)
is_pending-closed pending n h = cc
is_pending-closed underlying_paid n h = (refl, h)
is_pending-closed collateral_default n h = (refl, h)

closed-none :
    (s : RedemptionLegState) (n : ℕ)
    → not (is_pending s) ≡ true
    → (elim s [ pending ↦ suc n | _ ↦ n ]) ≡ n
closed-none pending n h = cc
closed-none underlying_paid n h = refl
closed-none collateral_default n h = refl

all-closed :
    (legs : List RedemptionLeg)
    → open_legs legs ≡ 0
    → all (λ l. not (is_pending l.state)) legs ≡ true
all-closed [] h = refl
all-closed (l ∷ ls) h =
    let (p, q) = is_pending-closed l.state (open_legs ls) h in rw p (all-closed ls q)

none-open :
    (legs : List RedemptionLeg)
    → all (λ l. not (is_pending l.state)) legs ≡ true
    → open_legs legs ≡ 0
none-open [] h = refl
none-open (l ∷ ls) h =
    let (p, q) = and-true (not (is_pending l.state)) (all (λ x. not (is_pending x.state)) ls) h in
    closed-none l.state (open_legs ls) p ∙ none-open ls q

settled-true : (b : Bool) → (elim b [ true ↦ settled | false ↦ requested ]) ≡ settled → b ≡ true
settled-true true h = refl
settled-true false h = cc

settled_or_requested-settled :
    (legs : List RedemptionLeg) (s : RedemptionJobState)
    → s ≡ settled_or_requested legs
    → (s ≡ settled) ↔ (open_legs legs ≡ 0)
settled_or_requested-settled legs s e = (
  (λ h. none-open legs (settled-true (all (λ l. not (is_pending l.state)) legs) (sym e ∙ h))),
  (λ h. e ∙ ap (λ b. elim b [ true ↦ settled | false ↦ requested ]) (all-closed legs h)),
)

record IsProgress (r : RedemptionJob) (n : ℕ) (j : RedemptionJob) : Type 0 where
  state : j.state ≡ settled_or_requested j.requests
  legs : length j.requests ≡ length r.requests
  left : n + open_legs j.requests ≡ length r.requests

progress :
    (V : Viem) (r j : RedemptionJob) (n : ℕ)
    → r.state ≡ settled_or_requested r.requests
    → open_legs r.requests ≡ length r.requests
    → Settlements V r n j
    → IsProgress r n j
progress V r j n st o none_yet = record { state = st; legs = refl; left = omega arith }
progress V r j n st o (one_more m k _ s l) =
    let (c, x) = LegSettled-IsSettlement V k j l in
    let p = progress V r k m st o s in
    let fewer = x.one_less in
    let left = p.left in record { state = x.state; legs = x.legs ∙ p.legs; left = omega arith }

-- From a request that succeeds, with the legs of its receipt all open, each settlement that is accepted
-- closes one leg: after n of them n legs are closed and the rest open, so that there are never more
-- settlements than legs, and the job is settled exactly after as many as it has legs.
pub settlement_count :
    (V : Viem) (job r j : RedemptionJob) (client : Option RedemptionClient) (n : ℕ)
    → request_redemption V job client ≡ ok r
    → Settlements V r n j
    → (n + open_legs j.requests ≡ length r.requests)
      × (length j.requests ≡ length r.requests)
      × ((j.state ≡ settled) ↔ (n ≡ length r.requests))
settlement_count V job r j client n h s =
    let q = request_redemption-IsRequested V job client r h in
    let p = progress V r j n q.progress q.all_open s in
    let (there, back) = settled_or_requested-settled j.requests j.state p.state in
    let left = p.left in
    (left, p.legs, ((λ e. let closed = there e in omega arith), (λ e. back (omega arith))))
