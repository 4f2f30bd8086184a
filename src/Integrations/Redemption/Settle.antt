-- ===== src/Integrations/Redemption/Settle.antt =====
-- A settlement of an open leg keeps the job intact, its proofs distinct, and leaves one open leg less.
use xrp_payguard.Base.{
  not-false, suc, ◌≡◌, ◌≢◌, refl, sym, ◌∙◌, ap, subst, true, false, not, any, all, is_some, length,
  List, [], ◌∷◌, Option, none, some, or-false, inl, inr, Option-cases, All, Distinct,
}
use xrp_payguard.Base.Int.{ℤ, ◌==ℤ◌}
use xrp_payguard.Text.{Text, same_hex, to_lower_case, text_eq}
use xrp_payguard.Text.Laws.{same_hex_iff}
use xrp_payguard.Failure.{
  Result, ok, Error, throw_if, ◌>>◌, >>=-eq-ok, throw_if_then, throw_if-eq-ok, ok-injective,
}
use xrp_payguard.Viem.{Viem}
use xrp_payguard.Integrations.Redemption.{
  requested, RedemptionLegState, pending, underlying_paid, collateral_default, RedemptionLeg,
  RedemptionJob,
}
use xrp_payguard.Integrations.Redemption.Checks.{require_same}
use xrp_payguard.Integrations.Redemption.Integrity.{
  nothing_seen, check_settlement, has_settlement, check_totals, is_pending, job_drift,
}
use xrp_payguard.Integrations.Redemption.Step.{
  find_leg, set_leg, is_used_by, is_replayed, settled_or_requested, find_open_leg, settle_leg,
}
use xrp_payguard.Integrations.Redemption.Laws.{IsIntact, checkpoint-IsIntact}
use xrp_payguard.Integrations.Redemption.Legs.{
  open_legs, proofs, proof_of, open_legs-set_leg, length-set_leg, proofs-set_leg,
}
use xrp_payguard.Integrations.Redemption.Replaced.{
  check_legs-set_leg, found-checked, state_of-set_leg, stated_again, totals_again,
}

open-unsettled :
    (s : RedemptionLegState) (leg : RedemptionLeg)
    → is_pending s ≡ true
    → check_settlement s leg ≡ ok tt
    → has_settlement leg ≡ false
unfolding check_settlement
open-unsettled pending leg p h = throw_if-eq-ok (has_settlement leg) job_drift h
open-unsettled underlying_paid leg p h = cc
open-unsettled collateral_default leg p h = cc

absent : {A : Type 0} (o : Option A) → is_some o ≡ false → o ≡ none
absent none h = refl
absent (some a) h = cc

pub record Unsettled (leg : RedemptionLeg) : Type 0 where
  pub underlying : leg.underlying_transaction_hash ≡ none
  pub spent : leg.spent_underlying ≡ none
  pub vault : leg.vault_collateral ≡ none
  pub pool : leg.pool_collateral ≡ none
  pub proof : leg.settlement_proof ≡ none

unsettled : (leg : RedemptionLeg) → has_settlement leg ≡ false → Unsettled leg
unfolding has_settlement
unsettled leg h =
    let (_, h1) = or-false (is_some leg.flare_transaction_hash) _ h in
    let (a, h2) = or-false (is_some leg.underlying_transaction_hash) _ h1 in
    let (b, h3) = or-false (is_some leg.spent_underlying) _ h2 in
    let (c, h4) = or-false (is_some leg.vault_collateral) _ h3 in
    let (d, e) = or-false (is_some leg.pool_collateral) (is_some leg.settlement_proof) h4 in
    record {
      underlying = absent _ a;
      spent = absent _ b;
      vault = absent _ c;
      pool = absent _ d;
      proof = absent _ e;
    }

unused_step :
    (c : Text) (o : Option Text) (ts : List Text)
    → (elim o [ none ↦ false | some d ↦ same_hex d c ]) ≡ false
    → All (λ t. t ≢ to_lower_case c) ts
    → All (λ t. t ≢ to_lower_case c) (proof_of o ts)
unused_step c none ts h a = a
unused_step c (some d) ts h a = ((λ e. cc ((same_hex_iff d c).1 e)), a)

-- What no leg has used is none of the proofs.
unused :
    (c : Text) (legs : List RedemptionLeg)
    → any (is_used_by c) legs ≡ false
    → All (λ t. t ≢ to_lower_case c) (proofs legs)
unfolding is_used_by
unused c [] h = tt
unused c (l ∷ ls) h =
    let (first, rest) = or-false (is_used_by c l) (any (is_used_by c) ls) h in
    unused_step c l.settlement_proof (proofs ls) first (unused c ls rest)

abbrev open_leg_tests : Viem → RedemptionLeg → Text → ℤ → Error → Result RedemptionLeg
open_leg_tests V leg vault amount drift = do
  throw_if (not (is_pending leg.state)) drift
  require_same V leg.request.agent_vault vault drift
  throw_if (not (leg.request.value ==ℤ amount)) drift
  ok leg

open_leg_tests_sound :
    (V : Viem) (l leg : RedemptionLeg) (vault : Text) (amount : ℤ) (drift : Error)
    → open_leg_tests V l vault amount drift ≡ ok leg
    → (l ≡ leg) × (is_pending leg.state ≡ true)
open_leg_tests_sound V l leg vault amount drift h =
    let (p, h1) = throw_if_then (not (is_pending l.state)) drift _ h in
    let (u, _, h2) = >>=-eq-ok (require_same V l.request.agent_vault vault drift) _ h1 in
    let (_, h3) = throw_if_then (not (l.request.value ==ℤ amount)) drift (ok l) h2 in
    let e : l ≡ leg = ok-injective h3 in
    (e, subst (λ x. is_pending x.state ≡ true) e (not-false _ p))

-- What the settlement of a leg of a job gives.
pub record IsSettlement (V : Viem) (job : RedemptionJob) (id : ℤ) (s : RedemptionLegState)
    (c : Text) (j : RedemptionJob) : Type 0 where
  pub intact : IsIntact V j
  pub intent : j.intent ≡ job.intent
  pub state : j.state ≡ settled_or_requested j.requests
  pub leg : RedemptionLeg
  pub there : find_leg id job.requests ≡ some leg
  pub waiting : is_pending leg.state ≡ true
  pub new : RedemptionLeg
  pub same : new.request ≡ leg.request
  pub settled_as : new.state ≡ s
  pub requests : j.requests ≡ set_leg id new job.requests
  pub legs : length j.requests ≡ length job.requests
  pub one_less : open_legs job.requests ≡ suc (open_legs j.requests)
  pub distinct : Distinct (proofs job.requests) → Distinct (proofs j.requests)

module _ (V : Viem) where
  pub find_open_leg_sound :
      (job : RedemptionJob) (id : ℤ) (vault : Text) (amount : ℤ) (drift : Error)
      (leg : RedemptionLeg)
      → find_open_leg V job id vault amount drift ≡ ok leg
      → (find_leg id job.requests ≡ some leg) × (is_pending leg.state ≡ true)
  unfolding find_open_leg
  find_open_leg_sound job id vault amount drift leg h =
      elim (Option-cases (find_leg id job.requests)) [
        | inl missing ↦ cc (rw (missing, find_open_leg) at h)
        | inr (l, there) ↦
            let k : (open_leg_tests V l vault amount drift) ≡ ok leg =
              rw (there, find_open_leg) at h in
            let (e, p) = open_leg_tests_sound V l leg vault amount drift k in (there ∙ ap some e, p)
      ]

  pub leg-Unsettled :
      (job : RedemptionJob) (id : ℤ) (leg : RedemptionLeg)
      → IsIntact V job
      → find_leg id job.requests ≡ some leg
      → is_pending leg.state ≡ true
      → Unsettled leg
  leg-Unsettled job id leg i there waiting = unsettled leg (
      open-unsettled leg.state leg waiting
        (found-checked V id leg leg job.intent nothing_seen i.seen job.requests there i.legs))

  pub settle_leg-IsSettlement :
      (job : RedemptionJob) (id : ℤ) (s : RedemptionLegState) (new leg : RedemptionLeg) (c : Text)
      (used : List Text) (j : RedemptionJob)
      → IsIntact V job
      → job.state ≡ requested
      → find_leg id job.requests ≡ some leg
      → is_pending leg.state ≡ true
      → new.request ≡ leg.request
      → new.state ≡ s
      → is_pending s ≡ false
      → new.settlement_proof ≡ some c
      → check_settlement new.state new ≡ ok tt
      → is_replayed used job.requests c ≡ false
      → settle_leg V job id new ≡ ok j
      → IsSettlement V job id s c j
  unfolding settle_leg is_replayed
  settle_leg-IsSettlement job id s new leg c used j i st there waiting same is closed proof checked
        fresh h =
      let legs = set_leg id new job.requests in
      let next : RedemptionJob = record job {
        state = settled_or_requested legs;
        requests = legs;
      } in
      let (intact, (k, e)) =
        checkpoint-IsIntact V next j i.seen i.hash i.valid
          (check_legs-set_leg V id new leg job.intent nothing_seen i.seen job.requests there same
            checked i.legs)
          i.built_hash i.same_hash
          (stated_again job legs st i.stated (state_of-set_leg id new leg job.requests there))
          (totals_again job legs (all (λ l. not (is_pending l.state)) legs) i.seen.total
            (subst (λ s. check_totals s job i.seen.total ≡ ok tt) st i.totals))
          h in
      let (_, unreplayed) = or-false (any (λ u. text_eq u (to_lower_case c)) used) _ fresh in
      let none_yet = leg-Unsettled job id leg i there waiting in
      record {
        intact = intact;
        intent = ap (λ x. x.intent) e;
        state = ap (λ x. x.state) e ∙ sym (ap (λ x. settled_or_requested x.requests) e);
        leg = leg;
        there = there;
        waiting = waiting;
        new = new;
        same = same;
        settled_as = is;
        requests = ap (λ x. x.requests) e;
        legs = ap (λ x. length x.requests) e ∙ length-set_leg id new leg job.requests;
        one_less =
            open_legs-set_leg id new leg job.requests there waiting (ap is_pending is ∙ closed)
            ∙ sym (ap (λ x. suc (open_legs x.requests)) e);
        distinct = λ d.
            subst (λ x. Distinct (proofs x)) (sym (ap (λ x. x.requests) e))
              (proofs-set_leg id new leg c job.requests there none_yet.proof proof d
                (unused c job.requests unreplayed));
      }
