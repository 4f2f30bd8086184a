-- ===== src/Integrations/Redemption/Request.antt =====
-- A job that is created, and one whose redemption is requested, are intact.
use xrp_payguard.Base.{
  not-false, suc, ◌≡◌, refl, sym, ◌∙◌, ap, true, false, ◌||◌, not, length, ◌==◌, ltb, List, [], ◌∷◌,
  map, Option, none, some, or-false, arith,
}
use xrp_payguard.Base.Int.{ℤ, ◌==ℤ◌}
use xrp_payguard.Text.{Text, to_lower_case}
use xrp_payguard.Text.Laws.{same_hex_iff}
use xrp_payguard.Failure.{ok, err, Error, thrown, >>=-eq-ok, throw_if_then, bind_ok, pass}
use xrp_payguard.Viem.{Viem}
use xrp_payguard.Integrations.Redemption.{
  RedemptionJobState, created, requested, RedemptionIntent, LegRequest, RedemptionJob,
}
use xrp_payguard.Integrations.Redemption.Checks.{
  is_nonzero_hash, checked_add, validate_intent, validate_requested_leg,
}
use xrp_payguard.Integrations.Redemption.Hashes.{build_redemption_intent_hash}
use xrp_payguard.Integrations.Redemption.Integrity.{
  Seen, nothing_seen, is_seen, visit, check_legs, check_settlement, has_settlement, state_of,
  same_state, is_created, is_misstated, check_totals, check_amounts, job_drift,
  create_redemption_job, assert_redemption_job_integrity,
}
use xrp_payguard.Integrations.Redemption.Sending.{
  RedemptionReceipt, RedemptionClient, receipt_drift, open_leg, visit_all, check_same, request_with,
  request_redemption,
}
use xrp_payguard.Integrations.Redemption.Step.{settled_or_requested}
use xrp_payguard.Integrations.Redemption.Laws.{IsIntact, checkpoint-IsIntact, assert_sound}
use xrp_payguard.Integrations.Redemption.Legs.{open_legs, proofs}

created_only : (s : RedemptionJobState) → is_created s ≡ true → s ≡ created
created_only created h = refl
created_only requested h = cc
created_only RedemptionJobState.settled h = cc

-- The legs that are opened are open, and have no proof.
pub open_legs-map : (rs : List LegRequest) → open_legs (map open_leg rs) ≡ length rs
open_legs-map [] = refl
open_legs-map (r ∷ rs) = ap suc (open_legs-map rs)

pub proofs-map : (rs : List LegRequest) → proofs (map open_leg rs) ≡ []
proofs-map [] = refl
proofs-map (r ∷ rs) = proofs-map rs

state_of-map :
    (rs : List LegRequest) → (length rs == 0) ≡ false → state_of (map open_leg rs) ≡ requested
unfolding state_of
state_of-map [] h = cc
state_of-map (r ∷ rs) h = refl

length-map : (rs : List LegRequest) → length (map open_leg rs) ≡ length rs
length-map [] = refl
length-map (r ∷ rs) = ap suc (length-map rs)

==ℤ_sym : (a b : ℤ) → (a ==ℤ b) ≡ true → (b ==ℤ a) ≡ true
==ℤ_sym a b h = ground arith

-- The job with what a receipt says.
abbrev requested_job : RedemptionJob → RedemptionReceipt → RedemptionJob
requested_job job r = record job {
  state = requested;
  request_transaction_hash = some r.transaction_hash;
  redeemed_amount = some r.redeemed_amount;
  remaining_amount = some r.remaining_amount;
  requests = map open_leg r.requests;
}

requested_stated :
    (job : RedemptionJob) (r : RedemptionReceipt)
    → (length r.requests == 0) ≡ false
    → is_misstated (requested_job job r) ≡ false
unfolding is_misstated same_state
requested_stated job r h = rw (state_of-map r.requests h) refl

requested_totals :
    (job : RedemptionJob) (r : RedemptionReceipt) (total sum : ℤ)
    → not (is_nonzero_hash (some r.transaction_hash)) ≡ false
    → (total ==ℤ r.redeemed_amount) ≡ true
    → checked_add r.redeemed_amount r.remaining_amount ≡ ok sum
    → not (sum ==ℤ job.intent.requested_amount) ≡ false
    → check_totals requested (requested_job job r) total ≡ ok tt
unfolding check_totals check_amounts
requested_totals job r total sum hashed same added sums = pass job_drift hashed (
    pass job_drift (rw (==ℤ_sym total r.redeemed_amount same) refl)
      (bind_ok _ added (rw sums refl)))

progress-map :
    (rs : List LegRequest)
    → (length rs == 0) ≡ false
    → requested ≡ settled_or_requested (map open_leg rs)
progress-map [] h = cc
progress-map (r ∷ rs) h = refl

-- What a request gives.
pub record IsRequested (V : Viem) (job j : RedemptionJob) : Type 0 where
  pub intact : IsIntact V j
  pub intent : j.intent ≡ job.intent
  pub state : j.state ≡ requested
  pub progress : j.state ≡ settled_or_requested j.requests
  pub new : job.state ≡ created
  pub all_open : open_legs j.requests ≡ length j.requests
  pub unproved : proofs j.requests ≡ []

module _ (V : Viem) where
  build-valid :
      (i : RedemptionIntent) (hash : Text)
      → build_redemption_intent_hash V i ≡ ok hash
      → validate_intent V i ≡ ok tt
  unfolding build_redemption_intent_hash
  build-valid i hash h = let (u, valid, _) = >>=-eq-ok (validate_intent V i) _ h in valid

  pub create_redemption_job-IsIntact :
      (i : RedemptionIntent) (j : RedemptionJob)
      → create_redemption_job V i ≡ ok j
      → IsIntact V j × (j.intent ≡ i) × (j.state ≡ created) × (j.requests ≡ [])
  unfolding create_redemption_job
  create_redemption_job-IsIntact i j h =
      let (hash, built, h1) = >>=-eq-ok (build_redemption_intent_hash V i) _ h in
      let next : RedemptionJob = record {
        intent = i;
        intent_hash = hash;
        checkpoint_hash = [];
        state = created;
        request_transaction_hash = none;
        redeemed_amount = none;
        remaining_amount = none;
        requests = [];
      } in
      let (intact, (c, e)) =
        checkpoint-IsIntact V next j nothing_seen hash (build-valid i hash built)
          (unfold check_legs in refl) built ((same_hex_iff hash hash).1 refl)
          (unfold is_misstated same_state state_of in refl) (unfold check_totals in refl) h1 in
      (intact, ap (λ x. x.intent) e, ap (λ x. x.state) e, ap (λ x. x.requests) e)

  -- The error of a leg seen before does not matter to a run that succeeds.
  visit-drift :
      (i : RedemptionIntent) (e e' : Error) (seen next : Seen) (leg : LegRequest)
      → visit V i e seen leg ≡ ok next
      → visit V i e' seen leg ≡ ok next
  unfolding visit
  visit-drift i e e' seen next leg h =
      let (u, valid, h1) = >>=-eq-ok (validate_requested_leg V i leg) _ h in
      let (vault, got, h2) = >>=-eq-ok (V.get_address leg.agent_vault) _ h1 in
      let (fresh, h3) =
        throw_if_then (is_seen seen leg.request_id (to_lower_case leg.payment_reference) vault) e _
          h2 in
      bind_ok _ valid (bind_ok _ got (pass e' fresh h3))

  check_legs-map :
      (i : RedemptionIntent) (seen last : Seen) (rs : List LegRequest)
      → visit_all V i seen rs ≡ ok last
      → check_legs V i seen (map open_leg rs) ≡ ok last
  unfolding visit_all check_legs check_settlement has_settlement
  check_legs-map i seen last [] h = h
  check_legs-map i seen last (r ∷ rs) h =
      let (next, visited, h1) = >>=-eq-ok (visit V i receipt_drift seen r) _ h in
      bind_ok _ (visit-drift i receipt_drift job_drift seen next r visited)
        (check_legs-map i next last rs h1)

  request_with-IsRequested :
      (job : RedemptionJob) (client : RedemptionClient) (j : RedemptionJob)
      → IsIntact V job
      → job.state ≡ created
      → request_with V job client ≡ ok j
      → IsRequested V job j
  unfolding request_with
  request_with-IsRequested job client j i st h =
      let (r, _, h1) = >>=-eq-ok (client job) _ h in
      let (u, _, h2) = >>=-eq-ok (assert_redemption_job_integrity V job) _ h1 in
      let (hashed, h3) =
        throw_if_then (not (is_nonzero_hash (some r.transaction_hash))) receipt_drift _ h2 in
      let (u1, _, h4) =
        >>=-eq-ok (check_same V r.asset_manager job.intent.asset_manager receipt_drift) _ h3 in
      let (u2, _, h5) = >>=-eq-ok (check_same V r.f_asset job.intent.f_asset receipt_drift) _ h4 in
      let (u3, _, h6) =
        >>=-eq-ok (check_same V r.redeemer job.intent.redeemer receipt_drift) _ h5 in
      let (_, h7) = throw_if_then _ receipt_drift _ h6 in
      let (sum, added, h8) = >>=-eq-ok (checked_add r.redeemed_amount r.remaining_amount) _ h7 in
      let (g, h9) =
        throw_if_then
          (not (sum ==ℤ job.intent.requested_amount)
            || (length r.requests == 0 || ltb 256 (length r.requests)))
          receipt_drift _ h8 in
      let (seen, visited, h10) = >>=-eq-ok (visit_all V job.intent nothing_seen r.requests) _ h9 in
      let (total, h11) =
        throw_if_then (not (seen.total ==ℤ r.redeemed_amount)) receipt_drift _ h10 in
      let (g1, g2) = or-false (not (sum ==ℤ job.intent.requested_amount)) _ g in
      let (g3, _) = or-false (length r.requests == 0) (ltb 256 (length r.requests)) g2 in
      let next = requested_job job r in
      let (intact, (c, e)) =
        checkpoint-IsIntact V next j seen i.hash i.valid
          (check_legs-map job.intent nothing_seen seen r.requests visited) i.built_hash i.same_hash
          (requested_stated job r g3)
          (requested_totals job r seen.total sum hashed (not-false _ total) added g1) h11 in
      record {
        intact = intact;
        intent = ap (λ x. x.intent) e;
        state = ap (λ x. x.state) e;
        progress =
            ap (λ x. x.state) e
            ∙ progress-map r.requests g3
            ∙ sym (ap (λ x. settled_or_requested x.requests) e);
        new = st;
        all_open =
            ap (λ x. open_legs x.requests) e
            ∙ open_legs-map r.requests
            ∙ sym (length-map r.requests)
            ∙ sym (ap (λ x. length x.requests) e);
        unproved = ap (λ x. proofs x.requests) e ∙ proofs-map r.requests;
      }

  pub request_redemption-IsRequested :
      (job : RedemptionJob) (client : Option RedemptionClient) (j : RedemptionJob)
      → request_redemption V job client ≡ ok j
      → IsRequested V job j
  unfolding request_redemption
  request_redemption-IsRequested job none j h =
      let (u, intact, h1) = >>=-eq-ok (assert_redemption_job_integrity V job) _ h in
      let (g, h2) =
        throw_if_then (not (is_created job.state)) (thrown "redemption client unavailable")
          (err (thrown "redemption client unavailable")) h1 in
      cc
  request_redemption-IsRequested job (some client) j h =
      let (u, intact, h1) = >>=-eq-ok (assert_redemption_job_integrity V job) _ h in
      let (g, h2) =
        throw_if_then (not (is_created job.state)) (thrown "redemption client unavailable")
          (request_with V job client) h1 in
      request_with-IsRequested job client j (assert_sound V job intact)
        (created_only job.state (not-false _ g)) h2
