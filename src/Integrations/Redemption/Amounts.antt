-- ===== src/Integrations/Redemption/Amounts.antt =====
-- What a redemption's integrity says of its amounts, its legs and its outcome.
use xrp_payguard.Base.{
  ◌≡◌, ◌≢◌, refl, sym, ◌∙◌, ap, subst, true, false, not, any, List, [], ◌∷◌, map, Option, none,
  some, or-false, arith, inl, inr, Bool-cases, Distinct, All,
}
use xrp_payguard.Base.Int.{ℤ, pos, ◌==ℤ◌, ◌+ℤ◌, ==ℤ_iff, max_uint256}
use xrp_payguard.Text.{to_lower_case}
use xrp_payguard.Failure.{ok, Error, >>=-eq-ok, throw_if_then, throw_if-eq-ok, ok-injective}
use xrp_payguard.Viem.{Viem}
use xrp_payguard.Integrations.Redemption.{
  RedemptionJobState, created, requested, settled, RedemptionIntent, LegRequest, RedemptionLeg,
  RedemptionJob,
}
use xrp_payguard.Integrations.Redemption.Checks.{
  is_nonzero_hash, is_uint, checked_add, validate_requested_leg,
}
use xrp_payguard.Integrations.Redemption.Integrity.{
  Seen, nothing_seen, is_seen, visit, check_legs, check_settlement, check_totals, check_amounts,
  job_drift, assert_redemption_job_integrity,
}
use xrp_payguard.Integrations.Redemption.Laws.{assert_sound}

checked_add-eq : (a b c : ℤ) → checked_add a b ≡ ok c → (a +ℤ b) ≡ c
unfolding checked_add
checked_add-eq a b c h = elim (Bool-cases (not (is_uint (a +ℤ b) max_uint256))) [
  | inl large ↦ cc (rw large at h)
  | inr fits ↦ ok-injective (rw fits at h)
]

-- The total of the legs' values, added from the first.
abbrev pub value_from : ℤ → List RedemptionLeg → ℤ
value_from total [] = total
value_from total (leg ∷ legs) = value_from (total +ℤ leg.request.value) legs

abbrev pub id_of : RedemptionLeg → ℤ
id_of leg = leg.request.request_id

unseen : (ids : List ℤ) (id : ℤ) → any (λ x. x ==ℤ id) ids ≡ false → All (λ x. x ≢ id) ids
unseen [] id h = tt
unseen (x ∷ ids) id h =
    let (first, rest) = or-false (x ==ℤ id) (any (λ y. y ==ℤ id) ids) h in
    ((λ e. let same : (x ==ℤ id) ≡ true = (==ℤ_iff x id).1 e in cc), unseen ids id rest)

everywhere : (xs : List ℤ) → All (λ x. All (λ y. y ≢ x) []) xs
everywhere [] = tt
everywhere (x ∷ xs) = (tt, everywhere xs)

add_head :
    (xs : List ℤ) (id : ℤ) (ids : List ℤ)
    → All (λ x. x ≢ id) xs
    → All (λ x. All (λ y. y ≢ x) ids) xs
    → All (λ x. All (λ y. y ≢ x) (id ∷ ids)) xs
add_head [] id ids h k = tt
add_head (x ∷ xs) id ids (p, h) (q, k) = (((λ e. p (sym e)), q), add_head xs id ids h k)

module _ (V : Viem) (i : RedemptionIntent) where
  visit_sound :
      (e : Error) (seen next : Seen) (leg : LegRequest)
      → visit V i e seen leg ≡ ok next
      → (next.total ≡ seen.total +ℤ leg.value)
        × (next.request_ids ≡ leg.request_id ∷ seen.request_ids)
        × All (λ x. x ≢ leg.request_id) seen.request_ids
  unfolding visit is_seen
  visit_sound e seen next leg h =
      let (u, _, h1) = >>=-eq-ok (validate_requested_leg V i leg) _ h in
      let (vault, _, h2) = >>=-eq-ok (V.get_address leg.agent_vault) _ h1 in
      let (fresh, h3) =
        throw_if_then (is_seen seen leg.request_id (to_lower_case leg.payment_reference) vault) e _
          h2 in
      let (total, added, h4) = >>=-eq-ok (checked_add seen.total leg.value) _ h3 in
      let (new, _) = or-false (any (λ x. x ==ℤ leg.request_id) seen.request_ids) _ fresh in
      let e = ok-injective h4 in
      (
        sym (ap (λ x. x.total) e) ∙ sym (checked_add-eq seen.total leg.value total added),
        sym (ap (λ x. x.request_ids) e),
        unseen seen.request_ids leg.request_id new,
      )

  check_legs-total :
      (seen last : Seen) (legs : List RedemptionLeg)
      → check_legs V i seen legs ≡ ok last
      → last.total ≡ value_from seen.total legs
  unfolding check_legs
  check_legs-total seen last [] h = sym (ap (λ x. x.total) (ok-injective h))
  check_legs-total seen last (leg ∷ legs) h =
      let (next, visited, h1) = >>=-eq-ok (visit V i job_drift seen leg.request) _ h in
      let (u, _, h2) = >>=-eq-ok (check_settlement leg.state leg) _ h1 in
      let (total, _, _) = visit_sound job_drift seen next leg.request visited in
      check_legs-total next last legs h2 ∙ ap (λ t. value_from t legs) total

  -- No leg's identifier is one of those seen before, nor another leg's.
  check_legs-fresh :
      (seen last : Seen) (legs : List RedemptionLeg)
      → check_legs V i seen legs ≡ ok last
      → All (λ x. All (λ y. y ≢ x) (map id_of legs)) seen.request_ids × Distinct (map id_of legs)
  unfolding check_legs
  check_legs-fresh seen last [] h = (everywhere seen.request_ids, tt)
  check_legs-fresh seen last (leg ∷ legs) h =
      let (next, visited, h1) = >>=-eq-ok (visit V i job_drift seen leg.request) _ h in
      let (u, _, h2) = >>=-eq-ok (check_settlement leg.state leg) _ h1 in
      let (_, ids, fresh) = visit_sound job_drift seen next leg.request visited in
      let (later, distinct) = check_legs-fresh next last legs h2 in
      let later' = subst (λ xs. All (λ x. All (λ y. y ≢ x) (map id_of legs)) xs) ids later in
      (add_head seen.request_ids (id_of leg) (map id_of legs) fresh later'.1, (later'.0, distinct))

amounts_sound :
    (intent : RedemptionIntent) (total : ℤ) (a b : Option ℤ)
    → check_amounts intent total a b ≡ ok tt
    → (x : ℤ) × (y : ℤ) × (a ≡ some x)
      × (b ≡ some y)
      × (x ≡ total)
      × (x +ℤ y ≡ intent.requested_amount)
unfolding check_amounts
amounts_sound intent total none b h = cc
amounts_sound intent total (some x) none h = cc
amounts_sound intent total (some x) (some y) h =
    let (g, h1) = throw_if_then (not (x ==ℤ total)) job_drift _ h in
    let (sum, added, h2) = >>=-eq-ok (checked_add x y) _ h1 in
    let g' = throw_if-eq-ok (not (sum ==ℤ intent.requested_amount)) job_drift h2 in
    (
      x,
      y,
      refl,
      refl,
      (==ℤ_iff x total).0 (ground arith),
      checked_add-eq x y sum added ∙ (==ℤ_iff sum intent.requested_amount).0 (ground arith),
    )

totals_sound :
    (s : RedemptionJobState) (job : RedemptionJob) (total : ℤ)
    → s ≢ created
    → check_totals s job total ≡ ok tt
    → check_amounts job.intent total job.redeemed_amount job.remaining_amount ≡ ok tt
unfolding check_totals
totals_sound created job total n h = absurd (n refl)
totals_sound requested job total n h =
    (throw_if_then (not (is_nonzero_hash job.request_transaction_hash)) job_drift _ h).1
totals_sound settled job total n h =
    (throw_if_then (not (is_nonzero_hash job.request_transaction_hash)) job_drift _ h).1

-- A job past its creation that passes the integrity check has redeemed the sum of its legs' values, which
-- with the amount that remains makes the amount that was asked for; and no two of its legs answer to one
-- request.
pub assert_redemption_job_integrity-amounts :
    (V : Viem) (job : RedemptionJob)
    → assert_redemption_job_integrity V job ≡ ok tt
    → job.state ≢ created
    → (redeemed : ℤ) × (remaining : ℤ) × (job.redeemed_amount ≡ some redeemed)
      × (job.remaining_amount ≡ some remaining)
      × (redeemed ≡ value_from (pos 0) job.requests)
      × (redeemed +ℤ remaining ≡ job.intent.requested_amount)
      × Distinct (map id_of job.requests)
assert_redemption_job_integrity-amounts V job h n =
    let i = assert_sound V job h in
    let (x, y, a, b, total, sum) =
      amounts_sound job.intent i.seen.total job.redeemed_amount job.remaining_amount
        (totals_sound job.state job i.seen.total n i.totals) in
    let (_, distinct) = check_legs-fresh V job.intent nothing_seen i.seen job.requests i.legs in
    (
      x,
      y,
      a,
      b,
      total ∙ check_legs-total V job.intent nothing_seen i.seen job.requests i.legs,
      sum,
      distinct,
    )
