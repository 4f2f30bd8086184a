-- ===== src/Integrations/Redemption/Laws.antt =====
-- What the integrity check of a redemption goes through, and a job whose checkpoint is computed anew.
use xrp_payguard.Base.{not-false, ◌≡◌, refl, sym, ◌∙◌, subst, true, false, ◌||◌, not, or-false}
use xrp_payguard.Base.Int.{ℤ}
use xrp_payguard.Text.{Text, same_hex}
use xrp_payguard.Text.Laws.{same_hex_iff}
use xrp_payguard.Failure.{ok, >>=-eq-ok, throw_if_then, ok-injective, bind_ok, pass}
use xrp_payguard.Viem.{Viem}
use xrp_payguard.Integrations.Redemption.{
  RedemptionJobState, created, requested, settled, RedemptionJob,
}
use xrp_payguard.Integrations.Redemption.Checks.{validate_intent}
use xrp_payguard.Integrations.Redemption.Hashes.{
  build_redemption_intent_hash, build_redemption_checkpoint_hash, checkpoint_redemption_job,
}
use xrp_payguard.Integrations.Redemption.Integrity.{
  Seen, nothing_seen, check_legs, check_totals, is_misstated, job_drift,
  assert_redemption_job_integrity,
}

pub record IsIntact (V : Viem) (job : RedemptionJob) : Type 0 where
  pub valid : validate_intent V job.intent ≡ ok tt
  pub seen : Seen
  pub legs : check_legs V job.intent nothing_seen job.requests ≡ ok seen
  pub hash : Text
  pub built_hash : build_redemption_intent_hash V job.intent ≡ ok hash
  pub same_hash : same_hex hash job.intent_hash ≡ true
  pub checkpoint : Text
  pub built_checkpoint : build_redemption_checkpoint_hash V job ≡ ok checkpoint
  pub same_checkpoint : same_hex checkpoint job.checkpoint_hash ≡ true
  pub stated : is_misstated job ≡ false
  pub totals : check_totals job.state job seen.total ≡ ok tt

module _ (V : Viem) where
  pub assert_complete :
      (job : RedemptionJob) → IsIntact V job → assert_redemption_job_integrity V job ≡ ok tt
  unfolding assert_redemption_job_integrity
  assert_complete job i = bind_ok _ i.valid (
      bind_ok _ i.legs (
        bind_ok _ i.built_hash (
          pass job_drift (rw i.same_hash refl) (
            bind_ok _ i.built_checkpoint
              (pass job_drift (rw (i.same_checkpoint, i.stated) refl) i.totals)))))

  pub assert_sound :
      (job : RedemptionJob) → assert_redemption_job_integrity V job ≡ ok tt → IsIntact V job
  unfolding assert_redemption_job_integrity
  assert_sound job h =
      let (u, valid, h1) = >>=-eq-ok (validate_intent V job.intent) _ h in
      let (seen, legs, h2) = >>=-eq-ok (check_legs V job.intent nothing_seen job.requests) _ h1 in
      let (hash, built, h3) = >>=-eq-ok (build_redemption_intent_hash V job.intent) _ h2 in
      let (same, h4) = throw_if_then (not (same_hex hash job.intent_hash)) job_drift _ h3 in
      let (checkpoint, built', h5) = >>=-eq-ok (build_redemption_checkpoint_hash V job) _ h4 in
      let (g, h6) =
        throw_if_then (not (same_hex checkpoint job.checkpoint_hash) || is_misstated job) job_drift
          (check_totals job.state job seen.total) h5 in
      let (same', stated) =
        or-false (not (same_hex checkpoint job.checkpoint_hash)) (is_misstated job) g in
      record {
        valid = valid;
        seen = seen;
        legs = legs;
        hash = hash;
        built_hash = built;
        same_hash = not-false _ same;
        checkpoint = checkpoint;
        built_checkpoint = built';
        same_checkpoint = not-false _ same';
        stated = stated;
        totals = h6;
      }

  -- The checkpoint does not read the one that the job has.
  pub checkpoint-ignores :
      (job : RedemptionJob) (c : Text)
      → build_redemption_checkpoint_hash V (record job { checkpoint_hash = c })
        ≡ build_redemption_checkpoint_hash V job
  unfolding build_redemption_checkpoint_hash
  checkpoint-ignores job c = refl

  pub misstated-ignores :
      (job : RedemptionJob) (c : Text)
      → is_misstated (record job { checkpoint_hash = c }) ≡ is_misstated job
  unfolding is_misstated
  misstated-ignores job c = refl

  totals_again :
      (s : RedemptionJobState) (job : RedemptionJob) (c : Text) (total : ℤ)
      → check_totals s (record job { checkpoint_hash = c }) total ≡ check_totals s job total
  unfolding check_totals
  totals_again created job c total = refl
  totals_again requested job c total = refl
  totals_again settled job c total = refl

  -- A job that meets all but the checkpoint is intact once that is computed.
  pub checkpoint-IsIntact :
      (next j : RedemptionJob) (seen : Seen) (hash : Text)
      → validate_intent V next.intent ≡ ok tt
      → check_legs V next.intent nothing_seen next.requests ≡ ok seen
      → build_redemption_intent_hash V next.intent ≡ ok hash
      → same_hex hash next.intent_hash ≡ true
      → is_misstated next ≡ false
      → check_totals next.state next seen.total ≡ ok tt
      → checkpoint_redemption_job V next ≡ ok j
      → IsIntact V j × ((c : Text) × (j ≡ record next { checkpoint_hash = c }))
  unfolding checkpoint_redemption_job
  checkpoint-IsIntact next j seen hash valid legs built same stated totals h =
      let (c, made, h1) = >>=-eq-ok (build_redemption_checkpoint_hash V next) _ h in
      let x : RedemptionJob = record next { checkpoint_hash = c } in
      let e : x ≡ j = ok-injective h1 in
      let i : IsIntact V x = record {
        valid = valid;
        seen = seen;
        legs = legs;
        hash = hash;
        built_hash = built;
        same_hash = same;
        checkpoint = c;
        built_checkpoint = checkpoint-ignores next c ∙ made;
        same_checkpoint = (same_hex_iff c c).1 refl;
        stated = misstated-ignores next c ∙ stated;
        totals = totals_again next.state next c seen.total ∙ totals;
      } in
      (subst (IsIntact V) e i, (c, sym e))
