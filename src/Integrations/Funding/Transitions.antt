-- ===== src/Integrations/Funding/Transitions.antt =====
-- What each operation on a funding job starts from and ends in.
use xrp_payguard.Base.{
  not-false, ◌≡◌, refl, sym, ◌∙◌, ap, subst, ◌⊎◌, inl, inr, true, false, not, [], Option, none,
  some, or-false,
}
use xrp_payguard.Base.Int.{ℤ}
use xrp_payguard.Text.{Text}
use xrp_payguard.Failure.{ok, err, thrown, >>=-eq-ok, throw_if_then, ok-injective}
use xrp_payguard.Viem.{Viem, ViemLaws}
use xrp_payguard.Integrations.Fdc.{
  XrplPaymentProof, matches_expected_xrpl_payment, verify_xrpl_payment_proof, FdcProofVerifier,
  FdcVerification, verified, refused,
}
use xrp_payguard.Integrations.Funding.{
  FundingState, created, payment_observed, fdc_requested, proof_ready, direct_minted, delayed,
  FundingJob, is_nonzero_hex32, requires_fdc_request, requires_proof, is_delayed, is_minted,
}
use xrp_payguard.Integrations.Funding.Integrity.{assert_funding_job_integrity}
use xrp_payguard.Integrations.Funding.Step.{
  is_not_in, XrplObservation, MintOutcome, minted, postponed, unknown, DirectMintClient,
  DirectMintReceipt, mismatch, check_address, observe_xrpl_payment, mark_fdc_requested,
  accepted_commitment, accept_fdc_proof, check_receipt, settle_mint, execute_with,
  execute_direct_mint, resume_delayed,
}
use xrp_payguard.Integrations.Funding.Laws.{
  IsIntact, Continues, assert_sound, fields_sound, advance,
}

in_state : (s t : FundingState) → is_not_in s t ≡ false → s ≡ t
unfolding is_not_in
in_state created created h = refl
in_state payment_observed payment_observed h = refl
in_state fdc_requested fdc_requested h = refl
in_state proof_ready proof_ready h = refl
in_state direct_minted direct_minted h = refl
in_state delayed delayed h = refl
in_state FundingState.failed FundingState.failed h = refl
in_state _ _ h = cc

accepted-nonzero :
    (v : FdcVerification) (c : Text)
    → accepted_commitment v ≡ ok c
    → is_nonzero_hex32 (some c) ≡ true
unfolding accepted_commitment
accepted-nonzero (verified t) c h =
    let (g, h1) = throw_if_then _ _ _ h in
    subst (λ x. is_nonzero_hex32 (some x) ≡ true) (ok-injective h1) (not-false _ g)
accepted-nonzero (refused r) c h = cc

module _ (V : Viem) (L : ViemLaws V) where
  pub mark_fdc_requested-IsIntact :
      (job : FundingJob) (id : Text) (j : FundingJob)
      → mark_fdc_requested V job id ≡ ok j
      → (job.state ≡ payment_observed) × IsIntact V j × Continues fdc_requested job j
  unfolding mark_fdc_requested
  mark_fdc_requested-IsIntact job id j h =
      let (u, intact, h1) = >>=-eq-ok (assert_funding_job_integrity V job) _ h in
      let (g, h2) = throw_if_then _ _ _ h1 in
      let (g1, g2) = or-false (is_not_in job.state payment_observed) _ g in
      let st = in_state _ _ g1 in
      let i = assert_sound V job intact in
      let (_, p, a, m) = fields_sound V job i.fields in
      let (next, c) =
        advance V L job fdc_requested (some id) job.proof_commitment job.execution_allowed_at
          job.mint_transaction_hash j i h2 (sym (not-false _ g2)) (sym (ap requires_proof st) ∙ p)
          (sym (ap is_delayed st) ∙ a) (sym (ap is_minted st) ∙ m) in
      (st, next, c)

  pub observe_xrpl_payment-IsIntact :
      (job : FundingJob) (o : XrplObservation) (j : FundingJob)
      → observe_xrpl_payment V job o ≡ ok j
      → (job.state ≡ created) × IsIntact V j × Continues payment_observed job j
  unfolding observe_xrpl_payment
  observe_xrpl_payment-IsIntact job o j h =
      let (u, intact, h1) = >>=-eq-ok (assert_funding_job_integrity V job) _ h in
      let (g, h2) = throw_if_then _ _ _ h1 in
      let (_, h3) = throw_if_then _ _ _ h2 in
      let (_, _, h4) =
        >>=-eq-ok
          (check_address V o.payment.proof_owner job.input.expected_payment.proof_owner mismatch) _
          h3 in
      let (_, _, h5) =
        >>=-eq-ok
          (check_address V o.payment.destination job.input.expected_payment.destination mismatch) _
          h4 in
      let (_, h6) = throw_if_then _ _ _ h5 in
      let st = in_state _ _ g in
      let i = assert_sound V job intact in
      let (f, p, a, m) = fields_sound V job i.fields in
      let (next, c) =
        advance V L job payment_observed job.fdc_request_id job.proof_commitment
          job.execution_allowed_at job.mint_transaction_hash j i h6
          (sym (ap requires_fdc_request st) ∙ f) (sym (ap requires_proof st) ∙ p)
          (sym (ap is_delayed st) ∙ a) (sym (ap is_minted st) ∙ m) in
      (st, next, c)

  pub accept_fdc_proof-IsIntact :
      (job : FundingJob) (proof : XrplPaymentProof) (verifier : Option FdcProofVerifier)
      (j : FundingJob)
      → accept_fdc_proof V job proof verifier ≡ ok j
      → (job.state ≡ fdc_requested) × IsIntact V j × Continues proof_ready job j
  unfolding accept_fdc_proof
  accept_fdc_proof-IsIntact job proof verifier j h =
      let (u, intact, h1) = >>=-eq-ok (assert_funding_job_integrity V job) _ h in
      let (g, h2) = throw_if_then _ _ _ h1 in
      let (verification, _, h3) =
        >>=-eq-ok (verify_xrpl_payment_proof V proof job.input.expected_payment verifier []) _ h2 in
      let (commitment, accepted, h4) = >>=-eq-ok (accepted_commitment verification) _ h3 in
      let st = in_state _ _ g in
      let i = assert_sound V job intact in
      let (f, p, a, m) = fields_sound V job i.fields in
      let (next, c) =
        advance V L job proof_ready job.fdc_request_id (some commitment) job.execution_allowed_at
          job.mint_transaction_hash j i h4 (sym (ap requires_fdc_request st) ∙ f)
          (sym (accepted-nonzero verification commitment accepted)) (sym (ap is_delayed st) ∙ a)
          (sym (ap is_minted st) ∙ m) in
      (st, next, c)

  pub resume_delayed-IsIntact :
      (job : FundingJob) (now : ℤ) (j : FundingJob)
      → resume_delayed V job now ≡ ok j
      → (job.state ≡ delayed) × IsIntact V j × Continues proof_ready job j
  unfolding resume_delayed
  resume_delayed-IsIntact job now j h =
      let (u, intact, h1) = >>=-eq-ok (assert_funding_job_integrity V job) _ h in
      let (g, h2) = throw_if_then _ _ _ h1 in
      let (g1, g2) = or-false (is_not_in job.state delayed) _ g in
      let st = in_state _ _ g1 in
      let i = assert_sound V job intact in
      let (f, p, a, m) = fields_sound V job i.fields in
      let (next, c) =
        advance V L job proof_ready job.fdc_request_id job.proof_commitment none
          job.mint_transaction_hash j i h2 (sym (ap requires_fdc_request st) ∙ f)
          (sym (ap requires_proof st) ∙ p) refl (sym (ap is_minted st) ∙ m) in
      (st, next, c)

  check_receipt-nonzero :
      (job : FundingJob) (r : DirectMintReceipt) (u : Unit {0})
      → check_receipt V job r ≡ ok u
      → is_nonzero_hex32 (some r.transaction_hash) ≡ true
  unfolding check_receipt
  check_receipt-nonzero job r u h =
      let (g, h1) = throw_if_then _ _ _ h in
      let (g1, _) = or-false (not (is_nonzero_hex32 (some r.transaction_hash))) _ g in
      not-false _ g1

  -- The two states after a mint: minted, or postponed.
  settle_mint-IsIntact :
      (job : FundingJob) (outcome : MintOutcome) (j : FundingJob)
      → IsIntact V job
      → job.state ≡ proof_ready
      → settle_mint V job outcome ≡ ok j
      → IsIntact V j × (Continues direct_minted job j ⊎ Continues delayed job j)
  unfolding settle_mint
  settle_mint-IsIntact job (minted r) j i st h =
      let (u, receipt, h1) = >>=-eq-ok (check_receipt V job r) _ h in
      let (f, p, a, m) = fields_sound V job i.fields in
      let (next, c) =
        advance V L job direct_minted job.fdc_request_id job.proof_commitment
          job.execution_allowed_at (some r.transaction_hash) j i h1
          (sym (ap requires_fdc_request st) ∙ f) (sym (ap requires_proof st) ∙ p)
          (sym (ap is_delayed st) ∙ a) (sym (check_receipt-nonzero job r u receipt)) in
      (next, inl c)
  settle_mint-IsIntact job (postponed operation_hash allowed_at) j i st h =
      let (_, h1) = throw_if_then _ _ _ h in
      let (f, p, a, m) = fields_sound V job i.fields in
      let (next, c) =
        advance V L job delayed job.fdc_request_id job.proof_commitment (some allowed_at)
          job.mint_transaction_hash j i h1 (sym (ap requires_fdc_request st) ∙ f)
          (sym (ap requires_proof st) ∙ p) refl (sym (ap is_minted st) ∙ m) in
      (next, inr c)
  settle_mint-IsIntact job unknown j i st h = cc

  execute_with-settles :
      (job : FundingJob) (proof : XrplPaymentProof) (client : DirectMintClient) (j : FundingJob)
      → execute_with V job proof client ≡ ok j
      → (outcome : MintOutcome) × (settle_mint V job outcome ≡ ok j)
  unfolding execute_with
  execute_with-settles job proof client j h =
      let (_, h1) = throw_if_then _ _ _ h in
      let (_, _, h2) =
        >>=-eq-ok (matches_expected_xrpl_payment V proof job.input.expected_payment) _ h1 in
      let (_, h3) = throw_if_then _ _ _ h2 in
      let (outcome, _, h4) = >>=-eq-ok (client job proof) _ h3 in (outcome, h4)

  pub execute_direct_mint-IsIntact :
      (job : FundingJob) (proof : XrplPaymentProof) (client : Option DirectMintClient)
      (j : FundingJob)
      → execute_direct_mint V job proof client ≡ ok j
      → (job.state ≡ proof_ready)
        × IsIntact V j
        × (Continues direct_minted job j ⊎ Continues delayed job j)
  unfolding execute_direct_mint
  execute_direct_mint-IsIntact job proof none j h =
      let (u, intact, h1) = >>=-eq-ok (assert_funding_job_integrity V job) _ h in
      let (g, h2) = throw_if_then _ _ (err (thrown "direct mint unavailable")) h1 in cc
  execute_direct_mint-IsIntact job proof (some client) j h =
      let (u, intact, h1) = >>=-eq-ok (assert_funding_job_integrity V job) _ h in
      let (g, h2) = throw_if_then _ _ _ h1 in
      let st = in_state _ _ g in
      let (outcome, settled) = execute_with-settles job proof client j h2 in
      let (next, c) = settle_mint-IsIntact job outcome j (assert_sound V job intact) st settled in
      (st, next, c)
