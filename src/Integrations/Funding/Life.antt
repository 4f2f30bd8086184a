-- ===== src/Integrations/Funding/Life.antt =====
-- The life of a funding job: from its creation through every sequence of operations.
use xrp_payguard.Base.{
  not-false, ◌≡◌, refl, sym, ◌∙◌, ap, subst, inl, inr, true, false, not, [], ◌∷◌, Option, none,
  some, or-false,
}
use xrp_payguard.Base.Int.{ℤ}
use xrp_payguard.Text.{Text, is_hex32}
use xrp_payguard.Text.Laws.{same_hex_iff}
use xrp_payguard.Failure.{ok, >>=-eq-ok, throw_if_then, ok-injective}
use xrp_payguard.Viem.{Viem, ViemLaws}
use xrp_payguard.Protocol.Codec.Encoding.{hash_values}
use xrp_payguard.Integrations.Fdc.{
  ExpectedXrplPayment, XrplPaymentProof, same_address, FdcProofVerifier,
}
use xrp_payguard.Integrations.Funding.{
  FundingState, created, payment_observed, fdc_requested, proof_ready, direct_minted, delayed,
  FundingInput, FundingJob, is_nonzero_hex32, has_other_fields, is_misshapen, is_refused_address,
}
use xrp_payguard.Integrations.Funding.Integrity.{
  is_other_payment, create_funding_job, assert_funding_job_integrity,
}
use xrp_payguard.Integrations.Funding.Hashes.{
  build_operation_hash, build_payment_expectation_hash, build_funding_checkpoint_hash,
  checkpoint_funding_job, any_refused,
}
use xrp_payguard.Integrations.Funding.Step.{
  XrplObservation, DirectMintClient, observe_xrpl_payment, mark_fdc_requested, accept_fdc_proof,
  execute_direct_mint, resume_delayed,
}
use xrp_payguard.Integrations.Funding.Laws.{
  IsIntact, Continues, assert_complete, checkpoint-is_hex32, checkpoint-ignores,
  hash_values-is_hex32,
}
use xrp_payguard.Integrations.Funding.Transitions.{
  mark_fdc_requested-IsIntact, observe_xrpl_payment-IsIntact, accept_fdc_proof-IsIntact,
  resume_delayed-IsIntact, execute_direct_mint-IsIntact,
}

-- One operation that succeeds.
pub data FundingStep (V : Viem) (job j : FundingJob) : Type 0 where
  observes : (o : XrplObservation) → observe_xrpl_payment V job o ≡ ok j → FundingStep V job j
  requests : (id : Text) → mark_fdc_requested V job id ≡ ok j → FundingStep V job j
  accepts :
      (proof : XrplPaymentProof) (verifier : Option FdcProofVerifier)
      → accept_fdc_proof V job proof verifier ≡ ok j
      → FundingStep V job j
  executes :
      (proof : XrplPaymentProof) (client : Option DirectMintClient)
      → execute_direct_mint V job proof client ≡ ok j
      → FundingStep V job j
  resumes : (now : ℤ) → resume_delayed V job now ≡ ok j → FundingStep V job j

-- The order of the states.
pub data Follows : FundingState → FundingState → Type 0 where
  observed : Follows created payment_observed
  requested : Follows payment_observed fdc_requested
  accepted : Follows fdc_requested proof_ready
  executed : Follows proof_ready direct_minted
  postponed : Follows proof_ready delayed
  resumed : Follows delayed proof_ready

-- What a job that an operation returns is.
pub record IsNext (V : Viem) (job j : FundingJob) : Type 0 where
  pub intact : assert_funding_job_integrity V j ≡ ok tt
  pub order : Follows job.state j.state
  pub input : j.input ≡ job.input
  pub operation_hash : j.operation_hash ≡ job.operation_hash
  pub expected_payment_hash : j.expected_payment_hash ≡ job.expected_payment_hash

IsNext-of :
    (V : Viem) (job j : FundingJob) (s t : FundingState)
    → job.state ≡ s
    → IsIntact V j
    → Continues t job j
    → Follows s t
    → IsNext V job j
IsNext-of V job j s t e i (st, input, op, ex) f = record {
  intact = assert_complete V j i;
  order = subst (λ x. Follows x j.state) (sym e) (subst (Follows s) (sym st) f);
  input = input;
  operation_hash = op;
  expected_payment_hash = ex;
}

-- Every operation that succeeds moves the job to a next state in the order created, observed,
-- requested, proof ready, and then minted, or delayed and proof ready again; it keeps the job's input
-- and its two hashes; and the job that it returns passes the integrity check.
pub FundingStep-IsNext :
    (V : Viem) (L : ViemLaws V) (job j : FundingJob) → FundingStep V job j → IsNext V job j
FundingStep-IsNext V L job j (observes o h) =
    let (st, i, c) = observe_xrpl_payment-IsIntact V L job o j h in
    IsNext-of V job j created payment_observed st i c observed
FundingStep-IsNext V L job j (requests id h) =
    let (st, i, c) = mark_fdc_requested-IsIntact V L job id j h in
    IsNext-of V job j payment_observed fdc_requested st i c requested
FundingStep-IsNext V L job j (accepts proof verifier h) =
    let (st, i, c) = accept_fdc_proof-IsIntact V L job proof verifier j h in
    IsNext-of V job j fdc_requested proof_ready st i c accepted
FundingStep-IsNext V L job j (executes proof client h) =
    let (st, i, c) = execute_direct_mint-IsIntact V L job proof client j h in
    elim c [
      | inl c ↦ IsNext-of V job j proof_ready direct_minted st i c executed
      | inr c ↦ IsNext-of V job j proof_ready delayed st i c postponed
    ]
FundingStep-IsNext V L job j (resumes now h) =
    let (st, i, c) = resume_delayed-IsIntact V L job now j h in
    IsNext-of V job j delayed proof_ready st i c resumed

module _ (V : Viem) (L : ViemLaws V) where
  operation-is_hex32 :
      (i : FundingInput) (h : Text) → build_operation_hash V i ≡ ok h → is_hex32 h ≡ true
  unfolding build_operation_hash
  operation-is_hex32 i h e =
      let (_, _, e1) =
        >>=-eq-ok (any_refused V (i.owner ∷ i.personal_account ∷ i.destination ∷ i.asset ∷ [])) _
          e in
      let (_, e2) = throw_if_then _ _ (hash_values V _ _) e1 in hash_values-is_hex32 V L _ _ h e2

  expectation-is_hex32 :
      (p : ExpectedXrplPayment) (h : Text)
      → build_payment_expectation_hash V p ≡ ok h
      → is_hex32 h ≡ true
  unfolding build_payment_expectation_hash
  expectation-is_hex32 p h e =
      let (_, e1) = throw_if_then _ _ _ e in
      let (_, _, e2) = >>=-eq-ok (is_refused_address V p.proof_owner) _ e1 in
      let (_, e3) = throw_if_then _ _ (hash_values V _ _) e2 in hash_values-is_hex32 V L _ _ h e3

  new_job : FundingInput → Text → Text → FundingJob
  new_job i operation expectation = record {
    input = i;
    operation_hash = operation;
    expected_payment_hash = expectation;
    checkpoint_hash = [];
    state = created;
    fdc_request_id = none;
    proof_commitment = none;
    execution_allowed_at = none;
    mint_transaction_hash = none;
  }

  new_shape :
      (i : FundingInput) (operation expectation checkpoint : Text)
      → is_nonzero_hex32 (some i.job_id) ≡ true
      → is_hex32 operation ≡ true
      → is_hex32 expectation ≡ true
      → is_hex32 checkpoint ≡ true
      → is_misshapen (record (new_job i operation expectation) { checkpoint_hash = checkpoint })
        ≡ false
  unfolding is_misshapen new_job
  new_shape i operation expectation checkpoint a b c d = rw (a, b, c, d) refl

  new_fields :
      (i : FundingInput) (a b c : Text)
      → has_other_fields (record (new_job i a b) { checkpoint_hash = c }) ≡ false
  unfolding has_other_fields new_job is_nonzero_hex32
  new_fields i a b c = refl

  -- A job that is created passes the integrity check, in the first state, with the hashes of its
  -- input.
  pub create_funding_job-intact :
      (i : FundingInput) (j : FundingJob)
      → create_funding_job V i ≡ ok j
      → (assert_funding_job_integrity V j ≡ ok tt)
        × (j.state ≡ created)
        × (j.input ≡ i)
        × (build_operation_hash V i ≡ ok j.operation_hash)
        × (build_payment_expectation_hash V i.expected_payment ≡ ok j.expected_payment_hash)
  unfolding create_funding_job checkpoint_funding_job new_job
  create_funding_job-intact i j h =
      let (g, h1) = throw_if_then _ _ _ h in
      let (same, d, h2) =
        >>=-eq-ok (same_address V i.expected_payment.destination i.destination) _ h1 in
      let (g2, h3) = throw_if_then _ _ _ h2 in
      let (operation, o, h4) = >>=-eq-ok (build_operation_hash V i) _ h3 in
      let (expectation, e, h5) =
        >>=-eq-ok (build_payment_expectation_hash V i.expected_payment) _ h4 in
      let (checkpoint, c, h6) =
        >>=-eq-ok (build_funding_checkpoint_hash V (new_job i operation expectation)) _ h5 in
      let (nonzero, k1) = or-false (not (is_nonzero_hex32 (some i.job_id))) _ g in
      let (_, k2) = or-false (not (is_hex32 i.expected_payment.source_id)) _ k1 in
      let (_, k3) = or-false (not (is_hex32 i.expected_payment.tx_hash)) _ k2 in
      let (_, payment) =
        or-false (not (is_hex32 i.expected_payment.memo_hash)) (is_other_payment i) k3 in
      subst
        (λ x.
          (assert_funding_job_integrity V x ≡ ok tt)
          × (x.state ≡ created)
          × (x.input ≡ i)
          × (build_operation_hash V i ≡ ok x.operation_hash)
          × (build_payment_expectation_hash V i.expected_payment ≡ ok x.expected_payment_hash))
        (ok-injective h6)
        (
          assert_complete V
              (record (new_job i operation expectation) { checkpoint_hash = checkpoint })
              (record {
                shape =
                    new_shape i operation expectation checkpoint (not-false _ nonzero)
                      (operation-is_hex32 i operation o)
                      (expectation-is_hex32 i.expected_payment expectation e)
                      (checkpoint-is_hex32 V L (new_job i operation expectation) checkpoint c);
                operation = operation;
                built_operation = o;
                same_operation = (same_hex_iff operation operation).1 refl;
                expectation = expectation;
                built_expectation = e;
                same_expectation = (same_hex_iff expectation expectation).1 refl;
                checkpoint = checkpoint;
                built_checkpoint =
                    checkpoint-ignores V (new_job i operation expectation) checkpoint ∙ c;
                same_checkpoint = (same_hex_iff checkpoint checkpoint).1 refl;
                payment = payment;
                same_destination = d ∙ ap ok (not-false _ g2);
                fields = new_fields i operation expectation checkpoint;
              }),
          refl,
          refl,
          o,
          e,
        )

-- The jobs that a created job can become.
pub data IsReached (V : Viem) (i : FundingInput) : FundingJob → Type 0 where
  opened : (j : FundingJob) → create_funding_job V i ≡ ok j → IsReached V i j
  continued : (job j : FundingJob) → IsReached V i job → FundingStep V job j → IsReached V i j

-- Through any sequence of operations a funding job keeps the input that it was created with and the
-- two hashes computed from it, and passes the integrity check.
pub funding_job-integrity :
    (V : Viem) (L : ViemLaws V) (i : FundingInput) (j : FundingJob)
    → IsReached V i j
    → (assert_funding_job_integrity V j ≡ ok tt)
      × (j.input ≡ i)
      × (build_operation_hash V i ≡ ok j.operation_hash)
      × (build_payment_expectation_hash V i.expected_payment ≡ ok j.expected_payment_hash)
funding_job-integrity V L i j (opened _ h) =
    let (a, _, b, c, d) = create_funding_job-intact V L i j h in (a, b, c, d)
funding_job-integrity V L i j (continued job _ h s) =
    let (a, b, c, d) = funding_job-integrity V L i job h in
    let n = FundingStep-IsNext V L job j s in
    (
      n.intact,
      n.input ∙ b,
      c ∙ ap ok (sym n.operation_hash),
      d ∙ ap ok (sym n.expected_payment_hash),
    )
