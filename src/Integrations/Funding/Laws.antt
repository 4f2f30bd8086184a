-- ===== src/Integrations/Funding/Laws.antt =====
-- The integrity of a funding job over its whole life.
use xrp_payguard.Base.{
  not-false, ◌≡◌, refl, ◌∙◌, ap, subst, Bool, true, false, ◌||◌, not, same_bool, is_some, List,
  Option, some, or-false, arith,
}
use xrp_payguard.Base.Int.{ℤ}
use xrp_payguard.Text.{Text, same_hex, is_hex32}
use xrp_payguard.Text.Laws.{same_hex_iff}
use xrp_payguard.Failure.{ok, >>=-eq-ok, throw_if_then, throw_if-eq-ok, ok-injective}
use xrp_payguard.Viem.{Viem, ViemLaws, AbiType, AbiValue}
use xrp_payguard.Protocol.Codec.Encoding.{hash_values}
use xrp_payguard.Integrations.Fdc.{same_address}
use xrp_payguard.Integrations.Funding.{
  FundingState, FundingJob, is_nonzero_hex32, requires_fdc_request, requires_proof, is_delayed,
  is_minted, has_other_fields, is_misshapen,
}
use xrp_payguard.Integrations.Funding.Integrity.{is_other_payment, assert_funding_job_integrity}
use xrp_payguard.Integrations.Funding.Hashes.{
  build_operation_hash, build_payment_expectation_hash, build_funding_checkpoint_hash,
  checkpoint_funding_job,
}

-- What the integrity check goes through.
pub record IsIntact (V : Viem) (job : FundingJob) : Type 0 where
  pub shape : is_misshapen job ≡ false
  pub operation : Text
  pub built_operation : build_operation_hash V job.input ≡ ok operation
  pub same_operation : same_hex operation job.operation_hash ≡ true
  pub expectation : Text
  pub built_expectation :
      build_payment_expectation_hash V job.input.expected_payment ≡ ok expectation
  pub same_expectation : same_hex expectation job.expected_payment_hash ≡ true
  pub checkpoint : Text
  pub built_checkpoint : build_funding_checkpoint_hash V job ≡ ok checkpoint
  pub same_checkpoint : same_hex checkpoint job.checkpoint_hash ≡ true
  pub payment : is_other_payment job.input ≡ false
  pub same_destination :
      same_address V job.input.expected_payment.destination job.input.destination ≡ ok true
  pub fields : has_other_fields job ≡ false

same_bool-eq : (a b : Bool) → not (same_bool a b) ≡ false → a ≡ b
same_bool-eq a b h = ground arith

eq-same_bool : {a b : Bool} → a ≡ b → not (same_bool a b) ≡ false
eq-same_bool {a} {b} e = ground arith

no_other :
    {a b c d : Bool}
    → a ≡ false
    → b ≡ false
    → c ≡ false
    → d ≡ false
    → (a || (b || (c || d))) ≡ false
no_other a b c d = ground arith

-- The next state, with the input and the two hashes kept.
abbrev pub Continues : FundingState → FundingJob → FundingJob → Type 0
Continues s job j =
    (j.state ≡ s)
    × (j.input ≡ job.input)
    × (j.operation_hash ≡ job.operation_hash)
    × (j.expected_payment_hash ≡ job.expected_payment_hash)

misshapen_with :
    (a b c d : Bool) {e : Bool}
    → (a || (b || (c || not d))) ≡ false
    → e ≡ true
    → (a || (b || (c || not e))) ≡ false
misshapen_with a b c d h k = ground arith

module _ (V : Viem) where
  pub assert_complete :
      (job : FundingJob) → IsIntact V job → assert_funding_job_integrity V job ≡ ok tt
  unfolding assert_funding_job_integrity
  assert_complete job i =
      rw
        (
          i.shape, i.built_operation, i.same_operation, i.built_expectation, i.same_expectation,
          i.built_checkpoint, i.same_checkpoint, i.payment, i.same_destination, i.fields,
        )
        refl

  pub assert_sound :
      (job : FundingJob) → assert_funding_job_integrity V job ≡ ok tt → IsIntact V job
  unfolding assert_funding_job_integrity
  assert_sound job h =
      let (shape, h1) = throw_if_then _ _ _ h in
      let (operation, a, h2) = >>=-eq-ok (build_operation_hash V job.input) _ h1 in
      let (b, h3) = throw_if_then _ _ _ h2 in
      let (expectation, c, h4) =
        >>=-eq-ok (build_payment_expectation_hash V job.input.expected_payment) _ h3 in
      let (d, h5) = throw_if_then _ _ _ h4 in
      let (checkpoint, e, h6) = >>=-eq-ok (build_funding_checkpoint_hash V job) _ h5 in
      let (f, h7) = throw_if_then _ _ _ h6 in
      let (f1, f2) =
        or-false (not (same_hex checkpoint job.checkpoint_hash)) (is_other_payment job.input) f in
      let (same, g, h8) =
        >>=-eq-ok (same_address V job.input.expected_payment.destination job.input.destination) _
          h7 in
      let (k, l) = or-false (not same) (has_other_fields job) (throw_if-eq-ok _ _ h8) in
      record {
        shape = shape;
        operation = operation;
        built_operation = a;
        same_operation = not-false _ b;
        expectation = expectation;
        built_expectation = c;
        same_expectation = not-false _ d;
        checkpoint = checkpoint;
        built_checkpoint = e;
        same_checkpoint = not-false _ f1;
        payment = f2;
        same_destination = g ∙ ap ok (not-false _ k);
        fields = l;
      }

  pub fields_sound :
      (job : FundingJob)
      → has_other_fields job ≡ false
      → (requires_fdc_request job.state ≡ is_nonzero_hex32 job.fdc_request_id)
        × (requires_proof job.state ≡ is_nonzero_hex32 job.proof_commitment)
        × (is_delayed job.state ≡ is_some job.execution_allowed_at)
        × (is_minted job.state ≡ is_nonzero_hex32 job.mint_transaction_hash)
  unfolding has_other_fields
  fields_sound job h =
      let (a, h1) = or-false (not (same_bool (requires_fdc_request job.state) _)) _ h in
      let (b, h2) = or-false (not (same_bool (requires_proof job.state) _)) _ h1 in
      let (c, d) = or-false (not (same_bool (is_delayed job.state) _)) _ h2 in
      (same_bool-eq _ _ a, same_bool-eq _ _ b, same_bool-eq _ _ c, same_bool-eq _ _ d)

  pub fields_complete :
      (job : FundingJob)
      → requires_fdc_request job.state ≡ is_nonzero_hex32 job.fdc_request_id
      → requires_proof job.state ≡ is_nonzero_hex32 job.proof_commitment
      → is_delayed job.state ≡ is_some job.execution_allowed_at
      → is_minted job.state ≡ is_nonzero_hex32 job.mint_transaction_hash
      → has_other_fields job ≡ false
  unfolding has_other_fields
  fields_complete job a b c d =
      no_other (eq-same_bool a) (eq-same_bool b) (eq-same_bool c) (eq-same_bool d)

  pub hash_values-is_hex32 :
      ViemLaws V
      → (ts : List AbiType) (vs : List AbiValue) (h : Text) → hash_values V ts vs ≡ ok h
      → is_hex32 h ≡ true
  unfolding hash_values
  hash_values-is_hex32 L ts vs h e =
      let (encoded, _, e1) = >>=-eq-ok (V.encode_abi_parameters ts vs) _ e in
      subst (λ t. is_hex32 t ≡ true) (ok-injective e1) (L.keccak256-is_hex32 encoded)

  pub checkpoint-is_hex32 :
      ViemLaws V
      → (job : FundingJob) (h : Text) → build_funding_checkpoint_hash V job ≡ ok h
      → is_hex32 h ≡ true
  unfolding build_funding_checkpoint_hash
  checkpoint-is_hex32 L job h e =
      let (_, e1) = throw_if_then _ _ (hash_values V _ _) e in hash_values-is_hex32 L _ _ h e1

  -- The checkpoint does not read the one that the job has.
  pub checkpoint-ignores :
      (job : FundingJob) (c : Text)
      → build_funding_checkpoint_hash V (record job { checkpoint_hash = c })
        ≡ build_funding_checkpoint_hash V job
  unfolding build_funding_checkpoint_hash
  checkpoint-ignores job c = refl

  shape_with :
      (job : FundingJob) (s : FundingState) (f p : Option Text) (a : Option ℤ) (m : Option Text)
      (c : Text)
      → is_misshapen job ≡ false
      → is_hex32 c ≡ true
      → is_misshapen (record job {
        state = s;
        fdc_request_id = f;
        proof_commitment = p;
        execution_allowed_at = a;
        mint_transaction_hash = m;
        checkpoint_hash = c;
      })
        ≡ false
  unfolding is_misshapen
  shape_with job s f p a m c h k =
      misshapen_with (not (is_nonzero_hex32 (some job.input.job_id)))
        (not (is_hex32 job.operation_hash)) (not (is_hex32 job.expected_payment_hash))
        (is_hex32 job.checkpoint_hash) h k

  -- A job that keeps its input and its hashes, and has the fields of its state, is intact once its
  -- checkpoint is computed.
  pub advance :
      ViemLaws V
      → (job : FundingJob) (s : FundingState) (f p : Option Text) (a : Option ℤ) (m : Option Text)
        (j : FundingJob)
      → IsIntact V job
      → checkpoint_funding_job V (record job {
        state = s;
        fdc_request_id = f;
        proof_commitment = p;
        execution_allowed_at = a;
        mint_transaction_hash = m;
      })
        ≡ ok j
      → requires_fdc_request s ≡ is_nonzero_hex32 f
      → requires_proof s ≡ is_nonzero_hex32 p
      → is_delayed s ≡ is_some a
      → is_minted s ≡ is_nonzero_hex32 m
      → IsIntact V j × Continues s job j
  unfolding checkpoint_funding_job
  advance L job s f p a m j i h e1 e2 e3 e4 =
      let next : FundingJob = record job {
        state = s;
        fdc_request_id = f;
        proof_commitment = p;
        execution_allowed_at = a;
        mint_transaction_hash = m;
      } in
      let (hash, built, h1) = >>=-eq-ok (build_funding_checkpoint_hash V next) _ h in
      subst (λ x. IsIntact V x × Continues s job x) (ok-injective h1)
        (
          record {
            shape = shape_with job s f p a m hash i.shape (checkpoint-is_hex32 L next hash built);
            operation = i.operation;
            built_operation = i.built_operation;
            same_operation = i.same_operation;
            expectation = i.expectation;
            built_expectation = i.built_expectation;
            same_expectation = i.same_expectation;
            checkpoint = hash;
            built_checkpoint = checkpoint-ignores next hash ∙ built;
            same_checkpoint = (same_hex_iff hash hash).1 refl;
            payment = i.payment;
            same_destination = i.same_destination;
            fields = fields_complete _ e1 e2 e3 e4;
          },
          (refl, refl, refl, refl),
        )
