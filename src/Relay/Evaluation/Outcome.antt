-- ===== src/Relay/Evaluation/Outcome.antt =====
-- What the relay's outcome says of the machines' answers.
use xrp_payguard.Base.{
  ◌+◌, ◌<◌, ◌≤◌, ◌≡◌, ◌≢◌, refl, sym, ◌∙◌, ap, subst, inl, inr, Bool, true, ltb, length, List, [],
  ◌∷◌, map, take, Option, none, some, All, All-keep, keep-All, Distinct, keep, keep_hit, keep_miss,
  arith, Bool-cases, All-member,
}
use xrp_payguard.Text.{Text, to_lower_case}
use xrp_payguard.Text.Laws.{text_eq_iff}
use xrp_payguard.Failure.{ok, ok-injective}
use xrp_payguard.Viem.{Viem, ViemLaws}
use xrp_payguard.Protocol.Types.{ActionRequest}
use xrp_payguard.Protocol.Codec.Digests.{evaluation_digest, evaluation_attestation_digest}
use xrp_payguard.Relay.Types.{
  MachineDescriptor, EvaluationEnvelope, RelayStatus, threshold_ready, unavailable, split,
  RelayOutcome, Platform,
}
use xrp_payguard.Relay.Machines.{validate_machines}
use xrp_payguard.Relay.Machines.Laws.{
  id_of, signer_of, Distinct-unique, validate_machines_sound, AreRegistered,
  validate_machines-registered,
}
use xrp_payguard.Relay.Evaluation.{
  Settled, Collected, Group, collect, nothing_collected, group_from, find_threshold, conclude_with,
  evaluate_once,
}
use xrp_payguard.Relay.Evaluation.Laws.{envelope_id, has_digest, IsKept, collected-IsSound}
use xrp_payguard.Relay.Evaluation.Groups.{threshold-some, threshold-none}

-- The outcome's status, by the envelopes that were kept.
abbrev pub Agrees : RelayStatus → RelayOutcome → Type 0
Agrees threshold_ready o =
    (digest : Text) × (o.digest ≡ some digest)
    × (o.matching ≡ keep (has_digest digest) o.valid)
    × (2 ≤ length o.matching)
Agrees split o =
    (o.digest ≡ none)
    × (o.matching ≡ [])
    × (2 ≤ length o.valid)
    × ((digest : Text) → length (keep (has_digest digest) o.valid) < 2)
Agrees unavailable o = (o.digest ≡ none) × (o.matching ≡ []) × (length o.valid < 2)

conclude_with-Agrees :
    (request : ActionRequest) (c : Collected) (o : Option Group)
    → find_threshold (group_from [] c.valid) ≡ o
    → Agrees (conclude_with request c o).status (conclude_with request c o)
      × ((conclude_with request c o).valid ≡ c.valid)
      × ((conclude_with request c o).failures ≡ c.failures)
unfolding conclude_with
conclude_with-Agrees request c (some g) h =
    let (members, large) = threshold-some c.valid g h in
    ((g.digest, refl, members, large), refl, refl)
conclude_with-Agrees request c none h = elim (Bool-cases (ltb (length c.valid) 2)) [
  | inl few ↦ rw few ((refl, refl, ground arith), refl, refl)
  | inr many ↦ rw many ((refl, refl, ground arith, λ k. threshold-none c.valid k h), refl, refl)
]

-- The relay keeps one attested envelope for each machine at most, and every settled call is either
-- kept or counted as a failure. With that list, the status is `THRESHOLD_READY` exactly with a
-- digest that two or more of the kept envelopes carry, and the matching ones are then all that carry
-- it; it is `SPLIT` when two or more are kept and no two carry one digest, and `UNAVAILABLE` when
-- fewer than two are kept.
pub evaluate_once-outcome :
    (V : Viem) (request : ActionRequest) (machines : List MachineDescriptor)
    (settled : List Settled)
    → (let o = evaluate_once V request machines settled in
        All (IsKept V request machines) o.valid
        × Distinct (map envelope_id o.valid)
        × (length o.valid + o.failures ≡ length settled)
        × Agrees o.status o)
unfolding evaluate_once
evaluate_once-outcome V request machines settled =
    let c = collect V request machines nothing_collected settled in
    let ((kept, distinct, _), total) = collected-IsSound V request machines settled in
    let (agrees, valid, failures) =
      conclude_with-Agrees request c (find_threshold (group_from [] c.valid)) refl in
    (rw valid kept, rw valid distinct, rw (valid, failures) total, agrees)

All-map-keep :
    (t : Text) (p : EvaluationEnvelope → Bool) (es : List EvaluationEnvelope)
    → All (λ u. u ≢ t) (map envelope_id es)
    → All (λ u. u ≢ t) (map envelope_id (keep p es))
All-map-keep t p [] h = tt
All-map-keep t p (e ∷ es) (n, h) = elim (Bool-cases (p e)) [
  | inl hit ↦ rw (keep_hit p e es hit) (n, All-map-keep t p es h)
  | inr miss ↦ rw (keep_miss p e es miss) (All-map-keep t p es h)
]

Distinct-keep :
    (p : EvaluationEnvelope → Bool) (es : List EvaluationEnvelope)
    → Distinct (map envelope_id es)
    → Distinct (map envelope_id (keep p es))
Distinct-keep p [] d = tt
Distinct-keep p (e ∷ es) (n, d) = elim (Bool-cases (p e)) [
  | inl hit ↦ rw (keep_hit p e es hit) (All-map-keep (envelope_id e) p es n, Distinct-keep p es d)
  | inr miss ↦ rw (keep_miss p e es miss) (Distinct-keep p es d)
]

-- Two envelopes that two signers vouch for with one digest.
pub record AreCoSigned (V : Viem) (digest : Text) (a b : EvaluationEnvelope) : Type 0 where
  pub same_digest : (to_lower_case a.digest ≡ digest) × (to_lower_case b.digest ≡ digest)
  pub digests : (Text × Text)
  pub digested :
      (evaluation_digest V a.result ≡ ok digests.0) × (evaluation_digest V b.result ≡ ok digests.1)
  pub hashed : (to_lower_case digests.0 ≡ digest) × (to_lower_case digests.1 ≡ digest)
  pub attestations : (Text × Text)
  pub attested :
      (evaluation_attestation_digest V a.result ≡ ok attestations.0)
      × (evaluation_attestation_digest V b.result ≡ ok attestations.1)
  pub recovered : (Text × Text)
  pub recovers :
      (V.recover_message_address attestations.0 a.signature ≡ ok recovered.0)
      × (V.recover_message_address attestations.1 b.signature ≡ ok recovered.1)
  pub distinct : recovered.0 ≢ recovered.1

two_of :
    (es : List EvaluationEnvelope)
    → 2 ≤ length es
    → (a : EvaluationEnvelope) × (b : EvaluationEnvelope) × (rest : List EvaluationEnvelope) × (es
        ≡ a ∷ b ∷ rest)
two_of [] h = absurd (omega arith)
two_of (a ∷ []) h = absurd (omega arith)
two_of (a ∷ b ∷ rest) h = (a, b, rest, refl)

module _ (V : Viem) (request : ActionRequest) (machines : List MachineDescriptor) where
  co_signed :
      (digest : Text) (a b : EvaluationEnvelope)
      → Distinct (map id_of machines)
      → Distinct (map signer_of machines)
      → AreRegistered V machines
      → IsKept V request machines a
      → IsKept V request machines b
      → has_digest digest a ≡ true
      → has_digest digest b ≡ true
      → envelope_id b ≢ envelope_id a
      → AreCoSigned V digest a b
  co_signed digest a b ids signers registered (_, x) (_, y) da db n =
      let ea : to_lower_case a.digest ≡ digest = (text_eq_iff _ digest).0 da in
      let eb : to_lower_case b.digest ≡ digest = (text_eq_iff _ digest).0 db in
      record {
        same_digest = (ea, eb);
        digests = (x.digest, y.digest);
        digested = (x.digested, y.digested);
        hashed = (x.same_digest ∙ ea, y.same_digest ∙ eb);
        attestations = (x.attestation, y.attestation);
        attested = (x.attested, y.attested);
        recovered = (x.recovered, y.recovered);
        recovers = (x.recovers, y.recovers);
        distinct = λ e.
            let same_signer = ok-injective (sym x.signed ∙ ap V.get_address e ∙ y.signed) in
            let own_x = ok-injective (
              sym (All-member (λ m. V.get_address m.signer ≡ ok m.signer) registered x.listed)
              ∙ x.registered) in
            let own_y = ok-injective (
              sym (All-member (λ m. V.get_address m.signer ≡ ok m.signer) registered y.listed)
              ∙ y.registered) in
            let one =
              Distinct-unique signer_of machines x.machine y.machine signers x.listed y.listed
                (ap to_lower_case (own_x ∙ same_signer ∙ sym own_y)) in
            n (sym y.named ∙ ap id_of (sym one) ∙ x.named);
      }

  ready_co_signed :
      (o : RelayOutcome)
      → Distinct (map id_of machines)
      → Distinct (map signer_of machines)
      → AreRegistered V machines
      → All (IsKept V request machines) o.valid
      → Distinct (map envelope_id o.valid)
      → Agrees threshold_ready o
      → (digest : Text) × (a : EvaluationEnvelope) × (b : EvaluationEnvelope) × (o.digest
          ≡ some digest)
        × (take 2 o.matching ≡ a ∷ b ∷ [])
        × AreCoSigned V digest a b
  ready_co_signed o ids signers registered kept distinct (digest, e, filtered, large) =
      let kept' =
        subst (All (IsKept V request machines)) (sym filtered)
          (All-keep _ (has_digest digest) o.valid kept) in
      let distinct' =
        subst (λ es. Distinct (map envelope_id es)) (sym filtered)
          (Distinct-keep (has_digest digest) o.valid distinct) in
      let tested =
        subst (All (λ x. has_digest digest x ≡ true)) (sym filtered)
          (keep-All (has_digest digest) o.valid) in
      let (a, b, es, split_up) = two_of o.matching large in
      let (ka, (kb, _)) = subst (All (IsKept V request machines)) split_up kept' in
      let ((n, _), (_, _)) = subst (λ xs. Distinct (map envelope_id xs)) split_up distinct' in
      let (ta, (tb, _)) = subst (All (λ x. has_digest digest x ≡ true)) split_up tested in
      (
        digest,
        a,
        b,
        e,
        ap (take 2) split_up,
        co_signed digest a b ids signers registered ka kb ta tb n,
      )

-- For machines that passed validation, `THRESHOLD_READY` means that the two envelopes that the relay
-- will submit carry one digest, that both their results hash to it, and that their signatures
-- recover two different addresses. It rests on what viem documents of checksummed addresses.
pub evaluate_once-co_signed :
    (V : Viem) (P : Platform) (L : ViemLaws V) (request : ActionRequest)
    (given machines : List MachineDescriptor) (settled : List Settled)
    → validate_machines V P given ≡ ok machines
    → (evaluate_once V request machines settled).status ≡ threshold_ready
    → (digest : Text) × (a : EvaluationEnvelope) × (b : EvaluationEnvelope) × ((evaluate_once V
          request machines settled).digest
        ≡ some digest)
      × (take 2 (evaluate_once V request machines settled).matching ≡ a ∷ b ∷ [])
      × AreCoSigned V digest a b
evaluate_once-co_signed V P L request given machines settled valid ready =
    let (_, ids, _, signers) = validate_machines_sound V P given machines valid in
    let (kept, distinct, _, agrees) = evaluate_once-outcome V request machines settled in
    ready_co_signed V request machines (evaluate_once V request machines settled) ids signers
      (validate_machines-registered V P L given machines valid) kept distinct
      (subst (λ s. Agrees s (evaluate_once V request machines settled)) ready agrees)
