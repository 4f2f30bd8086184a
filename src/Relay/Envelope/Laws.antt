-- ===== src/Relay/Envelope/Laws.antt =====
-- What an envelope that the relay keeps is: an answer to the request, in time, whose digest is that
-- of its result and whose signature recovers the signer of the machine that it names.
use xrp_payguard.Base.{
  some-injective, ◌≡◌, refl, sym, inl, inr, Bool, true, false, not, List, [], ◌∷◌, Option, none,
  some, Member, here, there, arith, Bool-cases, and-true, subst,
}
use xrp_payguard.Base.Int.{ℤ, ◌≤ℤ◌}
use xrp_payguard.Text.{Text, text_eq, same_hex}
use xrp_payguard.Text.Laws.{text_eq_iff, same_hex_iff}
use xrp_payguard.Text.Members.{SameHex}
use xrp_payguard.Failure.{Result, ok, err, recover, >>=-eq-ok, ok-injective}
use xrp_payguard.Viem.{Viem}
use xrp_payguard.Protocol.Types.{ActionRequest}
use xrp_payguard.Protocol.Codec.Digests.{
  action_request_hash, evaluation_digest, evaluation_attestation_digest,
}
use xrp_payguard.Relay.Types.{MachineDescriptor, EvaluationEnvelope}
use xrp_payguard.Relay.Envelope.{
  find_machine, is_malformed_envelope, is_untimely, is_signed_by, check_envelope, is_valid_envelope,
}

pub record IsAttested (V : Viem) (e : EvaluationEnvelope) (request : ActionRequest)
    (machines : List MachineDescriptor) (now : ℤ) : Type 0 where
  -- It answers the request: the same identifier, and the same hash of every field.
  pub answers : e.result.request.request_id ≡ request.request_id
  pub hash : Text
  pub answered : action_request_hash V e.result.request ≡ ok hash
  pub asked : action_request_hash V request ≡ ok hash
  -- Its digest is that of its result.
  pub digest : Text
  pub digested : evaluation_digest V e.result ≡ ok digest
  pub same_digest : SameHex digest e.digest
  -- It is in time.
  pub issued : e.result.issued_at ≤ℤ now
  pub unexpired : now ≤ℤ e.result.expiry
  pub own_expiry : e.result.expiry ≡ request.expiry
  -- A machine of the list signed it.
  pub machine : MachineDescriptor
  pub listed : Member machine machines
  pub named : SameHex machine.machine_id e.result.machine_id
  pub keyed : SameHex machine.key_fingerprint e.result.key_fingerprint
  pub attestation : Text
  pub attested : evaluation_attestation_digest V e.result ≡ ok attestation
  pub recovered : Text
  pub recovers : V.recover_message_address attestation e.signature ≡ ok recovered
  pub signer : Text
  pub signed : V.get_address recovered ≡ ok signer
  pub registered : V.get_address machine.signer ≡ ok signer

recover-true : (m : Result Bool) → recover m false ≡ true → m ≡ ok true
recover-true (ok b) h = cc
recover-true (err e) h = cc

not-true : (b : Bool) → not b ≡ true → b ≡ false
not-true b h = ground arith

find_machine_sound :
    (id : Text) (ms : List MachineDescriptor) (m : MachineDescriptor)
    → find_machine id ms ≡ some m
    → Member m ms × SameHex m.machine_id id
unfolding find_machine
find_machine_sound id [] m h = cc
find_machine_sound id (n ∷ ms) m h = elim (Bool-cases (same_hex n.machine_id id)) [
  | inl hit ↦
      let e : n ≡ m = some-injective (rw hit at h) in
      (
        subst (λ x. Member x (n ∷ ms)) e here,
        subst (λ x. SameHex x.machine_id id) e ((same_hex_iff n.machine_id id).0 hit),
      )
  | inr miss ↦ let (mem, s) = find_machine_sound id ms m (rw miss at h) in (there mem, s)
]

module _ (V : Viem) where
  is_signed_by_sound :
      (e : EvaluationEnvelope) (m : MachineDescriptor)
      → is_signed_by V e (some m) ≡ ok true
      → SameHex m.key_fingerprint e.result.key_fingerprint
        × (attestation : Text) × (evaluation_attestation_digest V e.result ≡ ok attestation)
        × (recovered : Text) × (V.recover_message_address attestation e.signature ≡ ok recovered)
        × (signer : Text) × (V.get_address recovered ≡ ok signer)
        × (V.get_address m.signer ≡ ok signer)
  unfolding is_signed_by
  is_signed_by_sound e m h =
      elim (Bool-cases (same_hex m.key_fingerprint e.result.key_fingerprint)) [
        | inr other ↦ cc (rw other at h)
        | inl same ↦
            let (claimed, a, h1) = >>=-eq-ok (V.get_address e.signer) _ (rw same at h) in
            let (expected, b, h2) = >>=-eq-ok (V.get_address m.signer) _ h1 in
            let (attested, c, h3) = >>=-eq-ok (evaluation_attestation_digest V e.result) _ h2 in
            let (recovered, d, h4) =
              >>=-eq-ok (V.recover_message_address attested e.signature) _ h3 in
            let (signer, f, h5) = >>=-eq-ok (V.get_address recovered) _ h4 in
            let (g, k) =
              and-true (text_eq claimed expected) (text_eq signer expected) (ok-injective h5) in
            (
              (same_hex_iff _ _).0 same,
              attested,
              c,
              recovered,
              d,
              signer,
              f,
              subst (λ t. V.get_address m.signer ≡ ok t) (sym ((text_eq_iff signer expected).0 k))
                  b,
            )
      ]

  timely_sound :
      (e : EvaluationEnvelope) (request : ActionRequest) (now : ℤ)
      → is_untimely V e request now ≡ false
      → (e.result.issued_at ≤ℤ now) × (now ≤ℤ e.result.expiry) × (e.result.expiry ≡ request.expiry)
  unfolding is_untimely
  timely_sound e request now h = ground arith

  find_signed :
      (e : EvaluationEnvelope) (o : Option MachineDescriptor)
      → is_signed_by V e o ≡ ok true
      → (m : MachineDescriptor) × (o ≡ some m)
  unfolding is_signed_by
  find_signed e none h = cc
  find_signed e (some m) h = (m, refl)

  pub is_valid_envelope_sound :
      (e : EvaluationEnvelope) (request : ActionRequest) (machines : List MachineDescriptor)
      (now : ℤ)
      → is_valid_envelope V e request machines now ≡ true
      → IsAttested V e request machines now
  unfolding is_valid_envelope check_envelope
  is_valid_envelope_sound e request machines now h =
      let h0 = recover-true (check_envelope V e request machines now) h in
      let (answered, a, h1) = >>=-eq-ok (action_request_hash V e.result.request) _ h0 in
      let (asked, b, h2) = >>=-eq-ok (action_request_hash V request) _ h1 in
      let (digest, c, h3) = >>=-eq-ok (evaluation_digest V e.result) _ h2 in
      let (signed, d, h4) =
        >>=-eq-ok (is_signed_by V e (find_machine e.result.machine_id machines)) _ h3 in
      let (formed, k1) = and-true (not (is_malformed_envelope V e)) _ (ok-injective h4) in
      let (same_id, k2) = and-true (text_eq e.result.request.request_id request.request_id) _ k1 in
      let (same_hash, k3) = and-true (text_eq answered asked) _ k2 in
      let (same_digest, k4) = and-true (same_hex digest e.digest) _ k3 in
      let (timely, k5) = and-true (not (is_untimely V e request now)) _ k4 in
      let (issued, unexpired, own_expiry) = timely_sound e request now (not-true _ timely) in
      let d' =
        subst (λ x. is_signed_by V e (find_machine e.result.machine_id machines) ≡ ok x) k5 d in
      let (m, found) = find_signed e (find_machine e.result.machine_id machines) d' in
      let (listed, named) = find_machine_sound e.result.machine_id machines m found in
      let (keyed, attestation, attested, recovered, recovers, signer, by, registered) =
        is_signed_by_sound e m (subst (λ o. is_signed_by V e o ≡ ok true) found d') in
      record {
        answers = (text_eq_iff e.result.request.request_id request.request_id).0 same_id;
        hash = answered;
        answered = a;
        asked =
            subst (λ t. action_request_hash V request ≡ ok t)
              (sym ((text_eq_iff answered asked).0 same_hash)) b;
        digest = digest;
        digested = c;
        same_digest = (same_hex_iff digest e.digest).0 same_digest;
        issued = issued;
        unexpired = unexpired;
        own_expiry = own_expiry;
        machine = m;
        listed = listed;
        named = named;
        keyed = keyed;
        attestation = attestation;
        attested = attested;
        recovered = recovered;
        recovers = recovers;
        signer = signer;
        signed = by;
        registered = registered;
      }
