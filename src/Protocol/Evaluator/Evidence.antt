-- ===== src/Protocol/Evaluator/Evidence.antt =====
-- What the evaluator demands of the price feed, of the payment proof and of the commitment to both,
-- stated without the evaluator's tests.
use xrp_payguard.Base.{
  ◌≡◌, ◌≢◌, refl, sym, ◌∙◌, ap, ◌⊎◌, inl, inr, Bool, true, false, ◌&&◌, ◌||◌, not, same_bool,
  is_some, Option, none, some, arith, Bool-cases, or-false, and-true, not-false, true-ne-false,
  if◌then◌else◌,
}
use mathlib.Core.Option
use xrp_payguard.Base.Int.{
  ℤ, pos, ◌-ℤ◌, ◌≤ℤ◌, ◌<ℤ◌, ==ℤ_iff, leb_ℤ_iff, ltb_ℤ_iff, ltb_ℤ-eq-false_iff, ltb_ℤ,
}
use xrp_payguard.Text.{Text, text_eq, same_hex, zero_bytes32}
use xrp_payguard.Text.Laws.{text_eq_iff, same_hex_iff}
use xrp_payguard.Text.Members.{SameHex}
use xrp_payguard.Failure.{Result, ok, err, recover, >>=-eq-ok, ok-injective}
use xrp_payguard.Viem.{Viem}
use xrp_payguard.Protocol.Types.{
  Policy, ActionRequest, SpendState, FtsoSnapshot, FdcTriggerSnapshot,
}
use xrp_payguard.Protocol.Codec.Digests.{action_request_hash}
use xrp_payguard.Protocol.Codec.Encoding.{fdc_trigger_snapshot_commitment, policy_input_commitment}
use xrp_payguard.Protocol.Evaluator.Step.{done, lift, >>=-eq-done, lift-eq-done}
use xrp_payguard.Protocol.Evaluator.Inputs.{
  reference_value, ftso_reference_value, fdc_matches, valid_fdc_snapshot, input_commitment_matches,
}
use xrp_payguard.Protocol.Evaluator.Rules.{is_unbound_input}

-- The state has a price of the policy's feed, taken before the clock and recent enough, whose
-- checkpoint is not zero and which makes the amount worth the value.
pub record HasFeed (policy : Policy) (request : ActionRequest) (state : SpendState) (value : ℤ)
    : Type 0 where
  pub feed : FtsoSnapshot
  pub given : state.ftso ≡ some feed
  pub same_feed : SameHex feed.feed_id policy.ftso_feed_id
  pub taken : feed.timestamp ≤ℤ state.now
  pub recent : state.now -ℤ feed.timestamp ≤ℤ policy.max_price_age_seconds
  pub checkpoint : feed.checkpoint ≢ zero_bytes32
  pub worth : reference_value request.amount feed.value feed.decimals ≡ some value

-- The state has a snapshot of a proved payment that is well formed, is the policy's in every field
-- that the policy names, is recent enough, is consumed, and is bound to this very request.
pub record HasProof (V : Viem) (policy : Policy) (request : ActionRequest) (state : SpendState)
    : Type 0 where
  pub snapshot : FdcTriggerSnapshot
  pub given : state.fdc ≡ some snapshot
  pub commitment : Text
  pub committed : fdc_trigger_snapshot_commitment V snapshot ≡ ok commitment
  pub request_hash : Text
  pub hashed : action_request_hash V request ≡ ok request_hash
  pub attestation_type : SameHex snapshot.attestation_type policy.fdc_attestation_type
  pub source_id : SameHex snapshot.source_id policy.fdc_source_id
  pub transaction_id : snapshot.transaction_id ≢ zero_bytes32
  pub input_commitment : snapshot.input_commitment ≢ zero_bytes32
  pub proof_commitment : snapshot.proof_commitment ≢ zero_bytes32
  pub consumer : SameHex snapshot.consumer policy.fdc_consumer
  pub proof_owner : SameHex snapshot.proof_owner policy.fdc_consumer
  pub source : SameHex snapshot.source_address_hash policy.fdc_source_address_hash
  pub receiver : SameHex snapshot.receiving_address_hash policy.fdc_receiving_address_hash
  pub received :
      (policy.fdc_min_received_amount ≤ℤ snapshot.received_amount)
      × (snapshot.received_amount ≤ℤ policy.fdc_max_received_amount)
  pub memo :
      (snapshot.has_memo_data ≡ true)
      × (policy.fdc_memo_mode ≡ pos 1)
      × SameHex snapshot.memo_data_hash (V.keccak256 request.request_id)
  pub tag :
      (snapshot.has_destination_tag ≡ policy.fdc_require_destination_tag)
      × (snapshot.destination_tag ≡ policy.fdc_destination_tag)
  pub block : pos 0 <ℤ snapshot.block_number
  pub taken : snapshot.block_timestamp ≤ℤ state.now
  pub recent : state.now -ℤ snapshot.block_timestamp ≤ℤ policy.max_fdc_age_seconds
  pub consumed : (snapshot.transaction_consumed ≡ true) × (snapshot.proof_consumed ≡ true)
  pub same_request : SameHex snapshot.request_id request.request_id
  pub router_request : SameHex snapshot.router_request_hash request_hash
  pub accepted : snapshot.router_request_status ≡ pos 1

-- The request commits to the feed's checkpoint and the proof's input, and to none that the policy does
-- not ask for: such a snapshot is not even given.
pub record IsBound (V : Viem) (policy : Policy) (request : ActionRequest) (state : SpendState)
    : Type 0 where
  pub feed_asked : (policy.require_ftso ≡ true) ⊎ (state.ftso ≡ none)
  pub proof_asked : (policy.require_fdc ≡ true) ⊎ (state.fdc ≡ none)
  pub expected : Text
  pub computed :
      policy_input_commitment V
        (Option.map (λ feed. feed.checkpoint) state.ftso)
        (Option.map (λ snapshot. snapshot.input_commitment) state.fdc)
      ≡ ok expected
  pub committed : SameHex request.input_commitment expected

text_eq-eq-false : (a b : Text) → text_eq a b ≡ false → a ≢ b
text_eq-eq-false a b h e =
    let same : text_eq a b ≡ true = (text_eq_iff a b).1 e in true-ne-false (sym same ∙ h)

pub ftso_reference_value_sound :
    (policy : Policy) (request : ActionRequest) (state : SpendState) (o : Option FtsoSnapshot)
    (value : ℤ)
    → state.ftso ≡ o
    → ftso_reference_value policy request o state.now ≡ some value
    → HasFeed policy request state value
unfolding ftso_reference_value
ftso_reference_value_sound policy request state none value e h = cc
ftso_reference_value_sound policy request state (some feed) value e h =
    elim (Bool-cases (
      not (same_hex feed.feed_id policy.ftso_feed_id)
      || (ltb_ℤ state.now feed.timestamp
          || (ltb_ℤ policy.max_price_age_seconds (state.now -ℤ feed.timestamp)
              || text_eq feed.checkpoint zero_bytes32)))) [
                | inl bad ↦ cc (rw bad at h)
                | inr good ↦
                    let (a, g1) =
                      or-false (not (same_hex feed.feed_id policy.ftso_feed_id)) _ good in
                    let (b, g2) = or-false (ltb_ℤ state.now feed.timestamp) _ g1 in
                    let (c, d) =
                      or-false (ltb_ℤ policy.max_price_age_seconds (state.now -ℤ feed.timestamp))
                        (text_eq feed.checkpoint zero_bytes32) g2 in
                    record {
                      feed = feed;
                      given = e;
                      same_feed = (same_hex_iff feed.feed_id policy.ftso_feed_id).0 (not-false _ a);
                      taken = (ltb_ℤ-eq-false_iff state.now feed.timestamp).0 b;
                      recent =
                          (ltb_ℤ-eq-false_iff policy.max_price_age_seconds
                              (state.now -ℤ feed.timestamp)).0
                            c;
                      checkpoint = text_eq-eq-false feed.checkpoint zero_bytes32 d;
                      worth = rw good at h;
                    }
              ]

recover-eq-true : (r : Result Bool) → recover r false ≡ true → r ≡ ok true
recover-eq-true (ok b) h = ap ok h
recover-eq-true (err e) h = cc

same_bool-eq : (a b : Bool) → same_bool a b ≡ true → a ≡ b
same_bool-eq a b h = ground arith

not-true : (b : Bool) → not b ≡ true → b ≡ false
not-true b h = ground arith

module _ (V : Viem) (policy : Policy) (request : ActionRequest) (state : SpendState) where
  matches_sound :
      (s : FdcTriggerSnapshot) (commitment request_hash : Text)
      → state.fdc ≡ some s
      → fdc_trigger_snapshot_commitment V s ≡ ok commitment
      → action_request_hash V request ≡ ok request_hash
      → fdc_matches V policy request s state.now request_hash ≡ true
      → HasProof V policy request state
  unfolding fdc_matches
  matches_sound s commitment request_hash given committed hashed h =
      let (a1, h1) = and-true _ _ h in
      let (a2, h2) = and-true _ _ h1 in
      let (a3, h3) = and-true _ _ h2 in
      let (a4, h4) = and-true _ _ h3 in
      let (a5, h5) = and-true _ _ h4 in
      let (a6, h6) = and-true _ _ h5 in
      let (a7, h7) = and-true _ _ h6 in
      let (a8, h8) = and-true _ _ h7 in
      let (a9, h9) = and-true _ _ h8 in
      let (b1, k1) = and-true _ _ h9 in
      let (b2, k2) = and-true _ _ k1 in
      let (b3, k3) = and-true _ _ k2 in
      let (b4, k4) = and-true _ _ k3 in
      let (b5, k5) = and-true _ _ k4 in
      let (b6, k6) = and-true _ _ k5 in
      let (b7, k7) = and-true _ _ k6 in
      let (b8, k8) = and-true _ _ k7 in
      let (b9, k9) = and-true _ _ k8 in
      let (c1, m1) = and-true _ _ k9 in
      let (c2, m2) = and-true _ _ m1 in
      let (c3, m3) = and-true _ _ m2 in
      let (c4, m4) = and-true _ _ m3 in
      let (c5, c6) = and-true _ _ m4 in
      record {
        snapshot = s;
        given = given;
        commitment = commitment;
        committed = committed;
        request_hash = request_hash;
        hashed = hashed;
        attestation_type = (same_hex_iff _ _).0 a1;
        source_id = (same_hex_iff _ _).0 a2;
        transaction_id = text_eq-eq-false _ _ (not-true _ a3);
        input_commitment = text_eq-eq-false _ _ (not-true _ a4);
        proof_commitment = text_eq-eq-false _ _ (not-true _ a5);
        consumer = (same_hex_iff _ _).0 a6;
        proof_owner = (same_hex_iff _ _).0 a7;
        source = (same_hex_iff _ _).0 a8;
        receiver = (same_hex_iff _ _).0 a9;
        received = (
          (leb_ℤ_iff policy.fdc_min_received_amount s.received_amount).0 b1,
          (leb_ℤ_iff s.received_amount policy.fdc_max_received_amount).0 b2,
        );
        memo = (b3, (==ℤ_iff _ _).0 b4, (same_hex_iff _ _).0 b5);
        tag = (same_bool-eq _ _ b6, (==ℤ_iff _ _).0 b7);
        block = (ltb_ℤ_iff (pos 0) s.block_number).0 b8;
        taken = (leb_ℤ_iff s.block_timestamp state.now).0 b9;
        recent = (leb_ℤ_iff (state.now -ℤ s.block_timestamp) policy.max_fdc_age_seconds).0 c1;
        consumed = (c2, c3);
        same_request = (same_hex_iff _ _).0 c4;
        router_request = (same_hex_iff _ _).0 c5;
        accepted = (==ℤ_iff _ _).0 c6;
      }

  pub valid_fdc_snapshot_sound :
      (o : Option FdcTriggerSnapshot)
      → state.fdc ≡ o
      → valid_fdc_snapshot V policy request o state.now ≡ true
      → HasProof V policy request state
  unfolding valid_fdc_snapshot
  valid_fdc_snapshot_sound none e h = cc
  valid_fdc_snapshot_sound (some s) e h =
      let run = recover-eq-true _ h in
      let (commitment, committed, h1) = >>=-eq-ok (fdc_trigger_snapshot_commitment V s) _ run in
      let (request_hash, hashed, h2) = >>=-eq-ok (action_request_hash V request) _ h1 in
      matches_sound s commitment request_hash e committed hashed (ok-injective h2)

  asked :
      {A : Type 0} (required : Bool) (o : Option A)
      → (not required && is_some o) ≡ false
      → (required ≡ true) ⊎ (o ≡ none)
  asked true o h = inl refl
  asked false none h = inr refl
  asked false (some a) h = cc

  only_asked :
      {A : Type 0} (f : A → Text) (required : Bool) (o : Option A)
      → (not required && is_some o) ≡ false
      → (if required then Option.map f o else none) ≡ Option.map f o
  only_asked f true o h = refl
  only_asked f false none h = refl
  only_asked f false (some a) h = cc

  input_commitment_matches_sound :
      input_commitment_matches V policy request state.ftso state.fdc ≡ ok true
      → IsBound V policy request state
  unfolding input_commitment_matches
  input_commitment_matches_sound h =
      elim (Bool-cases (
        not policy.require_ftso && is_some state.ftso
        || not policy.require_fdc && is_some state.fdc)) [
          | inl extra ↦ cc (rw extra at h)
          | inr plain ↦
              let (a, b) =
                or-false (not policy.require_ftso && is_some state.ftso)
                  (not policy.require_fdc && is_some state.fdc) plain in
              let (expected, e, h1) =
                >>=-eq-ok
                  (policy_input_commitment V
                    (if policy.require_ftso
                      then Option.map (λ feed. feed.checkpoint) state.ftso
                      else none)
                    (if policy.require_fdc
                      then Option.map (λ s. s.input_commitment) state.fdc
                      else none))
                  (λ x. ok (same_hex request.input_commitment x)) (rw plain at h) in
              record {
                feed_asked = asked policy.require_ftso state.ftso a;
                proof_asked = asked policy.require_fdc state.fdc b;
                expected = expected;
                computed =
                    rw
                      (
                        sym (only_asked (λ feed. feed.checkpoint) policy.require_ftso state.ftso a),
                        sym (only_asked (λ s. s.input_commitment) policy.require_fdc state.fdc b),
                      )
                      e;
                committed = (same_hex_iff request.input_commitment expected).0 (ok-injective h1);
              }
        ]

  pub is_unbound_input_sound :
      is_unbound_input V policy request state ≡ done false → IsBound V policy request state
  unfolding is_unbound_input
  is_unbound_input_sound h = elim (Bool-cases (not policy.require_fdc && is_some state.fdc)) [
    | inl extra ↦ cc (rw extra at h)
    | inr plain ↦
        let (matches, m, h1) =
          >>=-eq-done (lift (input_commitment_matches V policy request state.ftso state.fdc))
            (λ b. done (not b)) (rw plain at h) in
        let unmatched : not matches ≡ false = cc in
        input_commitment_matches_sound (lift-eq-done _ m ∙ ap ok (not-false matches unmatched))
  ]
