-- ===== src/Integrations/FdcRound/Laws.antt =====
-- When a voting round is derived, and which.
use xrp_payguard.Base.{
  ◌≡◌, ◌≢◌, ◌↔◌, refl, sym, ◌∙◌, ap, subst, Bool, true, false, ◌||◌, Option, none, some, inl, inr,
  Bool-cases, if◌then◌else◌, arith,
}
use xrp_payguard.Base.Int.{ℤ, pos, ◌≤ℤ◌, ltb_ℤ, leb_ℤ, max_uint64}
use xrp_payguard.Text.{Text, text_eq, zero_address}
use xrp_payguard.Text.Laws.{text_eq_iff}
use xrp_payguard.Failure.{Result, ok, err, ok-injective}
use xrp_payguard.Viem.{Viem}
use xrp_payguard.Integrations.FdcRound.{
  FdcRoundFailure, RoundResult, given, fails, ◌>>=◌, invalid_input, drift, VotingRound, Answered,
  coston2_chain_id, normalize_timestamp, round_of, check_round, normalize_round, checked_address,
  normalize_address, read_round, derive_coston2_fdc_voting_round,
}

-- A positive number of 64 bits.
abbrev pub IsUint64 : ℤ → Type 0
IsUint64 n = (pos 1 ≤ℤ n) × (n ≤ℤ max_uint64)

given-injective : {A : Type 0} {a b : A} → RoundResult.given a ≡ given b → a ≡ b
given-injective h = cc

>>=-eq-given :
    {A B : Type 0} (m : RoundResult A) (f : A → RoundResult B) {b : B}
    → (m >>= f) ≡ given b
    → (a : A) × (m ≡ given a) × (f a ≡ given b)
>>=-eq-given (given a) f h = (a, refl, h)
>>=-eq-given (fails r) f h = cc

bind_given :
    {A B : Type 0} {m : RoundResult A} (f : A → RoundResult B) {a : A} {c : RoundResult B}
    → m ≡ given a
    → f a ≡ c
    → (m >>= f) ≡ c
bind_given f {a = a} e h = ap (λ x. x >>= f) e ∙ h

in_range : (n : ℤ) → ((leb_ℤ n (pos 0) || ltb_ℤ max_uint64 n) ≡ false) ↔ IsUint64 n
in_range n = ground arith

guarded :
    (b : Bool) (r : FdcRoundFailure) (n m : ℤ)
    → (if b then fails r else given n) ≡ given m
    → (b ≡ false) × (n ≡ m)
guarded true r n m h = cc
guarded false r n m h = (refl, given-injective h)

passed :
    (b : Bool) (r : FdcRoundFailure) (n : ℤ)
    → b ≡ false
    → (if b then fails r else given n) ≡ given n
passed b r n h = rw h refl

normalize_timestamp_iff : (n m : ℤ) → (normalize_timestamp n ≡ given m) ↔ ((n ≡ m) × IsUint64 n)
unfolding normalize_timestamp
normalize_timestamp_iff n m = (
  (λ h.
      let (g, e) = guarded (leb_ℤ n (pos 0) || ltb_ℤ max_uint64 n) invalid_input n m h in
      (e, (in_range n).0 g)),
  (λ (e, r).
      passed (leb_ℤ n (pos 0) || ltb_ℤ max_uint64 n) invalid_input n ((in_range n).1 r)
      ∙ ap given e),
)

check_round_iff : (o : Option ℤ) (m : ℤ) → (check_round o ≡ given m) ↔ ((o ≡ some m) × IsUint64 m)
unfolding check_round
check_round_iff none m = ((λ h. cc), (λ (e, _). cc))
check_round_iff (some n) m = (
  (λ h.
      let (g, e) = guarded (leb_ℤ n (pos 0) || ltb_ℤ max_uint64 n) drift n m h in
      (ap some e, subst IsUint64 e ((in_range n).0 g))),
  (λ (e, r).
      let same : n ≡ m = cc in
      passed (leb_ℤ n (pos 0) || ltb_ℤ max_uint64 n) drift n
        ((in_range n).1 (subst IsUint64 (sym same) r))
      ∙ ap given same),
)

read_round_iff :
    (V : Viem) (o : Result Answered) (v : Answered) → (read_round V o ≡ given v) ↔ (o ≡ ok v)
unfolding read_round
read_round_iff V (ok x) v = ((λ h. ap ok (given-injective h)), (λ h. ap given (ok-injective h)))
read_round_iff V (err x) v = ((λ h. cc), (λ h. cc))

checked_address_iff :
    (V : Viem) (o : Result Text) (a : Text)
    → (checked_address V o ≡ given a) ↔ ((o ≡ ok a) × (a ≢ zero_address))
unfolding checked_address
checked_address_iff V (err x) a = ((λ h. cc), (λ (e, _). cc))
checked_address_iff V (ok t) a = elim (Bool-cases (text_eq t zero_address)) [
  | inl zero ↦ (
    (λ h. cc (rw zero at h)),
    (λ (e, n). absurd (n (sym (ok-injective e) ∙ (text_eq_iff t zero_address).0 zero))),
  )
  | inr other ↦ (
    (λ h.
        let e : t ≡ a = given-injective (rw other at h) in
        (
          ap ok e,
          (λ z.
              let same : text_eq t zero_address ≡ true = (text_eq_iff t zero_address).1 (e ∙ z) in
              cc),
        )),
    (λ (e, n). rw other (ap given (ok-injective e))),
  )
]

normalize_address_iff :
    (V : Viem) (t a : Text)
    → (normalize_address V t ≡ given a)
      ↔ ((V.is_address t ≡ true) × (V.get_address t ≡ ok a) × (a ≢ zero_address))
unfolding normalize_address
normalize_address_iff V t a = elim (Bool-cases (V.is_address t)) [
  | inl is ↦ rw is (
    (λ h. let (e, n) = (checked_address_iff V (V.get_address t) a).0 h in (refl, e, n)),
    (λ (_, e, n). (checked_address_iff V (V.get_address t) a).1 (e, n)),
  )
  | inr other ↦ rw other ((λ h. cc), (λ (x, _, _). cc))
]

-- The round that the chain's Relay contract gives for the block's own time.
pub record IsVotingRound (V : Viem) (read : Text → ℤ → Result Answered) (address : Text)
    (timestamp : ℤ) (r : VotingRound) : Type 0 where
  pub chain : r.chain_id ≡ pos 114
  pub contract : (V.is_address address ≡ true) × (V.get_address address ≡ ok r.relay_address)
  pub nonzero : r.relay_address ≢ zero_address
  pub time : r.block_timestamp ≡ timestamp
  pub time_range : IsUint64 timestamp
  pub answer : Answered
  pub answered : read r.relay_address timestamp ≡ ok answer
  pub spelled : round_of answer ≡ some r.voting_round_id
  pub round_range : IsUint64 r.voting_round_id

derived :
    (V : Viem) (read : Text → ℤ → Result Answered) (address : Text) (timestamp : ℤ)
    (r : VotingRound)
    → derive_coston2_fdc_voting_round V read address timestamp ≡ given r
    → IsVotingRound V read address timestamp r
unfolding derive_coston2_fdc_voting_round normalize_round
derived V read address timestamp r h =
    let (relay, e1, h1) = >>=-eq-given (normalize_address V address) _ h in
    let (time, e2, h2) = >>=-eq-given (normalize_timestamp timestamp) _ h1 in
    let (value, e3, h3) = >>=-eq-given (read_round V (read relay time)) _ h2 in
    let (round, e4, h4) = >>=-eq-given (check_round (round_of value)) _ h3 in
    let (is, got, nonzero) = (normalize_address_iff V address relay).0 e1 in
    let (same, range) = (normalize_timestamp_iff timestamp time).0 e2 in
    let (spelled, range') = (check_round_iff (round_of value) round).0 e4 in
    let x : VotingRound = record {
      chain_id = coston2_chain_id;
      relay_address = relay;
      block_timestamp = time;
      voting_round_id = round;
    } in
    let e : x ≡ r = given-injective h4 in
    let i : IsVotingRound V read address timestamp x = record {
      chain = refl;
      contract = (is, got);
      nonzero = nonzero;
      time = sym same;
      time_range = range;
      answer = value;
      answered = ap (read relay) same ∙ (read_round_iff V (read relay time) value).0 e3;
      spelled = spelled;
      round_range = range';
    } in
    subst (IsVotingRound V read address timestamp) e i

derives :
    (V : Viem) (read : Text → ℤ → Result Answered) (address : Text) (timestamp : ℤ)
    (r : VotingRound)
    → IsVotingRound V read address timestamp r
    → derive_coston2_fdc_voting_round V read address timestamp ≡ given r
unfolding derive_coston2_fdc_voting_round normalize_round
derives V read address timestamp r i =
    let x : VotingRound = record {
      chain_id = coston2_chain_id;
      relay_address = r.relay_address;
      block_timestamp = timestamp;
      voting_round_id = r.voting_round_id;
    } in
    let same : x ≡ r = rw (sym i.chain, sym i.time) refl in
    bind_given _
      ((normalize_address_iff V address r.relay_address).1 (i.contract.0, i.contract.1, i.nonzero))
      (bind_given _ ((normalize_timestamp_iff timestamp timestamp).1 (refl, i.time_range)) (
        bind_given _ ((read_round_iff V (read r.relay_address timestamp) i.answer).1 i.answered) (
          bind_given _
            ((check_round_iff (round_of i.answer) r.voting_round_id).1 (i.spelled, i.round_range))
            (ap given same))))

-- A voting round is derived exactly when the Relay's address is one and not zero, the block's time is a
-- positive number of 64 bits, and the contract at the checksummed address answers for that time with a
-- value that spells such a number, which is the round.
pub derive_coston2_fdc_voting_round_iff :
    (V : Viem) (read : Text → ℤ → Result Answered) (address : Text) (timestamp : ℤ)
    (r : VotingRound)
    → (derive_coston2_fdc_voting_round V read address timestamp ≡ given r)
      ↔ IsVotingRound V read address timestamp r
derive_coston2_fdc_voting_round_iff V read address timestamp r =
    (derived V read address timestamp r, derives V read address timestamp r)
