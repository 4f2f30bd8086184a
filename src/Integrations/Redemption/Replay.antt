-- ===== src/Integrations/Redemption/Replay.antt =====
-- A proof that was used before settles no leg.
use xrp_payguard.Base.{
  true-ne-false, ◌≡◌, refl, sym, ◌∙◌, ap, Bool, true, false, any, List, [], ◌∷◌, Option, none, some,
  ◌⊎◌, inl, inr, or-false, Member, here, there,
}
use xrp_payguard.Text.{Text, same_hex, text_eq, to_lower_case}
use xrp_payguard.Text.Laws.{text_eq_iff, same_hex_iff}
use xrp_payguard.Failure.{Result, ok, err, Error, thrown, throw_if_then, ok-injective}
use xrp_payguard.Viem.{Viem}
use xrp_payguard.Integrations.Redemption.{RedemptionLeg, RedemptionJob}
use xrp_payguard.Integrations.Redemption.Events.{
  PerformedEvent, DefaultEvent, EventVerifier, answer_of, checked_commitment,
  verify_settlement_event,
}
use xrp_payguard.Integrations.Redemption.Step.{
  is_used_by, is_replayed, accept_redemption_performed, accept_redemption_default,
}
use xrp_payguard.Integrations.Redemption.Legs.{proof_of, proofs}
use xrp_payguard.Integrations.Redemption.Accept.{
  accept_redemption_performed-IsSettlement, accept_redemption_default-IsSettlement,
}

-- The given set has the commitment in lower case, which is how the code looks it up there, or a leg
-- of the job was settled by it, in whatever case.
abbrev pub IsUsed : Text → List Text → List RedemptionLeg → Type 0
IsUsed c used legs = Member (to_lower_case c) used ⊎ Member (to_lower_case c) (proofs legs)

none_listed : (t : Text) (ts : List Text) → any (λ u. text_eq u t) ts ≡ false → ¬ Member t ts
none_listed t [] h m = elim m [ ]
none_listed t (x ∷ ts) h here =
    let (first, _) = or-false (text_eq x t) (any (λ u. text_eq u t) ts) h in
    true-ne-false (sym ((text_eq_iff x t).1 refl) ∙ first)
none_listed t (x ∷ ts) h (there m) =
    let (_, rest) = or-false (text_eq x t) (any (λ u. text_eq u t) ts) h in none_listed t ts rest m

split_head :
    (b : Bool) (t d : Text) (ts : List Text)
    → (d ≡ t → b ≡ true)
    → b ≡ false
    → ¬ Member t ts
    → ¬ Member t (d ∷ ts)
split_head b t d ts f h n here = true-ne-false (sym (f refl) ∙ h)
split_head b t d ts f h n (there m) = n m

none_head :
    (c : Text) (o : Option Text) (ts : List Text)
    → (elim o [ none ↦ false | some d ↦ same_hex d c ]) ≡ false
    → ¬ Member (to_lower_case c) ts
    → ¬ Member (to_lower_case c) (proof_of o ts)
none_head c none ts h n m = n m
none_head c (some d) ts h n m =
    split_head (same_hex d c) (to_lower_case c) (to_lower_case d) ts ((same_hex_iff d c).1) h n m

none_used :
    (c : Text) (legs : List RedemptionLeg)
    → any (is_used_by c) legs ≡ false
    → ¬ Member (to_lower_case c) (proofs legs)
unfolding is_used_by
none_used c [] h m = elim m [ ]
none_used c (l ∷ ls) h m =
    let (first, rest) = or-false (is_used_by c l) (any (is_used_by c) ls) h in
    none_head c l.settlement_proof (proofs ls) first (none_used c ls rest) m

fresh-unused :
    (c : Text) (used : List Text) (legs : List RedemptionLeg)
    → is_replayed used legs c ≡ false
    → ¬ IsUsed c used legs
unfolding is_replayed
fresh-unused c used legs h u =
    let (first, rest) =
      or-false (any (λ x. text_eq x (to_lower_case c)) used) (any (is_used_by c) legs) h in
    elim u [ inl m ↦ none_listed (to_lower_case c) used first m | inr m ↦ none_used c legs rest m ]

commitment-same : (used : List Text) (c d : Text) → checked_commitment used (some c) ≡ ok d → c ≡ d
unfolding checked_commitment
commitment-same used c d h =
    let (_, h1) = throw_if_then _ (thrown "redemption event proof invalid") _ h in
    let (_, h2) =
      throw_if_then (any (λ u. text_eq u (to_lower_case c)) used) (thrown "redemption event replay")
        (ok c) h1 in
    ok-injective h2

verified-same :
    {E : Type 0} (event : E) (verify : EventVerifier E) (used : List Text) (c d : Text)
    → verify event ≡ ok (some c)
    → verify_settlement_event event (some verify) used ≡ ok d
    → c ≡ d
unfolding verify_settlement_event answer_of
verified-same event verify used c d e h = commitment-same used c d (rw e at h)

refused : {A : Type 0} (r : Result A) → ((a : A) → ¬ (r ≡ ok a)) → (x : Error) × (r ≡ err x)
refused (ok a) h = absurd (h a refl)
refused (err x) h = (x, refl)

-- When the verifiers answer with a commitment whose lower case is in the given set, or that a leg of
-- the job was settled by in whatever case, neither a payment nor a default is accepted: both calls
-- fail. It says nothing of a set that has the commitment only in another case.
pub accept_redemption-replay :
    (V : Viem) (job : RedemptionJob) (used : List Text) (c : Text) (paid : PerformedEvent)
    (verify_paid : EventVerifier PerformedEvent) (unpaid : DefaultEvent)
    (verify_unpaid : EventVerifier DefaultEvent)
    → verify_paid paid ≡ ok (some c)
    → verify_unpaid unpaid ≡ ok (some c)
    → IsUsed c used job.requests
    → ((x : Error) × (accept_redemption_performed V job paid (some verify_paid) used ≡ err x))
      × ((x : Error) × (accept_redemption_default V job unpaid (some verify_unpaid) used ≡ err x))
accept_redemption-replay V job used c paid verify_paid unpaid verify_unpaid e f u = (
  refused (accept_redemption_performed V job paid (some verify_paid) used) (λ j h.
      let (d, _, proved, fresh) =
        accept_redemption_performed-IsSettlement V job paid (some verify_paid) used j h in
      let same = verified-same paid verify_paid used c d e proved in
      fresh-unused c used job.requests (ap (is_replayed used job.requests) same ∙ fresh) u),
  refused (accept_redemption_default V job unpaid (some verify_unpaid) used) (λ j h.
      let (d, _, proved, fresh) =
        accept_redemption_default-IsSettlement V job unpaid (some verify_unpaid) used j h in
      let same = verified-same unpaid verify_unpaid used c d f proved in
      fresh-unused c used job.requests (ap (is_replayed used job.requests) same ∙ fresh) u),
)
