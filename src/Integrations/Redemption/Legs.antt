-- ===== src/Integrations/Redemption/Legs.antt =====
-- What replacing one open leg by its settlement does to a list of legs.
use xrp_payguard.Base.{
  some-injective, ℕ, suc, ◌≡◌, ◌≢◌, refl, sym, ◌∙◌, ap, subst, true, false, length, List, [], ◌∷◌,
  Option, none, some, ◌⊎◌, inl, inr, Bool-cases, All, Distinct,
}
use xrp_payguard.Base.Int.{ℤ, ◌==ℤ◌}
use xrp_payguard.Text.{Text, to_lower_case}
use xrp_payguard.Integrations.Redemption.{
  RedemptionLegState, pending, underlying_paid, collateral_default, RedemptionLeg,
}
use xrp_payguard.Integrations.Redemption.Integrity.{is_pending}
use xrp_payguard.Integrations.Redemption.Step.{find_leg, set_leg}

-- The open legs.
abbrev pub open_legs : List RedemptionLeg → ℕ
open_legs [] = 0
open_legs (leg ∷ legs) = elim leg.state [ pending ↦ suc (open_legs legs) | _ ↦ open_legs legs ]

-- The commitments of the legs' settlements, in lower case.
abbrev pub proof_of : Option Text → List Text → List Text
proof_of none rest = rest
proof_of (some c) rest = to_lower_case c ∷ rest

abbrev pub proofs : List RedemptionLeg → List Text
proofs [] = []
proofs (leg ∷ legs) = proof_of leg.settlement_proof (proofs legs)

find_leg-hit :
    (id : ℤ) (l : RedemptionLeg) (ls : List RedemptionLeg)
    → (l.request.request_id ==ℤ id) ≡ true
    → find_leg id (l ∷ ls) ≡ some l
unfolding find_leg
find_leg-hit id l ls h = rw h refl

find_leg-miss :
    (id : ℤ) (l : RedemptionLeg) (ls : List RedemptionLeg)
    → (l.request.request_id ==ℤ id) ≡ false
    → find_leg id (l ∷ ls) ≡ find_leg id ls
unfolding find_leg
find_leg-miss id l ls h = rw h refl

set_leg-hit :
    (id : ℤ) (new l : RedemptionLeg) (ls : List RedemptionLeg)
    → (l.request.request_id ==ℤ id) ≡ true
    → set_leg id new (l ∷ ls) ≡ new ∷ ls
unfolding set_leg
set_leg-hit id new l ls h = rw h refl

set_leg-miss :
    (id : ℤ) (new l : RedemptionLeg) (ls : List RedemptionLeg)
    → (l.request.request_id ==ℤ id) ≡ false
    → set_leg id new (l ∷ ls) ≡ l ∷ set_leg id new ls
unfolding set_leg
set_leg-miss id new l ls h = rw h refl

-- The leg that is found, step by step: the head, or in the tail.
abbrev pub Found : ℤ → RedemptionLeg → RedemptionLeg → RedemptionLeg → List RedemptionLeg → Type 0
Found id new leg l ls =
    ((set_leg id new (l ∷ ls) ≡ new ∷ ls) × (l ≡ leg))
    ⊎ ((set_leg id new (l ∷ ls) ≡ l ∷ set_leg id new ls) × (find_leg id ls ≡ some leg))

pub found :
    (id : ℤ) (new leg l : RedemptionLeg) (ls : List RedemptionLeg)
    → find_leg id (l ∷ ls) ≡ some leg
    → Found id new leg l ls
found id new leg l ls h = elim (Bool-cases (l.request.request_id ==ℤ id)) [
  | inl hit ↦ inl (set_leg-hit id new l ls hit, some-injective (sym (find_leg-hit id l ls hit) ∙ h))
  | inr miss ↦ inr (set_leg-miss id new l ls miss, sym (find_leg-miss id l ls miss) ∙ h)
]

pub not_found : (id : ℤ) (leg : RedemptionLeg) → ¬ (find_leg id [] ≡ some leg)
unfolding find_leg
not_found id leg h = cc

one_less :
    (s t : RedemptionLegState) (n : ℕ)
    → is_pending s ≡ true
    → is_pending t ≡ false
    → (elim s [ pending ↦ suc n | _ ↦ n ]) ≡ suc (elim t [ pending ↦ suc n | _ ↦ n ])
one_less pending pending n p q = cc
one_less pending underlying_paid n p q = refl
one_less pending collateral_default n p q = refl
one_less underlying_paid t n p q = cc
one_less collateral_default t n p q = cc

skip :
    (s : RedemptionLegState) (n m : ℕ)
    → n ≡ suc m
    → (elim s [ pending ↦ suc n | _ ↦ n ]) ≡ suc (elim s [ pending ↦ suc m | _ ↦ m ])
skip pending n m e = ap suc e
skip underlying_paid n m e = e
skip collateral_default n m e = e

All-tail : (P : Text → Type 0) (o : Option Text) (ts : List Text) → All P (proof_of o ts) → All P ts
All-tail P none ts h = h
All-tail P (some c) ts h = h.1

All-step :
    (P : Text → Type 0) (o : Option Text) (ts us : List Text)
    → All P (proof_of o ts)
    → (All P ts → All P us)
    → All P (proof_of o us)
All-step P none ts us h f = f h
All-step P (some c) ts us h f = (h.0, f h.1)

Distinct-step :
    (o : Option Text) (ts us : List Text) (c : Text)
    → Distinct (proof_of o ts)
    → All (λ t. t ≢ to_lower_case c) (proof_of o ts)
    → (Distinct ts → All (λ t. t ≢ to_lower_case c) ts → Distinct us)
    → ((x : Text) → All (λ t. t ≢ x) ts → to_lower_case c ≢ x → All (λ t. t ≢ x) us)
    → Distinct (proof_of o us)
Distinct-step none ts us c d f again all_again = again d f
Distinct-step (some x) ts us c (n, d) (p, f) again all_again =
    (all_again (to_lower_case x) n (λ e. p (sym e)), again d f)

module _ (id : ℤ) (new leg : RedemptionLeg) where
  -- An open leg that is settled leaves one open leg less.
  pub open_legs-set_leg :
      (legs : List RedemptionLeg)
      → find_leg id legs ≡ some leg
      → is_pending leg.state ≡ true
      → is_pending new.state ≡ false
      → open_legs legs ≡ suc (open_legs (set_leg id new legs))
  open_legs-set_leg [] h p q = absurd (not_found id leg h)
  open_legs-set_leg (l ∷ ls) h p q = elim (found id new leg l ls h) [
    | inl (e, is) ↦ rw (e, is) (one_less leg.state new.state (open_legs ls) p q)
    | inr (e, later) ↦ rw e (skip l.state _ _ (open_legs-set_leg ls later p q))
  ]

  pub length-set_leg : (legs : List RedemptionLeg) → length (set_leg id new legs) ≡ length legs
  unfolding set_leg
  length-set_leg [] = refl
  length-set_leg (l ∷ ls) = elim (Bool-cases (l.request.request_id ==ℤ id)) [
    | inl hit ↦ rw hit refl
    | inr miss ↦ rw miss (ap suc (length-set_leg ls))
  ]

  All-proofs :
      (P : Text → Type 0) (c : Text) (legs : List RedemptionLeg)
      → new.settlement_proof ≡ some c
      → All P (proofs legs)
      → P (to_lower_case c)
      → All P (proofs (set_leg id new legs))
  unfolding set_leg
  All-proofs P c [] n h p = tt
  All-proofs P c (l ∷ ls) n h p = elim (Bool-cases (l.request.request_id ==ℤ id)) [
    | inl hit ↦ rw (hit, n) (p, All-tail P l.settlement_proof (proofs ls) h)
    | inr miss ↦ rw miss (
        All-step P l.settlement_proof (proofs ls) (proofs (set_leg id new ls)) h
          (λ t. All-proofs P c ls n t p))
  ]

  -- A commitment that no leg has yet keeps the commitments distinct.
  pub proofs-set_leg :
      (c : Text) (legs : List RedemptionLeg)
      → find_leg id legs ≡ some leg
      → leg.settlement_proof ≡ none
      → new.settlement_proof ≡ some c
      → Distinct (proofs legs)
      → All (λ t. t ≢ to_lower_case c) (proofs legs)
      → Distinct (proofs (set_leg id new legs))
  proofs-set_leg c [] h o n d f = absurd (not_found id leg h)
  proofs-set_leg c (l ∷ ls) h o n d f = elim (found id new leg l ls h) [
    | inl (e, is) ↦
        let none_there : l.settlement_proof ≡ none = ap (λ x. x.settlement_proof) is ∙ o in
        let rest : Distinct (proofs ls) =
          subst (λ x. Distinct (proof_of x (proofs ls))) none_there d in
        let fresh : All (λ t. t ≢ to_lower_case c) (proofs ls) =
          subst (λ x. All (λ t. t ≢ to_lower_case c) (proof_of x (proofs ls))) none_there f in
        rw (e, n) (fresh, rest)
    | inr (e, later) ↦ rw e (
        Distinct-step l.settlement_proof (proofs ls) (proofs (set_leg id new ls)) c d f
          (λ d' f'. proofs-set_leg c ls later o n d' f')
          (λ x g p. All-proofs (λ t. t ≢ x) c ls n g p))
  ]
