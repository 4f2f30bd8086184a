-- ===== src/Relay/Evaluation/Groups.antt =====
-- The groups by digest, in the order of insertion, against the filter of the list by a digest.
use xrp_payguard.Base.{
  some-injective, true-ne-false, ◌<◌, ◌≤◌, ◌≡◌, ◌≢◌, refl, sym, ◌∙◌, ap, subst, inl, inr, true,
  false, leb, length, List, [], ◌∷◌, ◌++◌, Member, here, there, All-member, none, some, All,
  Distinct, keep, keep_hit, keep_miss, arith, Bool-cases, if◌then◌else◌,
}
use xrp_payguard.Text.{Text, text_eq, to_lower_case}
use xrp_payguard.Text.Laws.{text_eq_iff, text_eq_refl}
use xrp_payguard.Relay.Types.{EvaluationEnvelope}
use xrp_payguard.Relay.Evaluation.{Group, add_to_groups, group_from, find_threshold}
use xrp_payguard.Relay.Evaluation.Laws.{has_digest}

-- `groups.get(key) ?? []`
members_of : List Group → Text → List EvaluationEnvelope
members_of [] k = []
members_of (g ∷ gs) k = if text_eq g.digest k then g.members else members_of gs k

keys : List Group → List Text
keys [] = []
keys (g ∷ gs) = g.digest ∷ keys gs

at_key :
    (g : Group) (gs : List Group) (k : Text)
    → text_eq g.digest k ≡ true
    → members_of (g ∷ gs) k ≡ g.members
unfolding members_of
at_key g gs k h = rw h refl

past_key :
    (g : Group) (gs : List Group) (k : Text)
    → text_eq g.digest k ≡ false
    → members_of (g ∷ gs) k ≡ members_of gs k
unfolding members_of
past_key g gs k h = rw h refl

append-nil : (xs : List EvaluationEnvelope) → xs ++ [] ≡ xs
append-nil [] = refl
append-nil (x ∷ xs) = ap (λ ys. x ∷ ys) (append-nil xs)

append_assoc : (xs ys zs : List EvaluationEnvelope) → (xs ++ ys) ++ zs ≡ xs ++ (ys ++ zs)
append_assoc [] ys zs = refl
append_assoc (x ∷ xs) ys zs = ap (λ ws. x ∷ ws) (append_assoc xs ys zs)

text_ne : (s t : Text) → s ≢ t → text_eq s t ≡ false
text_ne s t h = elim (Bool-cases (text_eq s t)) [
  | inl e ↦ absurd (h ((text_eq_iff s t).0 e))
  | inr n ↦ n
]

text_eq-ne : (s t : Text) → text_eq s t ≡ false → s ≢ t
text_eq-ne s t h e = absurd (true-ne-false (sym ((text_eq_iff s t).1 e) ∙ h))

-- Adding extends the members of its own key, and leaves every other key alone.
members_of-add :
    (key : Text) (e : EvaluationEnvelope) (gs : List Group)
    → members_of (add_to_groups key e gs) key ≡ members_of gs key ++ (e ∷ [])
unfolding members_of add_to_groups
members_of-add key e [] = rw (text_eq_refl key) refl
members_of-add key e (g ∷ gs) = elim (Bool-cases (text_eq g.digest key)) [
  | inl hit ↦ rw (hit, hit) refl
  | inr miss ↦ rw (miss, miss) (members_of-add key e gs)
]

members_of-add_other :
    (key k : Text) (e : EvaluationEnvelope) (gs : List Group)
    → key ≢ k
    → members_of (add_to_groups key e gs) k ≡ members_of gs k
unfolding members_of add_to_groups
members_of-add_other key k e [] n = rw (text_ne key k n) refl
members_of-add_other key k e (g ∷ gs) n = elim (Bool-cases (text_eq g.digest key)) [
  | inl hit ↦
      let other : text_eq g.digest k ≡ false =
        text_ne g.digest k (λ h. n (sym ((text_eq_iff g.digest key).0 hit) ∙ h)) in
      rw (hit, other) refl
  | inr miss ↦
      rw miss (
        ap (λ xs. if text_eq g.digest k then g.members else xs) (members_of-add_other key k e gs n))
]

-- The members at a key are those that the key had, and then those of the list with that digest.
members_of-group_from :
    (gs : List Group) (es : List EvaluationEnvelope) (k : Text)
    → members_of (group_from gs es) k ≡ members_of gs k ++ keep (has_digest k) es
unfolding group_from
members_of-group_from gs [] k = sym (append-nil (members_of gs k))
members_of-group_from gs (e ∷ es) k =
    let key = to_lower_case e.digest in
    let rest = members_of-group_from (add_to_groups key e gs) es k in
    elim (Bool-cases (text_eq key k)) [
      | inl hit ↦
          let same : key ≡ k = (text_eq_iff key k).0 hit in
          rest
          ∙ ap (λ xs. xs ++ keep (has_digest k) es)
              (subst (λ t. members_of (add_to_groups key e gs) t ≡ members_of gs t ++ (e ∷ [])) same
                (members_of-add key e gs))
          ∙ append_assoc (members_of gs k) (e ∷ []) (keep (has_digest k) es)
          ∙ ap (λ xs. members_of gs k ++ xs) (sym (keep_hit (has_digest k) e es hit))
      | inr miss ↦
          rest
          ∙ ap (λ xs. xs ++ keep (has_digest k) es)
              (members_of-add_other key k e gs (text_eq-ne key k miss))
          ∙ ap (λ xs. members_of gs k ++ xs) (sym (keep_miss (has_digest k) e es miss))
    ]

-- The keys stay distinct.
All-keys-add :
    (t key : Text) (e : EvaluationEnvelope) (gs : List Group)
    → All (λ u. u ≢ t) (keys gs)
    → key ≢ t
    → All (λ u. u ≢ t) (keys (add_to_groups key e gs))
unfolding keys add_to_groups
All-keys-add t key e [] h n = (n, tt)
All-keys-add t key e (g ∷ gs) (m, h) n = elim (Bool-cases (text_eq g.digest key)) [
  | inl hit ↦ rw hit (m, h)
  | inr miss ↦ rw miss (m, All-keys-add t key e gs h n)
]

Distinct-add :
    (key : Text) (e : EvaluationEnvelope) (gs : List Group)
    → Distinct (keys gs)
    → Distinct (keys (add_to_groups key e gs))
unfolding keys add_to_groups
Distinct-add key e [] d = (tt, tt)
Distinct-add key e (g ∷ gs) (n, d) = elim (Bool-cases (text_eq g.digest key)) [
  | inl hit ↦ rw hit (n, d)
  | inr miss ↦ rw miss (
    All-keys-add g.digest key e gs n (λ h. text_eq-ne g.digest key miss (sym h)),
    Distinct-add key e gs d,
  )
]

Distinct-group_from :
    (gs : List Group) (es : List EvaluationEnvelope)
    → Distinct (keys gs)
    → Distinct (keys (group_from gs es))
unfolding group_from
Distinct-group_from gs [] d = d
Distinct-group_from gs (e ∷ es) d =
    Distinct-group_from (add_to_groups (to_lower_case e.digest) e gs) es
      (Distinct-add (to_lower_case e.digest) e gs d)

find_threshold-some :
    (gs : List Group) (g : Group)
    → Distinct (keys gs)
    → find_threshold gs ≡ some g
    → (members_of gs g.digest ≡ g.members) × (2 ≤ length g.members) × Member g.digest (keys gs)
unfolding find_threshold keys
find_threshold-some [] g d h = cc
find_threshold-some (f ∷ gs) g (n, d) h = elim (Bool-cases (leb 2 (length f.members))) [
  | inl large ↦
      let e : f ≡ g = some-injective (rw large at h) in
      (
        subst (λ x. members_of (f ∷ gs) x.digest ≡ x.members) e
            (at_key f gs f.digest (text_eq_refl f.digest)),
        subst (λ x. 2 ≤ length x.members) e (ground arith),
        subst (λ x. Member x.digest (f.digest ∷ keys gs)) e here,
      )
  | inr small ↦
      let (members, large, mem) = find_threshold-some gs g d (rw small at h) in
      (
        past_key f gs g.digest
              (text_ne f.digest g.digest (λ h. All-member (λ t. t ≢ f.digest) n mem (sym h)))
            ∙ members,
        large,
        there mem,
      )
]

find_threshold-none :
    (gs : List Group) (k : Text) → find_threshold gs ≡ none → length (members_of gs k) < 2
unfolding find_threshold members_of
find_threshold-none [] k h = omega arith
find_threshold-none (g ∷ gs) k h = elim (Bool-cases (leb 2 (length g.members))) [
  | inl large ↦ cc (rw large at h)
  | inr small ↦ elim (Bool-cases (text_eq g.digest k)) [
    | inl hit ↦ rw hit (ground arith)
    | inr miss ↦ rw miss (find_threshold-none gs k (rw small at h))
  ]
]

-- The group that is found is the filter of the list by its digest.
pub threshold-some :
    (es : List EvaluationEnvelope) (g : Group)
    → find_threshold (group_from [] es) ≡ some g
    → (g.members ≡ keep (has_digest g.digest) es) × (2 ≤ length g.members)
threshold-some es g h =
    let (members, large, mem) =
      find_threshold-some (group_from [] es) g (Distinct-group_from [] es (unfold keys in tt)) h in
    (sym members ∙ (members_of-group_from [] es g.digest ∙ (unfold members_of in refl)), large)

pub threshold-none :
    (es : List EvaluationEnvelope) (k : Text)
    → find_threshold (group_from [] es) ≡ none
    → length (keep (has_digest k) es) < 2
threshold-none es k h =
    subst (λ xs. length xs < 2) (members_of-group_from [] es k ∙ (unfold members_of in refl))
      (find_threshold-none (group_from [] es) k h)
