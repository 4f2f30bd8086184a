-- ===== src/Relay/Service/Keys.antt =====
-- The keys of what is in flight, when one is deleted.
use xrp_payguard.Base.{
  suc, ◌<◌, ◌≡◌, ◌≢◌, refl, sym, ◌∙◌, ap, subst, inl, inr, true, not, length, List, [], ◌∷◌, All,
  Distinct, Member, here, there, All-member, keep_hit, keep_miss, All-keep, arith, Bool-cases,
}
use xrp_payguard.Text.{Text, text_eq}
use xrp_payguard.Text.Laws.{text_eq_iff, text_eq_refl}
use xrp_payguard.Relay.Service.{delete}

pub Member-length : {t : Text} {ks : List Text} → Member t ks → 0 < length ks
Member-length here = omega arith
Member-length (there m) = omega arith

differs : (k t : Text) → k ≢ t → not (text_eq k t) ≡ true
differs k t n = elim (Bool-cases (text_eq k t)) [
  | inl h ↦ absurd (n ((text_eq_iff k t).0 h))
  | inr h ↦ rw h refl
]

drop_absent : (t : Text) (ks : List Text) → All (λ k. k ≢ t) ks → delete t ks ≡ ks
unfolding delete
drop_absent t [] h = refl
drop_absent t (k ∷ ks) (n, h) =
    keep_hit _ k ks (differs k t n) ∙ ap (λ xs. k ∷ xs) (drop_absent t ks h)

pub length-delete :
    (t : Text) (ks : List Text) → Distinct ks → Member t ks → suc (length (delete t ks)) ≡ length ks
unfolding delete
length-delete t [] d m = elim m [ ]
length-delete t (k ∷ ks) (n, d) here =
    ap (λ xs. suc (length xs))
      (keep_miss (λ x. not (text_eq x t)) t ks (rw (text_eq_refl t) refl) ∙ drop_absent t ks n)
length-delete t (k ∷ ks) (n, d) (there m) =
    ap (λ xs. suc (length xs))
      (keep_hit (λ x. not (text_eq x t)) k ks
        (differs k t (λ e. All-member (λ y. y ≢ k) n m (sym e))))
    ∙ ap suc (length-delete t ks d m)

pub Distinct-delete : (t : Text) (ks : List Text) → Distinct ks → Distinct (delete t ks)
unfolding delete
Distinct-delete t [] d = tt
Distinct-delete t (k ∷ ks) (n, d) = elim (Bool-cases (not (text_eq k t))) [
  | inl hit ↦
      subst Distinct (sym (keep_hit (λ x. not (text_eq x t)) k ks hit))
        (All-keep (λ y. y ≢ k) _ ks n, Distinct-delete t ks d)
  | inr miss ↦
      subst Distinct (sym (keep_miss (λ x. not (text_eq x t)) k ks miss)) (Distinct-delete t ks d)
]
