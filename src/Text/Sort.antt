-- ===== src/Text/Sort.antt =====
-- The sorted array depends on the members only, and sorting it again changes nothing.
use mathlib.Core.List.{Perm, Permᴰ}
use mathlib.Core.List.Permᴰ
use mathlib.Core.Logic.{∥∥₁_elim}
use xrp_payguard.Base.{◌≡◌, refl, ◌∙◌, List, [], ◌∷◌, arith, Bool-cases, inl, inr}
use xrp_payguard.Text.{Text, text_leb, insert_sorted, sort}
use xrp_payguard.Text.Order.{text_leb_antisymm, text_leb_total, text_leb_trans}

insert_sorted_comm :
    (a b : Text) (cs : List Text)
    → insert_sorted a (insert_sorted b cs) ≡ insert_sorted b (insert_sorted a cs)
unfolding insert_sorted
insert_sorted_comm a b [] = ground (arith, text_leb_antisymm a b, text_leb_total a b)
insert_sorted_comm a b (c ∷ cs) = ground (
  arith,
  insert_sorted_comm a b cs,
  text_leb_antisymm a b,
  text_leb_total a b,
  text_leb_trans a b c,
  text_leb_trans b a c,
  text_leb_total b a,
)

pub sort-eq_of_permᴰ : {ts us : List Text} → Permᴰ ts us → sort ts ≡ sort us
unfolding sort
sort-eq_of_permᴰ Permᴰ.nil = refl
sort-eq_of_permᴰ (Permᴰ.cons e p) = cc (e, sort-eq_of_permᴰ p)
sort-eq_of_permᴰ (Permᴰ.swap {a = a} {b = b} {l = l} e f) =
    rw (← e, ← f) (insert_sorted_comm a b (sort l))
sort-eq_of_permᴰ (Permᴰ.trans p q) = sort-eq_of_permᴰ p ∙ sort-eq_of_permᴰ q

texts_set : IsSet (List Text)
texts_set = hlevel

-- Lists with the same members, as often, are sorted to the same list.
pub sort-eq_of_perm : {ts us : List Text} → Perm ts us → sort ts ≡ sort us
sort-eq_of_perm p = ∥∥₁_elim p (texts_set _ _) sort-eq_of_permᴰ

insert_sorted-perm : (a : Text) (bs : List Text) → Permᴰ (insert_sorted a bs) (a ∷ bs)
unfolding insert_sorted
insert_sorted-perm a [] = Permᴰ.cons refl Permᴰ.nil
insert_sorted-perm a (b ∷ bs) = elim (Bool-cases (text_leb a b)) [
  | inl before ↦ rw before (Permᴰ.refl (a ∷ b ∷ bs))
  | inr after ↦
      rw after (Permᴰ.trans (Permᴰ.cons refl (insert_sorted-perm a bs)) (Permᴰ.swap refl refl))
]

pub sort-permᴰ : (ts : List Text) → Permᴰ (sort ts) ts
unfolding sort
sort-permᴰ [] = Permᴰ.nil
sort-permᴰ (a ∷ ts) = Permᴰ.trans (insert_sorted-perm a (sort ts)) (Permᴰ.cons refl (sort-permᴰ ts))

pub sort_idem : (ts : List Text) → sort (sort ts) ≡ sort ts
sort_idem ts = sort-eq_of_permᴰ (sort-permᴰ ts)
