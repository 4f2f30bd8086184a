-- ===== src/Text/Order.antt =====
-- The order of texts by code units is total and antisymmetric.
use xrp_payguard.Base.{◌≡◌, refl, true, false, [], ◌∷◌, arith}
use xrp_payguard.Text.{Text, text_leb}

pub text_leb_refl : (s : Text) → text_leb s s ≡ true
unfolding text_leb
text_leb_refl [] = refl
text_leb_refl (a ∷ s) = ground (arith, text_leb_refl s)

pub text_leb_antisymm : (s t : Text) → text_leb s t ≡ true → text_leb t s ≡ true → s ≡ t
unfolding text_leb
text_leb_antisymm [] [] h k = refl
text_leb_antisymm [] (b ∷ t) h k = cc
text_leb_antisymm (a ∷ s) [] h k = cc
text_leb_antisymm (a ∷ s) (b ∷ t) h k = ground (arith, text_leb_antisymm s t)

pub text_leb_total : (s t : Text) → text_leb s t ≡ false → text_leb t s ≡ true
unfolding text_leb
text_leb_total [] t h = cc
text_leb_total (a ∷ s) [] h = refl
text_leb_total (a ∷ s) (b ∷ t) h = ground (arith, text_leb_total s t)

pub text_leb_trans :
    (s t u : Text) → text_leb s t ≡ true → text_leb t u ≡ true → text_leb s u ≡ true
unfolding text_leb
text_leb_trans [] t u h k = refl
text_leb_trans (a ∷ s) [] u h k = cc
text_leb_trans (a ∷ s) (b ∷ t) [] h k = cc
text_leb_trans (a ∷ s) (b ∷ t) (c ∷ u) h k = ground (arith, text_leb_trans s t u)
