-- ===== src/Integrations/Vault/Fields.antt =====
-- What the fields of a decoded snapshot satisfy, and how their wire forms decode.
use xrp_payguard.Base.{
  not-false, ℕ, ◌≡◌, refl, sym, ◌∙◌, subst, inl, inr, true, false, ◌||◌, not, List, [], ◌∷◌, Option,
  none, some, or-false, Bool-cases,
}
use xrp_payguard.Base.Int.{ℤ, pos, ◌+ℤ◌, ltb_ℤ, max_uint256}
use xrp_payguard.Text.{Text, text_eq, to_lower_case, is_hex32, zero_bytes32, zero_address}
use xrp_payguard.Text.Laws.{to_lower_case_idem, is_hex32-to_lower_case}
use xrp_payguard.Text.Decimal.{
  is_decimal, decimal_value, to_string, decimal, is_decimal-decimal, decimal_value-decimal,
}
use xrp_payguard.Failure.{ok, >>=-eq-ok, throw_if_then, ok-injective}
use xrp_payguard.Viem.{Viem, ViemLaws}
use xrp_payguard.Integrations.Vault.{
  Wire, text, boolean, other, VaultSnapshot, quoted_uint, checked_add, sum_checked,
  decode_checkpoint, public_address,
}
use Prim.Native.String.{String}

-- An unsigned integer within a bound.
abbrev pub IsUint : ℤ → ℤ → Type 0
IsUint max n = (k : ℕ) × (n ≡ pos k) × (ltb_ℤ max (pos k) ≡ false)

pub quoted_uint_sound :
    (w : Option Wire) (l : String) (max n : ℤ) → quoted_uint w l max ≡ ok n → IsUint max n
unfolding quoted_uint
quoted_uint_sound none l max n h = cc
quoted_uint_sound (some (boolean b)) l max n h = cc
quoted_uint_sound (some other) l max n h = cc
quoted_uint_sound (some (text t)) l max n h = elim (Bool-cases (not (is_decimal t))) [
  | inl bad ↦ cc (rw bad at h)
  | inr good ↦ elim (Bool-cases (ltb_ℤ max (pos (decimal_value t)))) [
    | inl large ↦ cc (rw (good, large) at h)
    | inr small ↦ (decimal_value t, sym (ok-injective (rw (good, small) at h)), small)
  ]
]

decimal_back :
    (l : String) (max : ℤ) (k : ℕ)
    → ltb_ℤ max (pos k) ≡ false
    → quoted_uint (some (text (decimal k))) l max ≡ ok (pos k)
unfolding quoted_uint
decimal_back l max k h = rw (is_decimal-decimal k, decimal_value-decimal k, h) refl

pub quoted_uint_back :
    (l : String) (max n : ℤ) → IsUint max n → quoted_uint (some (text (to_string n))) l max ≡ ok n
quoted_uint_back l max n (k, e, h) =
    subst (λ x. quoted_uint (some (text (to_string x))) l max ≡ ok x) (sym e)
      (decimal_back l max k h)

module _ (V : Viem) where
  -- A checksummed address that is not zero.
  abbrev pub IsPublic : Text → Type 0
  IsPublic a = (V.is_address a ≡ true) × (V.get_address a ≡ ok a) × (text_eq a zero_address ≡ false)

  pub public_address_sound :
      ViemLaws V
      → (w : Option Wire) (l : String) (a : Text) → public_address V w l ≡ ok a
      → IsPublic a
  unfolding public_address
  public_address_sound L none l a h = cc
  public_address_sound L (some (boolean b)) l a h = cc
  public_address_sound L (some other) l a h = cc
  public_address_sound L (some (text t)) l a h = elim (Bool-cases (V.is_address t)) [
    | inr bad ↦ cc (rw bad at h)
    | inl good ↦
        let (c, named, h1) = >>=-eq-ok (V.get_address t) _ (rw good at h) in
        let (nonzero, h2) = throw_if_then (text_eq c zero_address) _ (ok c) h1 in
        let e : L.checksum t good ≡ c = ok-injective (sym (L.get_address_lem t good) ∙ named) in
        subst IsPublic (ok-injective h2) (
          subst (λ x. V.is_address x ≡ true) e (L.checksum-is_address t good),
          subst (λ x. V.get_address x ≡ ok x) e (L.checksum_again t good),
          nonzero,
        )
  ]

  pub public_address_back :
      (l : String) (a : Text) → IsPublic a → public_address V (some (text a)) l ≡ ok a
  unfolding public_address
  public_address_back l a (x, y, z) = rw (x, y, z) refl

abbrev pub IsCheckpoint : Text → Type 0
IsCheckpoint c = (is_hex32 c ≡ true) × (to_lower_case c ≡ c) × (text_eq c zero_bytes32 ≡ false)

pub decode_checkpoint_sound :
    (w : Option Wire) (c : Text) → decode_checkpoint w ≡ ok c → IsCheckpoint c
unfolding decode_checkpoint
decode_checkpoint_sound none c h = cc
decode_checkpoint_sound (some (boolean b)) c h = cc
decode_checkpoint_sound (some other) c h = cc
decode_checkpoint_sound (some (text t)) c h =
    elim (Bool-cases (not (is_hex32 t) || text_eq (to_lower_case t) zero_bytes32)) [
      | inl bad ↦ cc (rw bad at h)
      | inr good ↦
          let (shaped, nonzero) = or-false (not (is_hex32 t)) _ good in
          subst IsCheckpoint (ok-injective (rw good at h))
            (is_hex32-to_lower_case t (not-false _ shaped), to_lower_case_idem t, nonzero)
    ]

pub decode_checkpoint_back : (c : Text) → IsCheckpoint c → decode_checkpoint (some (text c)) ≡ ok c
unfolding decode_checkpoint
decode_checkpoint_back c (x, y, z) = rw (x, y, z) refl

checked_add_sound : (a b c : ℤ) → checked_add a b ≡ ok c → (a +ℤ b) ≡ c
unfolding checked_add
checked_add_sound a b c h = elim (Bool-cases (ltb_ℤ max_uint256 (a +ℤ b))) [
  | inl large ↦ cc (rw large at h)
  | inr small ↦ ok-injective (rw small at h)
]

-- The sum in the order of the additions.
abbrev pub sum_from : ℤ → List ℤ → ℤ
sum_from total [] = total
sum_from total (n ∷ ns) = sum_from (total +ℤ n) ns

pub sum_checked_sound :
    (total : ℤ) (ns : List ℤ) (c : ℤ) → sum_checked total ns ≡ ok c → sum_from total ns ≡ c
unfolding sum_checked
sum_checked_sound total [] c h = ok-injective h
sum_checked_sound total (n ∷ ns) c h =
    let (next, added, h1) = >>=-eq-ok (checked_add total n) _ h in
    subst (λ t. sum_from t ns ≡ c) (sym (checked_add_sound total n next added))
      (sum_checked_sound next ns c h1)

abbrev pub balances : VaultSnapshot → List ℤ
balances s = s.available ∷ s.reserved ∷ s.spent ∷ s.withdrawn ∷ s.refunded ∷ []
