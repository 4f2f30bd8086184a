-- ===== src/Text/Members.antt =====
-- Hexadecimal texts that are the same whatever their case, and lists of them.
use xrp_payguard.Base.{◌≡◌, ◌↔◌, ◌⊎◌, true, false, List, [], ◌∷◌, any, arith}
use xrp_payguard.Text.{Text, to_lower_case, same_hex}
use xrp_payguard.Text.Laws.{same_hex_iff}

-- One identifier in two spellings.
abbrev pub SameHex : Text → Text → Type 0
SameHex a b = to_lower_case a ≡ to_lower_case b

-- The list has a spelling of the text.
abbrev pub Lists : List Text → Text → Type 0
Lists [] t = ⊥
Lists (c ∷ cs) t = SameHex c t ⊎ Lists cs t

pub any-same_hex_iff :
    (cs : List Text) (t : Text) → (any (λ c. same_hex c t) cs ≡ true) ↔ Lists cs t
any-same_hex_iff [] t = ground arith
any-same_hex_iff (c ∷ cs) t = ground (arith, same_hex_iff c t, any-same_hex_iff cs t)

pub any-same_hex-eq-false :
    (cs : List Text) (t : Text) → any (λ c. same_hex c t) cs ≡ false → ¬ (Lists cs t)
any-same_hex-eq-false cs t h l = cc ((any-same_hex_iff cs t).1 l)
