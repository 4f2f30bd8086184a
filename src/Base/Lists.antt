-- ===== src/Base/Lists.antt =====
-- Lists measured and tested over the native numbers.
use Prim.Native.Nat.{ℕ, zero, suc, ◌+◌, ◌<◌}
use mathlib.Core.Path.{◌≡◌, refl, sym, ap, subst}
use mathlib.Core.Logic.{◌≢◌, inl, inr}
use xrp_payguard.Base.Tests.{Bool-cases}
use mathlib.Core.Bool.{Bool, true, false, ◌&&◌, ◌||◌}
use mathlib.Core.List.{List, [], ◌∷◌, ◌++◌}
use mathlib.Core.Option.{Option, none, some}
use native.Mathlib.Omega.{arith}

module _ {ℓ} {A : Type ℓ} where
  abbrev pub length : List A → ℕ
  length [] = 0
  length (x ∷ xs) = suc (length xs)

  abbrev pub any : (A → Bool) → List A → Bool
  any p [] = false
  any p (x ∷ xs) = p x || any p xs

  abbrev pub all : (A → Bool) → List A → Bool
  all p [] = true
  all p (x ∷ xs) = p x && all p xs

  abbrev pub take : ℕ → List A → List A
  take zero xs = []
  take (suc n) [] = []
  take (suc n) (x ∷ xs) = x ∷ take n xs

  abbrev pub replicate : ℕ → A → List A
  replicate zero a = []
  replicate (suc n) a = a ∷ replicate n a

  -- `xs.at(-1)`
  abbrev pub get_last? : List A → Option A
  get_last? [] = none
  get_last? (x ∷ []) = some x
  get_last? (x ∷ y ∷ xs) = get_last? (y ∷ xs)

  pub length-append : (xs ys : List A) → length (xs ++ ys) ≡ length xs + length ys
  length-append [] ys = omega arith
  length-append (x ∷ xs) ys = omega (arith, length-append xs ys)

  -- The members that pass a test, as the source's `filter`.
  abbrev pub keep : (A → Bool) → List A → List A
  keep p [] = []
  keep p (x ∷ xs) = elim (p x) [ true ↦ x ∷ keep p xs | false ↦ keep p xs ]

-- A property of every member.
abbrev pub All {ℓ κ} : {A : Type ℓ} → (A → Type κ) → List A → Type κ
All P [] = Unit
All P (x ∷ xs) = P x × All P xs

-- Every value below a bound passes a test: checked by evaluation.
unfoldable pub all_below : ℕ → (ℕ → Bool) → Bool
all_below zero test = true
all_below (suc bound) test = test bound && all_below bound test

pub all_below_sound :
    (bound : ℕ) (test : ℕ → Bool) (value : ℕ)
    → all_below bound test ≡ true
    → value < bound
    → test value ≡ true
unfolding all_below
all_below_sound zero test value h below = absurd (omega arith)
all_below_sound (suc bound) test value h below = ground (arith, all_below_sound bound test value)

pub data Member {ℓ} {A : Type ℓ} (a : A) : List A → Type ℓ where
  here : {xs : List A} → Member a (a ∷ xs)
  there : {x : A} {xs : List A} → Member a xs → Member a (x ∷ xs)

pub All-member {ℓ κ} :
    {A : Type ℓ} (P : A → Type κ) {a : A} {xs : List A} → All P xs → Member a xs → P a
All-member P h here = h.0
All-member P h (there m) = All-member P h.1 m

-- No two of the list are equal.
abbrev pub Distinct {ℓ} : {A : Type ℓ} → List A → Type ℓ
Distinct [] = Unit
Distinct (x ∷ xs) = All (λ y. y ≢ x) xs × Distinct xs

module _ {ℓ} {A : Type ℓ} where
  pub All-snoc {κ} :
      (P : A → Type κ) (xs : List A) (x : A) → All P xs → P x → All P (xs ++ (x ∷ []))
  All-snoc P [] x h p = (p, tt)
  All-snoc P (y ∷ ys) x (q, h) p = (q, All-snoc P ys x h p)

  pub All-map {κ μ} :
      (P : A → Type κ) (Q : A → Type μ) (xs : List A) → ((x : A) → P x → Q x) → All P xs → All Q xs
  All-map P Q [] f h = tt
  All-map P Q (x ∷ xs) f (p, h) = (f x p, All-map P Q xs f h)

  pub Distinct-snoc :
      (xs : List A) (x : A) → Distinct xs → All (λ y. y ≢ x) xs → Distinct (xs ++ (x ∷ []))
  Distinct-snoc [] x d h = (tt, tt)
  Distinct-snoc (y ∷ ys) x (n, d) (p, h) =
      (All-snoc (λ z. z ≢ y) ys x n (λ e. p (sym e)), Distinct-snoc ys x d h)

  pub keep_hit : (p : A → Bool) (x : A) (xs : List A) → p x ≡ true → keep p (x ∷ xs) ≡ x ∷ keep p xs
  keep_hit p x xs h = rw (keep, h) refl

  pub keep_miss : (p : A → Bool) (x : A) (xs : List A) → p x ≡ false → keep p (x ∷ xs) ≡ keep p xs
  keep_miss p x xs h = rw (keep, h) refl

  pub All-keep {κ} : (P : A → Type κ) (p : A → Bool) (xs : List A) → All P xs → All P (keep p xs)
  All-keep P p [] h = tt
  All-keep P p (x ∷ xs) (q, h) = elim (Bool-cases (p x)) [
    | inl hit ↦ subst (All P) (sym (keep_hit p x xs hit)) (q, All-keep P p xs h)
    | inr miss ↦ subst (All P) (sym (keep_miss p x xs miss)) (All-keep P p xs h)
  ]

  pub keep-append : (p : A → Bool) (xs ys : List A) → keep p (xs ++ ys) ≡ keep p xs ++ keep p ys
  keep-append p [] ys = refl
  keep-append p (x ∷ xs) ys = elim (Bool-cases (p x)) [
    | inl hit ↦
        rw (keep_hit p x (xs ++ ys) hit, keep_hit p x xs hit)
          (ap (λ zs. x ∷ zs) (keep-append p xs ys))
    | inr miss ↦ rw (keep_miss p x (xs ++ ys) miss, keep_miss p x xs miss) (keep-append p xs ys)
  ]

  -- What passes a test does.
  pub keep-All : (p : A → Bool) (xs : List A) → All (λ x. p x ≡ true) (keep p xs)
  keep-All p [] = tt
  keep-All p (x ∷ xs) = elim (Bool-cases (p x)) [
    | inl hit ↦ subst (All (λ y. p y ≡ true)) (sym (keep_hit p x xs hit)) (hit, keep-All p xs)
    | inr miss ↦ subst (All (λ y. p y ≡ true)) (sym (keep_miss p x xs miss)) (keep-All p xs)
  ]
