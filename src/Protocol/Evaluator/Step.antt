-- ===== src/Protocol/Evaluator/Step.antt =====
-- A computation of the evaluator: it goes on with a value, returns early with a public reason, or
-- throws. `return deny(request, reason, now)` and `return "MALFORMED"` are the early returns.
use xrp_payguard.Base.{◌≡◌, refl, Bool, true, false, Option, none, some}
use xrp_payguard.Failure.{Result, ok, err, Error}
use xrp_payguard.Protocol.Types.{PublicReasonClass, malformed}

pub data Step {ℓ} (A : Type ℓ) : Type ℓ where
  done : A → Step A
  returns : PublicReasonClass → Step A
  throws : Error → Step A

infixl 5 ◌>>=◌ ◌>>◌
abbrev pub ◌>>=◌ {ℓ κ} : {A : Type ℓ} {B : Type κ} → Step A → (A → Step B) → Step B
done a >>= f = f a
returns r >>= f = returns r
throws e >>= f = throws e

abbrev pub ◌>>◌ {ℓ} : {B : Type ℓ} → Step (Unit {0}) → Step B → Step B
m >> k = m >>= λ _. k

-- `if (test) return reason;`
abbrev pub return_if : Bool → PublicReasonClass → Step (Unit {0})
return_if true r = returns r
return_if false r = done tt

-- A call that may throw.
abbrev pub lift {ℓ} : {A : Type ℓ} → Result A → Step A
lift (ok a) = done a
lift (err e) = throws e

-- `try { … } catch { return "MALFORMED"; }`
abbrev pub caught {ℓ} : {A : Type ℓ} → Step A → Step A
caught (done a) = done a
caught (returns r) = returns r
caught (throws e) = returns malformed

-- `value ?? reason`, as a returned reason.
abbrev pub or_return {ℓ} : {A : Type ℓ} → Option A → PublicReasonClass → Step A
or_return none r = returns r
or_return (some a) r = done a

pub >>=-eq-done {ℓ κ} :
    {A : Type ℓ} {B : Type κ} (m : Step A) (f : A → Step B) {b : B}
    → (m >>= f) ≡ done b
    → (a : A) × (m ≡ done a) × (f a ≡ done b)
>>=-eq-done (done a) f h = (a, refl, h)
>>=-eq-done (returns r) f h = cc
>>=-eq-done (throws e) f h = cc

pub then-eq-done {ℓ} :
    {A : Type ℓ} (m : Step (Unit {0})) (k : Step A) {a : A}
    → (m >> k) ≡ done a
    → (m ≡ done tt) × (k ≡ done a)
then-eq-done (done u) k h = (refl, h)
then-eq-done (returns r) k h = cc
then-eq-done (throws e) k h = cc

pub return_if-then {ℓ} :
    {A : Type ℓ} (b : Bool) (r : PublicReasonClass) (m : Step A) {a : A}
    → (return_if b r >> m) ≡ done a
    → (b ≡ false) × (m ≡ done a)
return_if-then true r m h = cc
return_if-then false r m h = (refl, h)

pub lift-eq-done {ℓ} : {A : Type ℓ} (m : Result A) {a : A} → lift m ≡ done a → m ≡ ok a
lift-eq-done (ok a) h = cc
lift-eq-done (err e) h = cc

pub caught-eq-done {ℓ} : {A : Type ℓ} (m : Step A) {a : A} → caught m ≡ done a → m ≡ done a
caught-eq-done (done a) h = h
caught-eq-done (returns r) h = cc
caught-eq-done (throws e) h = cc

pub or_return-eq-done {ℓ} :
    {A : Type ℓ} (o : Option A) (r : PublicReasonClass) {a : A}
    → or_return o r ≡ done a
    → o ≡ some a
or_return-eq-done none r h = cc
or_return-eq-done (some a) r h = cc
