-- ===== src/Failure.antt =====
-- Thrown errors as values. A call that may throw returns a `Result`; a promise that may be
-- rejected is one too. `recover` is `try … catch { return d; }`.
use Prim.Native.String.{String}
use xrp_payguard.Base.{ℕ, ◌≡◌, refl, sym, subst, Bool, true, false}

-- The message of an `Error`: fixed, `${label} …`, `${label} exceeds uint${bits}`, or whatever a
-- library throws.
pub data Error : Type 0 where
  thrown : String → Error
  labelled : String → String → Error
  oversized : String → ℕ → Error
  external : Error

pub data Result {ℓ} (A : Type ℓ) : Type ℓ where
  ok : A → Result A
  err : Error → Result A

infixl 5 ◌>>=◌ ◌>>◌
abbrev pub ◌>>=◌ {ℓ κ} : {T : Type ℓ} {U : Type κ} → Result T → (T → Result U) → Result U
ok value >>= next = next value
err thrown_error >>= next = err thrown_error

abbrev pub ◌>>◌ {ℓ} : {B : Type ℓ} → Result (Unit {0}) → Result B → Result B
m >> k = m >>= λ _. k

-- `if (test) throw e;`
abbrev pub throw_if : Bool → Error → Result (Unit {0})
throw_if true e = err e
throw_if false e = ok tt

abbrev pub recover {ℓ} : {A : Type ℓ} → Result A → A → A
recover (ok a) d = a
recover (err _) d = d

pub >>=-eq-ok {ℓ κ} :
    {T : Type ℓ} {U : Type κ} (first : Result T) (next : T → Result U) {u : U}
    → (first >>= next) ≡ ok u
    → (t : T) × (first ≡ ok t) × (next t ≡ ok u)
>>=-eq-ok (ok t) next h = (t, refl, h)
>>=-eq-ok (err e) next h = cc

pub throw_if-eq-ok : (b : Bool) (e : Error) {u : Unit {0}} → throw_if b e ≡ ok u → b ≡ false
throw_if-eq-ok true e h = cc
throw_if-eq-ok false e h = refl

-- A step that can throw, followed by the rest: what a successful run went through.
pub throw_if_then {ℓ} :
    {A : Type ℓ} (b : Bool) (e : Error) (m : Result A) {a : A}
    → (throw_if b e >> m) ≡ ok a
    → (b ≡ false) × (m ≡ ok a)
throw_if_then true e m h = cc
throw_if_then false e m h = (refl, h)

pub ok-injective {ℓ} : {A : Type ℓ} {a b : A} → Result.ok a ≡ ok b → a ≡ b
ok-injective h = cc

-- The same the other way: a step that succeeds, in front of the rest.
pub bind_ok {ℓ κ} :
    {T : Type ℓ} {U : Type κ} {first : Result T} (next : T → Result U) {t : T} {r : Result U}
    → first ≡ ok t
    → next t ≡ r
    → (first >>= next) ≡ r
bind_ok next {r} e h = subst (λ m. (m >>= next) ≡ r) (sym e) h

pub pass {ℓ} :
    {A : Type ℓ} {b : Bool} (e : Error) {m : Result A} {r : Result A}
    → b ≡ false
    → m ≡ r
    → (throw_if b e >> m) ≡ r
pass e {m} {r} h k = subst (λ c. (throw_if c e >> m) ≡ r) (sym h) k
