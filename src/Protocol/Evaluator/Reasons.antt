-- ===== src/Protocol/Evaluator/Reasons.antt =====
-- The reasons that a step of the evaluator may return, of which none is `OK`.
use xrp_payguard.Base.{◌≢◌, Bool, true, false, Option, none, some, arith, if◌then◌else◌}
use xrp_payguard.Failure.{Result, ok, err, Error}
use xrp_payguard.Protocol.Types.{
  PublicReasonClass, reason_ok, malformed, expired, ftso_invalid, fdc_invalid, stale_input,
  wrong_domain,
}
use xrp_payguard.Protocol.Violations.{Violation, reason_of}
use xrp_payguard.Protocol.Evaluator.Step.{
  Step, done, returns, throws, ◌>>=◌, ◌>>◌, return_if, lift, caught, or_return,
}

-- An early return gives a reason other than OK.
pub data GivesReason {A : Type 0} : Step A → Type 0 where
  ends : (a : A) → GivesReason (done a)
  gives : (r : PublicReasonClass) → r ≢ reason_ok → GivesReason (returns r)
  fails : (e : Error) → GivesReason (throws e)

module _ {A B : Type 0} where
  pub GivesReason-bind :
      {m : Step A} {f : A → Step B}
      → GivesReason m
      → ((a : A) → GivesReason (f a))
      → GivesReason (m >>= f)
  GivesReason-bind (ends a) k = k a
  GivesReason-bind (gives r h) k = gives r h
  GivesReason-bind (fails e) k = fails e

module _ {A : Type 0} where
  pub GivesReason-then :
      {m : Step (Unit {0})} {k : Step A} → GivesReason m → GivesReason k → GivesReason (m >> k)
  GivesReason-then (ends a) k = k
  GivesReason-then (gives r h) k = gives r h
  GivesReason-then (fails e) k = fails e

  pub GivesReason-lift : (m : Result A) → GivesReason (lift m)
  GivesReason-lift (ok a) = ends a
  GivesReason-lift (err e) = fails e

  pub GivesReason-caught : {m : Step A} → GivesReason m → GivesReason (caught m)
  GivesReason-caught (ends a) = ends a
  GivesReason-caught (gives r h) = gives r h
  GivesReason-caught (fails e) = gives malformed (λ q. cc)

  pub GivesReason-or_return :
      (o : Option A) {r : PublicReasonClass} → r ≢ reason_ok → GivesReason (or_return o r)
  GivesReason-or_return none h = gives _ h
  GivesReason-or_return (some a) h = ends a

  pub GivesReason-if :
      (b : Bool) {s t : Step A} → GivesReason s → GivesReason t → GivesReason (if b then s else t)
  GivesReason-if true h k = h
  GivesReason-if false h k = k

pub GivesReason-return_if :
    (b : Bool) {r : PublicReasonClass} → r ≢ reason_ok → GivesReason (return_if b r)
GivesReason-return_if true h = gives _ h
GivesReason-return_if false h = ends tt

pub malformed-ne-ok : malformed ≢ reason_ok
malformed-ne-ok = λ e. cc

pub ftso_invalid-ne-ok : ftso_invalid ≢ reason_ok
ftso_invalid-ne-ok = λ e. cc

pub fdc_invalid-ne-ok : fdc_invalid ≢ reason_ok
fdc_invalid-ne-ok = λ e. cc

pub stale_input-ne-ok : stale_input ≢ reason_ok
stale_input-ne-ok = λ e. cc

pub wrong_domain-ne-ok : wrong_domain ≢ reason_ok
wrong_domain-ne-ok = λ e. cc

pub expired-ne-ok : (b : Bool) → (if b then expired else malformed) ≢ reason_ok
expired-ne-ok b = ground arith

pub reason_of-ne-ok : (v : Violation) → reason_of v ≢ reason_ok
unfolding reason_of
reason_of-ne-ok Violation.policy_denied = cc
reason_of-ne-ok _ = cc
