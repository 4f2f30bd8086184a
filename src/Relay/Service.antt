-- ===== src/Relay/Service.antt =====
-- apps/relay/src/relay.ts, lines 38 to 133: the state of the relay, and what a call, and the end of a
-- call, does to it. A promise in flight is its key: its maps hold one promise for each key.
pub mod Laws
pub mod Endings
pub mod Keys
use xrp_payguard.Base.{
  ℕ, zero, suc, ◌-◌, Bool, true, false, ◌||◌, not, is_some, ltb, leb, length, keep, List, [], ◌∷◌,
  ◌++◌, Option, none, some, if◌then◌else◌,
}
use xrp_payguard.Text.{Text, text_eq, to_lower_case}
use xrp_payguard.Failure.{Result, ok, err, Error, thrown}
use xrp_payguard.Relay.Types.{RelayStatus, threshold_ready, unavailable, split, RelayOutcome}
use xrp_payguard.Relay.Machines.{has}
use xrp_payguard.Relay.Telemetry.{
  Telemetry, new_telemetry, MetricStatus, evaluation_started, evaluation_finished,
  evaluation_rejected, invalid, capacity, evaluation_was_coalesced, SubmissionOutcome, success,
  failure, submission_finished, submission_rejected, submission_was_coalesced,
}

pub record Relay : Type 0 where
  pub in_flight_evaluations : List Text
  pub in_flight_submissions : List Text
  pub active_evaluations : ℕ
  pub telemetry : Telemetry

abbrev pub new_relay : Relay
new_relay = record {
  in_flight_evaluations = [];
  in_flight_submissions = [];
  active_evaluations = 0;
  telemetry = new_telemetry;
}

-- What a call answers: a promise of its own, the promise in flight under the same key, or a rejection.
pub data Answer : Type 0 where
  started : Text → Answer
  existing : Text → Answer
  rejected : Error → Answer

abbrev pub capacity_error : Error
capacity_error = thrown "relay evaluation capacity is unavailable"

unfoldable pub start_evaluation : Text → Relay → Relay
start_evaluation key r = record {
  in_flight_evaluations = key ∷ r.in_flight_evaluations;
  in_flight_submissions = r.in_flight_submissions;
  active_evaluations = suc r.active_evaluations;
  telemetry = evaluation_started r.telemetry;
}

-- `evaluate`, from the key on: `err` where the machines or the key were refused.
unfoldable pub evaluate : ℕ → Result Text → Relay → Relay × Answer
evaluate max (err e) r =
    (record r { telemetry = evaluation_rejected invalid r.telemetry }, rejected e)
evaluate max (ok key) r =
    if has r.in_flight_evaluations key
    then (record r { telemetry = evaluation_was_coalesced r.telemetry }, existing key)
    else if leb max r.active_evaluations
    then (
      record r { telemetry = evaluation_rejected capacity r.telemetry },
      rejected capacity_error,
    )
    else (start_evaluation key r, started key)

-- `map.delete(key)`
unfoldable pub delete : Text → List Text → List Text
delete key keys = keep (λ k. not (text_eq k key)) keys

-- How `evaluateOnce` ended, as the telemetry is told.
pub record Ending : Type 0 where
  pub status : MetricStatus
  pub valid : ℕ
  pub failed : ℕ

unfoldable pub ending_of : Result RelayOutcome → Ending
ending_of (ok o) = record {
  status = MetricStatus.relay_status o.status;
  valid = length o.valid;
  failed = o.failures;
}
ending_of (err _) = record { status = MetricStatus.error; valid = 0; failed = 3 }

-- The handlers of `then` and `finally` as one step: the program runs the second in a microtask after
-- the first, and a call that comes between them still finds the key. Where the telemetry throws, it
-- keeps its counters, and the promise is rejected for that.
unfoldable pub record_ending : Ending → Telemetry → Telemetry × Option Error
record_ending e t = elim (evaluation_finished e.status e.valid e.failed t) [
  | ok u ↦ (u, none)
  | err x ↦ (t, some x)
]

unfoldable pub finish_evaluation : Text → Ending → Relay → Relay × Option Error
finish_evaluation key e r =
    let (t, thrown_error) = record_ending e r.telemetry in
    (
      record {
        in_flight_evaluations = delete key r.in_flight_evaluations;
        in_flight_submissions = r.in_flight_submissions;
        active_evaluations = r.active_evaluations - 1;
        telemetry = t;
      },
      thrown_error,
    )

-- A digest that is given and not empty is truthy.
abbrev is_present : Option Text → Bool
is_present none = false
is_present (some []) = false
is_present (some (_ ∷ _)) = true

unfoldable pub is_not_ready : RelayOutcome → Bool
is_not_ready o =
    elim o.status [ threshold_ready ↦ false | unavailable ↦ true | split ↦ true ]
    || (not (is_present o.digest) || ltb (length o.matching) 2)

-- `${requestId.toLowerCase()}:${digest.toLowerCase()}`, of an outcome that is ready.
unfoldable pub submission_key : RelayOutcome → Text
submission_key o =
    to_lower_case o.request_id
    ++ (b':' ∷ elim o.digest [ none ↦ [] | some digest ↦ to_lower_case digest ])

unfoldable pub submit_threshold : RelayOutcome → Relay → Relay × Answer
submit_threshold o r =
    if is_not_ready o
    then (
      record r { telemetry = submission_rejected r.telemetry },
      rejected (thrown "evaluation threshold is not ready"),
    )
    else if has r.in_flight_submissions (submission_key o)
    then (
      record r { telemetry = submission_was_coalesced r.telemetry },
      existing (submission_key o),
    )
    else (
      record r { in_flight_submissions = submission_key o ∷ r.in_flight_submissions },
      started (submission_key o),
    )

unfoldable pub finish_submission : Text → SubmissionOutcome → Relay → Relay
finish_submission key outcome r = record {
  in_flight_evaluations = r.in_flight_evaluations;
  in_flight_submissions = delete key r.in_flight_submissions;
  active_evaluations = r.active_evaluations;
  telemetry = submission_finished outcome r.telemetry;
}
