-- ===== src/Relay/Evaluation.antt =====
-- apps/relay/src/relay.ts, lines 135 to 183: `evaluateOnce` from the settled calls on, and
-- `submitOnce`.
pub mod Laws
pub mod Groups
pub mod Outcome
pub mod Submit
use xrp_payguard.Base.{
  ℕ, zero, suc, ◌+◌, Bool, true, false, ◌||◌, not, ltb, leb, length, take, List, [], ◌∷◌, ◌++◌,
  Option, none, some, if◌then◌else◌,
}
use xrp_payguard.Base.Int.{ℤ}
use xrp_payguard.Text.{Text, text_eq, to_lower_case}
use xrp_payguard.Failure.{Result, ok, err, Error, ◌>>=◌}
use xrp_payguard.Viem.{Viem}
use xrp_payguard.Protocol.Types.{ActionRequest}
use xrp_payguard.Relay.Types.{
  MachineDescriptor, EvaluationEnvelope, RelayStatus, threshold_ready, unavailable, split,
  RelayOutcome,
}
use xrp_payguard.Relay.Machines.{has}
use xrp_payguard.Relay.Envelope.{is_valid_envelope}

-- A settled call, with what the clock shows when its envelope is checked.
pub record Settled : Type 0 where
  pub answer : Result EvaluationEnvelope
  pub checked_at : ℤ

-- The variables of the loop over the settled calls.
pub record Collected : Type 0 where
  pub valid : List EvaluationEnvelope
  pub valid_machines : List Text
  pub failures : ℕ

abbrev pub nothing_collected : Collected
nothing_collected = record { valid = []; valid_machines = []; failures = 0 }

unfoldable pub reject : Collected → Collected
reject c = record { valid = c.valid; valid_machines = c.valid_machines; failures = suc c.failures }

unfoldable pub accept : Collected → EvaluationEnvelope → Collected
accept c e = record {
  valid = c.valid ++ (e ∷ []);
  valid_machines = to_lower_case e.result.machine_id ∷ c.valid_machines;
  failures = c.failures;
}

pub record Group : Type 0 where
  pub digest : Text
  pub members : List EvaluationEnvelope

-- `groups.set(key, [...group, envelope])`, in a map that keeps the order of insertion.
unfoldable pub add_to_groups : Text → EvaluationEnvelope → List Group → List Group
add_to_groups key e [] = record { digest = key; members = e ∷ [] } ∷ []
add_to_groups key e (g ∷ gs) =
    if text_eq g.digest key
    then record { digest = g.digest; members = g.members ++ (e ∷ []) } ∷ gs
    else g ∷ add_to_groups key e gs

unfoldable pub group_from : List Group → List EvaluationEnvelope → List Group
group_from groups [] = groups
group_from groups (e ∷ es) = group_from (add_to_groups (to_lower_case e.digest) e groups) es

-- The first group of two or more.
unfoldable pub find_threshold : List Group → Option Group
find_threshold [] = none
find_threshold (g ∷ gs) = if leb 2 (length g.members) then some g else find_threshold gs

unfoldable pub conclude_with : ActionRequest → Collected → Option Group → RelayOutcome
conclude_with request c (some g) = record {
  status = threshold_ready;
  request_id = request.request_id;
  digest = some g.digest;
  matching = g.members;
  valid = c.valid;
  failures = c.failures;
}
conclude_with request c none = record {
  status = if ltb (length c.valid) 2 then unavailable else split;
  request_id = request.request_id;
  digest = none;
  matching = [];
  valid = c.valid;
  failures = c.failures;
}

module _ (V : Viem) (request : ActionRequest) (machines : List MachineDescriptor) where
  -- The body of the loop.
  unfoldable pub collect_one : Collected → Result EvaluationEnvelope → ℤ → Collected
  collect_one c (err _) now = reject c
  collect_one c (ok e) now =
      if not (is_valid_envelope V e request machines now)
      then reject c
      else if has c.valid_machines (to_lower_case e.result.machine_id)
      then reject c
      else accept c e

  unfoldable pub collect : Collected → List Settled → Collected
  collect c [] = c
  collect c (s ∷ ss) = collect (collect_one c s.answer s.checked_at) ss

  unfoldable pub evaluate_once : List Settled → RelayOutcome
  evaluate_once settled =
      let collected = collect nothing_collected settled in
      conclude_with request collected (find_threshold (group_from [] collected.valid))

-- What a run of `submitOnce` called, in order, and how it ended.
pub record Submission : Type 0 where
  pub submitted : List EvaluationEnvelope
  pub outcome : Result ℕ

-- `for (…) await submitter.submitEvaluation(envelope)`: the first rejection ends it.
unfoldable pub submit_all :
    (EvaluationEnvelope → Result (Unit {0})) → ℕ → List EvaluationEnvelope → Submission
submit_all submit count [] = record { submitted = []; outcome = ok count }
submit_all submit count (e ∷ es) =
    let rest = submit_all submit count es in
    elim (submit e) [
      | ok _ ↦ record { submitted = e ∷ rest.submitted; outcome = rest.outcome }
      | err x ↦ record { submitted = e ∷ []; outcome = err x }
    ]

unfoldable pub submit_once : (EvaluationEnvelope → Result (Unit {0})) → RelayOutcome → Submission
submit_once submit outcome =
    let threshold = take 2 outcome.matching in submit_all submit (length threshold) threshold
