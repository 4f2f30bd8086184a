-- ===== src/Relay/Service/Laws.antt =====
-- The counters of the relay over every sequence of calls and endings.
use xrp_payguard.Base.{
  ℕ, suc, ◌+◌, ◌-◌, ◌*◌, ◌<◌, ◌≤◌, ◌≡◌, refl, sym, ◌∙◌, ap, subst, inl, inr, false, not, ltb, leb,
  length, none, Distinct, Member, arith, Bool-cases, ◌==◌,
}
use xrp_payguard.Text.{Text}
use xrp_payguard.Failure.{Result, ok, err}
use xrp_payguard.Relay.Types.{RelayOutcome, RelayStatus}
use xrp_payguard.Relay.Machines.{has}
use xrp_payguard.Relay.Machines.Laws.{has_iff-not}
use xrp_payguard.Relay.Telemetry.{
  Telemetry, Evaluations, MetricStatus, relay_status, error, evaluation_started,
  evaluation_finished, count_evaluation, evaluation_rejected, evaluation_was_coalesced,
  SubmissionOutcome, success, failure, submission_finished, submission_rejected,
  submission_was_coalesced,
}
use xrp_payguard.Relay.Service.{
  Relay, new_relay, start_evaluation, evaluate, delete, Ending, record_ending, finish_evaluation,
  is_not_ready, submission_key, submit_threshold, finish_submission,
}
use xrp_payguard.Relay.Service.Keys.{Member-length, length-delete, Distinct-delete}

-- One call of the relay, or the end of a promise in flight.
pub data Step (max : ℕ) (r : Relay) : Relay → Type 0 where
  evaluates : (key : Result Text) → Step max r (evaluate max key r).0
  ends :
      (key : Text) (e : Ending)
      → Member key r.in_flight_evaluations
      → e.valid + e.failed ≡ 3
      → Step max r (finish_evaluation key e r).0
  submits : (o : RelayOutcome) → Step max r (submit_threshold o r).0
  ends_submission :
      (key : Text) (o : SubmissionOutcome)
      → Member key r.in_flight_submissions
      → Step max r (finish_submission key o r)

pub data IsReachable (max : ℕ) : Relay → Type 0 where
  fresh : IsReachable max new_relay
  stepped : {r s : Relay} → IsReachable max r → Step max r s → IsReachable max s

-- The gauge of active evaluations is the number of promises in flight, within the capacity; each key
-- is in flight once; and three machine results are counted for each evaluation that ended.
pub record IsBalanced (max : ℕ) (r : Relay) : Type 0 where
  pub active : r.active_evaluations ≡ length r.in_flight_evaluations
  pub gauge : r.telemetry.active_evaluations ≡ r.active_evaluations
  pub capacity : r.active_evaluations ≤ max
  pub evaluations : Distinct r.in_flight_evaluations
  pub submissions : Distinct r.in_flight_submissions
  pub results :
      r.telemetry.machines_valid + r.telemetry.machines_failed
      ≡ 3
        * (r.telemetry.evaluations.threshold_ready + r.telemetry.evaluations.split
            + r.telemetry.evaluations.unavailable + r.telemetry.evaluations.error)

total : Evaluations → ℕ
total e = e.threshold_ready + e.split + e.unavailable + e.error

module _ (max : ℕ) where
  -- Counters that the invariant does not read.
  counted :
      {r : Relay} (t : Telemetry)
      → IsBalanced max r
      → t.active_evaluations ≡ r.telemetry.active_evaluations
      → t.machines_valid ≡ r.telemetry.machines_valid
      → t.machines_failed ≡ r.telemetry.machines_failed
      → t.evaluations ≡ r.telemetry.evaluations
      → IsBalanced max (record r { telemetry = t })
  counted t b e f g h = record {
    active = b.active;
    gauge = e ∙ b.gauge;
    capacity = b.capacity;
    evaluations = b.evaluations;
    submissions = b.submissions;
    results = rw (f, g, h) b.results;
  }

  evaluate-IsBalanced :
      (key : Result Text) (r : Relay) → IsBalanced max r → IsBalanced max (evaluate max key r).0
  unfolding evaluate evaluation_rejected evaluation_was_coalesced start_evaluation
      evaluation_started
  evaluate-IsBalanced (err e) r b = counted _ b refl refl refl refl
  evaluate-IsBalanced (ok key) r b = elim (Bool-cases (has r.in_flight_evaluations key)) [
    | inl old ↦ rw old (counted _ b refl refl refl refl)
    | inr new ↦ elim (Bool-cases (leb max r.active_evaluations)) [
      | inl full ↦ rw (new, full) (counted _ b refl refl refl refl)
      | inr room ↦
          rw (new, room)
            (record {
              active = ap suc b.active;
              gauge = ap suc b.gauge;
              capacity = ground arith;
              evaluations = (has_iff-not r.in_flight_evaluations key new, b.evaluations);
              submissions = b.submissions;
              results = b.results;
            })
    ]
  ]

  submit_threshold-IsBalanced :
      (o : RelayOutcome) (r : Relay) → IsBalanced max r → IsBalanced max (submit_threshold o r).0
  unfolding submit_threshold submission_rejected submission_was_coalesced
  submit_threshold-IsBalanced o r b = elim (Bool-cases (is_not_ready o)) [
    | inl early ↦ rw early (counted _ b refl refl refl refl)
    | inr ready ↦ elim (Bool-cases (has r.in_flight_submissions (submission_key o))) [
      | inl old ↦ rw (ready, old) (counted _ b refl refl refl refl)
      | inr new ↦
          rw (ready, new)
            (record {
              active = b.active;
              gauge = b.gauge;
              capacity = b.capacity;
              evaluations = b.evaluations;
              submissions =
                  (has_iff-not r.in_flight_submissions (submission_key o) new, b.submissions);
              results = b.results;
            })
    ]
  ]

  -- A promise in flight ends: the telemetry accepts its results.
  pub finish_accepted :
      (r : Relay) (key : Text) (e : Ending)
      → IsBalanced max r
      → Member key r.in_flight_evaluations
      → e.valid + e.failed ≡ 3
      → evaluation_finished e.status e.valid e.failed r.telemetry
        ≡ ok (record r.telemetry {
          active_evaluations = r.telemetry.active_evaluations - 1;
          evaluations = count_evaluation e.status r.telemetry.evaluations;
          machines_valid = r.telemetry.machines_valid + e.valid;
          machines_failed = r.telemetry.machines_failed + e.failed;
        })
  unfolding evaluation_finished
  finish_accepted r key e b m h =
      let flying : 0 < r.telemetry.active_evaluations =
        ground (arith, b.active, b.gauge, Member-length m) in
      let a : leb r.telemetry.active_evaluations 0 ≡ false = ground arith in
      let c : ltb 3 e.valid ≡ false = ground arith in
      let d : ltb 3 e.failed ≡ false = ground arith in
      let f : not (e.valid + e.failed == 3) ≡ false = ground arith in rw (a, c, d, f) refl

  count_evaluation-total :
      (s : MetricStatus) (e : Evaluations) → total (count_evaluation s e) ≡ suc (total e)
  unfolding count_evaluation total
  count_evaluation-total (relay_status RelayStatus.threshold_ready) e = omega arith
  count_evaluation-total (relay_status RelayStatus.unavailable) e = omega arith
  count_evaluation-total (relay_status RelayStatus.split) e = omega arith
  count_evaluation-total error e = omega arith

  record_ending-eq :
      (e : Ending) (t u : Telemetry)
      → evaluation_finished e.status e.valid e.failed t ≡ ok u
      → record_ending e t ≡ (u, none)
  unfolding record_ending
  record_ending-eq e t u h = rw (record_ending, h) refl

  pub finish_evaluation-eq :
      (r : Relay) (key : Text) (e : Ending) (t : Telemetry)
      → evaluation_finished e.status e.valid e.failed r.telemetry ≡ ok t
      → finish_evaluation key e r ≡ (
        record {
          in_flight_evaluations = delete key r.in_flight_evaluations;
          in_flight_submissions = r.in_flight_submissions;
          active_evaluations = r.active_evaluations - 1;
          telemetry = t;
        },
        none,
      )
  unfolding finish_evaluation
  finish_evaluation-eq r key e t h =
      ap
        (λ p. (
          record {
            in_flight_evaluations = delete key r.in_flight_evaluations;
            in_flight_submissions = r.in_flight_submissions;
            active_evaluations = r.active_evaluations - 1;
            telemetry = p.0;
          },
          p.1,
        ))
        (record_ending-eq e r.telemetry t h)

  finish_evaluation-IsBalanced :
      (r : Relay) (key : Text) (e : Ending)
      → IsBalanced max r
      → Member key r.in_flight_evaluations
      → e.valid + e.failed ≡ 3
      → IsBalanced max (finish_evaluation key e r).0 × ((finish_evaluation key e r).1 ≡ none)
  unfolding total
  finish_evaluation-IsBalanced r key e b m h =
      let accepted = finish_accepted r key e b m h in
      let one_less = length-delete key r.in_flight_evaluations b.evaluations m in
      let counts = count_evaluation-total e.status r.telemetry.evaluations in
      subst (λ x. IsBalanced max x.0 × (x.1 ≡ none)) (sym (finish_evaluation-eq r key e _ accepted))
        (
          record {
            active = omega (arith, b.active, one_less);
            gauge = ap (λ n. n - 1) b.gauge;
            capacity = omega (arith, b.capacity);
            evaluations = Distinct-delete key r.in_flight_evaluations b.evaluations;
            submissions = b.submissions;
            results = omega (arith, b.results, counts);
          },
          refl,
        )

  finish_submission-IsBalanced :
      (key : Text) (o : SubmissionOutcome) (r : Relay)
      → IsBalanced max r
      → IsBalanced max (finish_submission key o r)
  unfolding finish_submission submission_finished
  finish_submission-IsBalanced key success r b = record {
    active = b.active;
    gauge = b.gauge;
    capacity = b.capacity;
    evaluations = b.evaluations;
    submissions = Distinct-delete key r.in_flight_submissions b.submissions;
    results = b.results;
  }
  finish_submission-IsBalanced key failure r b = record {
    active = b.active;
    gauge = b.gauge;
    capacity = b.capacity;
    evaluations = b.evaluations;
    submissions = Distinct-delete key r.in_flight_submissions b.submissions;
    results = b.results;
  }

  step-IsBalanced : {r s : Relay} → IsBalanced max r → Step max r s → IsBalanced max s
  step-IsBalanced b (evaluates key) = evaluate-IsBalanced key _ b
  step-IsBalanced b (ends key e m h) = (finish_evaluation-IsBalanced _ key e b m h).0
  step-IsBalanced b (submits o) = submit_threshold-IsBalanced o _ b
  step-IsBalanced b (ends_submission key o m) = finish_submission-IsBalanced key o _ b

-- Whatever calls come and in whatever order the promises end, the relay never has more evaluations in
-- flight than its capacity, has one promise for each key, and its counters are balanced.
pub reachable-IsBalanced : (max : ℕ) (r : Relay) → IsReachable max r → IsBalanced max r
reachable-IsBalanced max r fresh = record {
  active = refl;
  gauge = refl;
  capacity = omega arith;
  evaluations = tt;
  submissions = tt;
  results = refl;
}
reachable-IsBalanced max r (stepped h s) = step-IsBalanced max (reachable-IsBalanced max _ h) s
