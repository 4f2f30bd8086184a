-- ===== src/Relay/Service/Endings.antt =====
-- What the relay records when `evaluateOnce` ends, by a result or by an error.
use xrp_payguard.Base.{
  true-ne-false, ℕ, suc, ◌+◌, ◌<◌, ◌≡◌, refl, sym, ◌∙◌, ap, true, not, length, List, none, Member,
  keep-All, All-member, arith,
}
use xrp_payguard.Text.{Text, text_eq}
use xrp_payguard.Text.Laws.{text_eq_refl}
use xrp_payguard.Failure.{Result, ok, err, Error}
use xrp_payguard.Viem.{Viem}
use xrp_payguard.Protocol.Types.{ActionRequest}
use xrp_payguard.Relay.Types.{
  MachineDescriptor, RelayStatus, threshold_ready, split, unavailable, RelayOutcome, Platform,
}
use xrp_payguard.Relay.Machines.{validate_machines}
use xrp_payguard.Relay.Machines.Laws.{validate_machines_sound}
use xrp_payguard.Relay.Evaluation.{Settled, evaluate_once}
use xrp_payguard.Relay.Evaluation.Outcome.{evaluate_once-outcome}
use xrp_payguard.Relay.Telemetry.{Evaluations, Telemetry, relay_status, count_evaluation}
use xrp_payguard.Relay.Service.{Relay, delete, ending_of, finish_evaluation}
use xrp_payguard.Relay.Service.Keys.{Member-length}
use xrp_payguard.Relay.Service.Laws.{
  IsReachable, reachable-IsBalanced, finish_accepted, finish_evaluation-eq,
}

-- How an evaluation of some machines ends: one settled call for each of them, or an error.
pub data IsResult (V : Viem) (request : ActionRequest) (machines : List MachineDescriptor)
    : Result RelayOutcome → Type 0 where
  evaluated :
      (settled : List Settled)
      → length settled ≡ length machines
      → IsResult V request machines (ok (evaluate_once V request machines settled))
  failed : (x : Error) → IsResult V request machines (err x)

-- The counter of a status, one higher.
abbrev pub counted : RelayStatus → Evaluations → Evaluations
counted threshold_ready e = record e { threshold_ready = suc e.threshold_ready }
counted split e = record e { split = suc e.split }
counted unavailable e = record e { unavailable = suc e.unavailable }

-- What the counters say of a result: its own envelopes and failures, or three failed machines.
abbrev pub Reports : Result RelayOutcome → Telemetry → Telemetry → Type 0
Reports (ok o) t u =
    (u.machines_valid ≡ t.machines_valid + length o.valid)
    × (u.machines_failed ≡ t.machines_failed + o.failures)
    × (u.evaluations ≡ counted o.status t.evaluations)
Reports (err x) t u =
    (u.machines_valid ≡ t.machines_valid)
    × (u.machines_failed ≡ t.machines_failed + 3)
    × (u.evaluations ≡ record t.evaluations { error = suc t.evaluations.error })

delete-absent : (key : Text) (keys : List Text) → ¬ Member key (delete key keys)
unfolding delete
delete-absent key keys m =
    let kept : not (text_eq key key) ≡ true =
      All-member (λ k. not (text_eq k key) ≡ true) (keep-All (λ k. not (text_eq k key)) keys) m in
    let same = text_eq_refl key in true-ne-false (sym kept ∙ ap not same)

counted-eq : (s : RelayStatus) (e : Evaluations) → count_evaluation (relay_status s) e ≡ counted s e
unfolding count_evaluation
counted-eq threshold_ready e = refl
counted-eq split e = refl
counted-eq unavailable e = refl

three :
    (V : Viem) (P : Platform) (request : ActionRequest) (given machines : List MachineDescriptor)
    (result : Result RelayOutcome)
    → validate_machines V P given ≡ ok machines
    → IsResult V request machines result
    → (ending_of result).valid + (ending_of result).failed ≡ 3
unfolding ending_of
three V P request given machines _ valid (failed x) = omega arith
three V P request given machines _ valid (evaluated settled each) =
    let (size, _, _, _) = validate_machines_sound V P given machines valid in
    let (_, _, total, _) = evaluate_once-outcome V request machines settled in total ∙ each ∙ size

reports :
    (result : Result RelayOutcome) (t u : Telemetry)
    → u.machines_valid ≡ t.machines_valid + (ending_of result).valid
    → u.machines_failed ≡ t.machines_failed + (ending_of result).failed
    → u.evaluations ≡ count_evaluation (ending_of result).status t.evaluations
    → Reports result t u
unfolding ending_of count_evaluation
reports (ok o) t u a b c = (a, b, c ∙ counted-eq o.status t.evaluations)
reports (err x) t u a b c = (omega arith, b, c)

-- The end of an evaluation in flight, of three validated machines, is accepted by the telemetry
-- whatever it is: a result of one settled call for each machine, whose envelopes and failures are
-- counted and whose status is, or an error, which counts as three failed machines. The key is no longer in
-- flight, and one evaluation less is active.
pub finish_evaluation-ending_of :
    (V : Viem) (P : Platform) (request : ActionRequest) (given machines : List MachineDescriptor)
    (result : Result RelayOutcome) (max : ℕ) (r : Relay) (key : Text)
    → validate_machines V P given ≡ ok machines
    → IsResult V request machines result
    → IsReachable max r
    → Member key r.in_flight_evaluations
    → (let (s, thrown_error) = finish_evaluation key (ending_of result) r in
        (thrown_error ≡ none)
        × Reports result r.telemetry s.telemetry
        × ¬ (Member key s.in_flight_evaluations)
        × (suc s.active_evaluations ≡ r.active_evaluations))
finish_evaluation-ending_of V P request given machines result max r key valid ended reachable m =
    let b = reachable-IsBalanced max r reachable in
    let accepted =
      finish_accepted max r key (ending_of result) b m
        (three V P request given machines result valid ended) in
    let flying : 0 < r.active_evaluations = omega (arith, b.active, Member-length m) in
    let e = finish_evaluation-eq max r key (ending_of result) _ accepted in
    rw e (
      refl,
      reports result r.telemetry _ refl refl refl,
      delete-absent key r.in_flight_evaluations,
      omega (arith, flying),
    )
