-- ===== src/Relay/Key/Laws.antt =====
-- The key of an evaluation leaves the FDC facts out, and what that means for a second call.
use xrp_payguard.Base.{
  ℕ, ◌≡◌, ◌≢◌, refl, sym, ap, ◌∙◌, List, [], ◌∷◌, map, none, Member, All-member, Bool-cases, inl,
  inr,
}
use xrp_payguard.Text.{Text}
use xrp_payguard.Failure.{Result, ok}
use xrp_payguard.Viem.{Viem}
use xrp_payguard.Protocol.Types.{ActionRequest, SpendState, SpendHistoryEntry}
use xrp_payguard.Protocol.Codec.Primitives.{map_result}
use xrp_payguard.Relay.Types.{MachineDescriptor}
use xrp_payguard.Relay.Machines.{has}
use xrp_payguard.Relay.Machines.Laws.{has_iff-not}
use xrp_payguard.Relay.Telemetry.{evaluation_was_coalesced}
use xrp_payguard.Relay.Service.{Relay, evaluate, existing}
use xrp_payguard.Relay.Key.{history_json, public_state, evaluation_key}

-- The state with every FDC snapshot taken out, its own and those of its history.
abbrev pub forget_entry : SpendHistoryEntry → SpendHistoryEntry
forget_entry entry = record entry { fdc = none }

abbrev pub forget_fdc : SpendState → SpendState
forget_fdc state = record state { history = map forget_entry state.history; fdc = none }

history_json-forget :
    (V : Viem) (url_text : Text → Result Text) (es : List SpendHistoryEntry)
    → map_result (history_json V url_text) (map forget_entry es)
      ≡ map_result (history_json V url_text) es
unfolding map_result
history_json-forget V url_text [] = refl
history_json-forget V url_text (e ∷ es) = rw (history_json-forget V url_text es) refl

forgotten :
    (V : Viem) (url_text : Text → Result Text) (request : ActionRequest) (state : SpendState)
    (machines : List MachineDescriptor)
    → evaluation_key V url_text request (forget_fdc state) machines
      ≡ evaluation_key V url_text request state machines
unfolding evaluation_key public_state
forgotten V url_text request state machines = rw (history_json-forget V url_text state.history) refl

evaluate-existing :
    (max : ℕ) (r : Relay) (k : Text)
    → Member k r.in_flight_evaluations
    → evaluate max (ok k) r
      ≡ (record r { telemetry = evaluation_was_coalesced r.telemetry }, existing k)
unfolding evaluate
evaluate-existing max r k m = elim (Bool-cases (has r.in_flight_evaluations k)) [
  | inl there ↦ rw there refl
  | inr absent ↦
      absurd (All-member (λ x. x ≢ k) (has_iff-not r.in_flight_evaluations k absent) m refl)
]

-- The key of an evaluation does not read the FDC snapshots, of the state or of its history. So while
-- an evaluation is in flight, a call for the same request and machines whose state differs from its
-- state in those snapshots only starts none: it is counted as coalesced and given the other's promise.
pub evaluation_key-forget_fdc :
    (V : Viem) (url_text : Text → Result Text) (request : ActionRequest)
    (machines : List MachineDescriptor) (first second : SpendState) (key : Text) (max : ℕ)
    (r : Relay)
    → forget_fdc first ≡ forget_fdc second
    → evaluation_key V url_text request first machines ≡ ok key
    → Member key r.in_flight_evaluations
    → evaluate max (evaluation_key V url_text request second machines) r
      ≡ (record r { telemetry = evaluation_was_coalesced r.telemetry }, existing key)
evaluation_key-forget_fdc V url_text request machines first second key max r same e m =
    let again : evaluation_key V url_text request second machines ≡ ok key =
      sym (forgotten V url_text request second machines)
      ∙ ap (λ s. evaluation_key V url_text request s machines) (sym same)
      ∙ forgotten V url_text request first machines
      ∙ e in
    ap (λ x. evaluate max x r) again ∙ evaluate-existing max r key m
