-- ===== src/Relay/Key.antt =====
-- apps/relay/src/relay.ts, lines 229 to 253: `evaluationKey`, and `JSON.stringify` on the values that
-- it is given. The platform's `new URL(text).toString()` is a parameter.
pub mod Laws
use xrp_payguard.Base.{
  ℕ, zero, suc, ◌+◌, ◌-◌, ◌/◌, ◌%◌, Bool, true, false, ◌==◌, ltb, List, [], ◌∷◌, ◌++◌, map, Option,
  none, some, if◌then◌else◌,
}
use xrp_payguard.Base.Int.{ℤ, pos, negsuc}
use xrp_payguard.Text.{Text, codes, to_lower_case}
use xrp_payguard.Text.Decimal.{to_string}
use xrp_payguard.Failure.{Result, ok, err, ◌>>=◌}
use xrp_payguard.Viem.{Viem}
use xrp_payguard.Protocol.Types.{ActionRequest, SpendState, SpendHistoryEntry, FtsoSnapshot}
use xrp_payguard.Protocol.Codec.Primitives.{map_result}
use xrp_payguard.Protocol.Codec.Digests.{action_request_hash}
use xrp_payguard.Relay.Types.{MachineDescriptor}

pub data Json : Type 0 where
  null : Json
  number : ℤ → Json
  string : Text → Json
  -- The empty array, and an array with one more element in front.
  empty : Json
  element : Json → Json → Json

abbrev array : List Json → Json
array [] = Json.empty
array (j ∷ js) = Json.element j (array js)

abbrev hex_digit : ℕ → ℕ
hex_digit n = if ltb n 10 then b'0' + n else b'a' + (n - 10)

-- A code unit within a JSON string.
abbrev escape : ℕ → Text
escape c =
    if c == b'"'
    then b'\\' ∷ b'"' ∷ []
    else if c == b'\\'
    then b'\\' ∷ b'\\' ∷ []
    else if c == 8
    then b'\\' ∷ b'b' ∷ []
    else if c == 9
    then b'\\' ∷ b't' ∷ []
    else if c == 10
    then b'\\' ∷ b'n' ∷ []
    else if c == 12
    then b'\\' ∷ b'f' ∷ []
    else if c == 13
    then b'\\' ∷ b'r' ∷ []
    else if ltb c 32
    then b'\\' ∷ b'u' ∷ b'0' ∷ b'0' ∷ hex_digit (c / 16) ∷ hex_digit (c % 16) ∷ []
    else c ∷ []

abbrev escape_all : Text → Text
escape_all [] = []
escape_all (c ∷ t) = escape c ++ escape_all t

abbrev mutual
  stringify : Json → Text
  stringify Json.null = codes "null"
  stringify (Json.number n) = to_string n
  stringify (Json.string t) = b'"' ∷ (escape_all t ++ (b'"' ∷ []))
  stringify Json.empty = codes "[]"
  stringify (Json.element j js) = b'[' ∷ (stringify j ++ stringify_rest js)

  stringify_rest : Json → Text
  stringify_rest (Json.element j js) = b',' ∷ (stringify j ++ stringify_rest js)
  stringify_rest _ = b']' ∷ []

abbrev ftso_json : Option FtsoSnapshot → Json
ftso_json none = Json.null
ftso_json (some f) = array (
    Json.string (to_lower_case f.feed_id)
    ∷ Json.string (to_string f.value)
    ∷ Json.number f.decimals
    ∷ Json.string (to_string f.timestamp)
    ∷ Json.string (to_lower_case f.checkpoint)
    ∷ [])

module _ (V : Viem) (url_text : Text → Result Text) where
  abbrev history_json : SpendHistoryEntry → Result Json
  history_json entry = do
    request_hash ← action_request_hash V entry.request
    ok (
        array (
          Json.string request_hash
          ∷ Json.string (to_string entry.accounted_at)
          ∷ ftso_json entry.ftso
          ∷ []))

  abbrev machine_json : MachineDescriptor → Result Json
  machine_json m = do
    signer ← V.get_address m.signer
    endpoint ← url_text m.endpoint
    ok (
        array (
          Json.string (to_lower_case m.machine_id)
          ∷ Json.string (to_lower_case m.key_fingerprint)
          ∷ Json.string (to_lower_case signer)
          ∷ Json.string endpoint
          ∷ []))

  unfoldable pub public_state : ActionRequest → SpendState → List MachineDescriptor → Result Json
  public_state request state machines = do
    request_hash ← action_request_hash V request
    history ← map_result history_json state.history
    descriptors ← map_result machine_json machines
    ok (
        array (
          Json.string request_hash
          ∷ Json.string (to_string state.available_balance)
          ∷ array history
          ∷ Json.number state.occurrence_count
          ∷ Json.string (to_string state.last_accounting_at)
          ∷ Json.string (to_lower_case state.spend_checkpoint)
          ∷ Json.string (to_lower_case state.balance_checkpoint)
          ∷ Json.string (to_string state.now)
          ∷ ftso_json state.ftso
          ∷ array descriptors
          ∷ []))

  unfoldable pub evaluation_key : ActionRequest → SpendState → List MachineDescriptor → Result Text
  evaluation_key request state machines = do
    value ← public_state request state machines
    ok (V.keccak256 (V.string_to_hex (stringify value)))
