-- ===== src/Relay/Types.antt =====
-- apps/relay/src/types.ts: the data of the relay. `Url` holds what the relay reads of the platform's
-- `URL`, and `Platform` the constructor, which is a parameter of the model.
use xrp_payguard.Base.{ℕ, List, Option}
use xrp_payguard.Text.{Text}
use xrp_payguard.Failure.{Result}
use xrp_payguard.Protocol.Types.{EvaluationResult}

pub record MachineDescriptor : Type 0 where
  pub machine_id : Text
  pub key_fingerprint : Text
  pub signer : Text
  pub endpoint : Text

pub record EvaluationEnvelope : Type 0 where
  pub result : EvaluationResult
  pub digest : Text
  pub signer : Text
  pub signature : Text

pub data RelayStatus : Type 0 where
  threshold_ready unavailable split : RelayStatus

pub record RelayOutcome : Type 0 where
  pub status : RelayStatus
  pub request_id : Text
  pub digest : Option Text
  pub matching : List EvaluationEnvelope
  pub valid : List EvaluationEnvelope
  pub failures : ℕ

pub record Url : Type 0 where
  pub protocol : Text
  pub username : Text
  pub password : Text
  pub hostname : Text

-- `new URL(text)`, which throws on a text that is not an absolute URL.
pub record Platform : Type 0 where
  pub parse_url : Text → Result Url
