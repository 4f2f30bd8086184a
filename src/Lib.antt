-- ===== src/Lib.antt =====
-- Verification of the policy core of XRP PayGuard, of its relay, and of the funding and the
-- redemption of f-assets.
--
-- The program lets an owner freeze a private payment policy with three machines. A request for a
-- payment goes through the relay (apps/relay/src) to the three machines; each evaluates the policy on
-- public facts (packages/protocol/src) and signs the digest of its result; the relay keeps what is in
-- order and submits two results that agree. A smart account is funded by an XRPL payment whose proof
-- lets a direct mint run (packages/integrations/src/funding.ts), and f-assets are redeemed in legs
-- that an agent pays or its collateral covers (packages/integrations/src/redemption.ts).
--
-- The files, by the code that they model:
-- Protocol/Types and Protocol/Constants: packages/protocol/src/types.ts and constants.ts.
-- Protocol/Schedule: schedule.ts, `scheduleWindowV1`.
-- Protocol/SpendWindow: spend-window.ts, `spendWindowTotalsV1`; the loop is a recursion on the
-- entries.
-- Protocol/Violations: evaluator.ts, `composePolicyDecisionV1` and the word of violations.
-- Protocol/Codec: codec.ts; Primitives and Normalize are the validators and `normalizePolicy` in
-- groups of fields, Policy puts the groups together, Parameters, Encoding and Digests are the ABI
-- types, the values and the digests, Ingress the digest of an ingress authorization. Lists, Blocks,
-- Canonical and Idempotence follow a policy to its normal form and Commitment to its commitment.
-- Protocol/PrivateWire: private-wire.ts, the plaintext of an encrypted policy; Items, Parse and Write
-- are its functions, Readers and Facts are what its readers give back and what a normal form is made
-- of.
-- Protocol/Evaluator: evaluator.ts, `evaluatePolicy`; Step is a computation that may return early
-- with a reason or throw, Inputs and History the functions that it calls, Rules its tests, Evaluate
-- its body. Run, Approval, Evidence and Allow follow a run that approves, Reasons and Denial one that
-- does not, Chain the replay of the history, Priority the order of the reasons, Reference the
-- rounding of the reference value.
-- Relay/Types, Machines, Envelope and Evaluation: apps/relay/src/types.ts and relay.ts, the machines'
-- descriptors, the check of an envelope, and `evaluateOnce` from the settled calls on.
-- Relay/Service and Telemetry: the state of `Relay` and of `RelayTelemetry` (observability.ts), one
-- function for each call and for the end of each promise; Service/Endings is about what the end of an
-- evaluation reports. Relay/Key: `evaluationKey`.
-- Integrations/Fdc and Funding: packages/integrations/src/fdc.ts and funding.ts, one function for
-- each operation on a funding job; Funding/Hashes and Integrity hold what a job is bound to and its
-- check, Funding/Step the operations that take a job on.
-- Integrations/Redemption: packages/integrations/src/redemption.ts, the data; Checks, Hashes,
-- Integrity, Events, Sending and Step are the validators, the hashes, the check of a job, the events
-- and the operations. Laws and Amounts are about the check, Legs, Replaced and Settle about one leg's
-- settlement, Accept and Request about the operations, Life about their sequences, Ledger about what
-- they are in the abstract, Replay about proofs used twice, Outcome about the result.
-- Integrations/Vault, Ftso and FdcRound: vault.ts, the decoding and encoding of a snapshot, ftso.ts
-- and fdc-round.ts.
-- Text, Failure and Base: strings, thrown errors, integers and lists as these files share them.
-- Tests: the theorems at concrete inputs.
--
-- Conventions. `bigint` is an integer, and every bound of the source is written out. `number` is one
-- too: `Number.isInteger` holds by the type. A string is the list of its code units; the program's
-- are hexadecimal, and lower case is taken over ASCII. An error that is thrown is a value of Result.
-- The package viem is a parameter, the record Viem of the functions that the program calls; what viem
-- documents of addresses and digests is the record ViemLaws, which only the theorems that name it
-- use. The constructor of URL is a parameter too, and so are the machines' answers, the clock's
-- readings, the verifiers of proofs, and the clients that mint and redeem. Promises in flight are the
-- keys that the relay's maps hold for them; calls and endings come in any order. A JSON text that the
-- program writes and reads back is the value that it spells.
--
-- No recursion of the models needs a bound, but for the digits of a decimal, whose fuel is one more
-- than the number. A history is at most 4096 entries long because the code refuses a longer one.
--
-- Not modelled: timers and sockets, the HTTP service around the relay, the other integrations,
-- encryption, the web application, the contracts, the machine side written in Go, and the tooling.
-- The model of the machines' answers is any list of settled calls, so that nothing rests on a machine
-- being honest.
pub mod Base
pub mod Text
pub mod Failure
pub mod Viem
pub mod Protocol
pub mod Relay
pub mod Integrations
pub mod Tests
