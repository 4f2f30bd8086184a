-- ===== src/Relay/Evaluation/Submit.antt =====
-- The submission of an outcome that reached the threshold.
use xrp_payguard.Base.{ℕ, ◌≡◌, refl, ◌∙◌, ap, List, [], ◌∷◌, take, ◌⊎◌, inl, inr}
use xrp_payguard.Text.{Text}
use xrp_payguard.Failure.{Result, ok, err, Error}
use xrp_payguard.Viem.{Viem, ViemLaws}
use xrp_payguard.Protocol.Types.{ActionRequest}
use xrp_payguard.Relay.Types.{
  MachineDescriptor, EvaluationEnvelope, threshold_ready, RelayOutcome, Platform,
}
use xrp_payguard.Relay.Machines.{validate_machines}
use xrp_payguard.Relay.Evaluation.{Settled, Submission, submit_all, submit_once, evaluate_once}
use xrp_payguard.Relay.Evaluation.Outcome.{AreCoSigned, evaluate_once-co_signed}

abbrev Writer : Type 0
Writer = EvaluationEnvelope → Result (Unit {0})

-- Two envelopes go to a writer in order, and the first that it refuses ends the submission.
pub data IsSent (submit : Writer) (a b : EvaluationEnvelope) (s : Submission) : Type 0 where
  both :
      submit a ≡ ok tt
      → submit b ≡ ok tt
      → s.submitted ≡ a ∷ b ∷ []
      → s.outcome ≡ ok 2
      → IsSent submit a b s
  first_refused :
      (x : Error)
      → submit a ≡ err x
      → s.submitted ≡ a ∷ []
      → s.outcome ≡ err x
      → IsSent submit a b s
  second_refused :
      (x : Error)
      → submit a ≡ ok tt
      → submit b ≡ err x
      → s.submitted ≡ a ∷ b ∷ []
      → s.outcome ≡ err x
      → IsSent submit a b s

Result-cases : (r : Result (Unit {0})) → (r ≡ ok tt) ⊎ ((x : Error) × (r ≡ err x))
Result-cases (ok tt) = inl refl
Result-cases (err x) = inr (x, refl)

module _ (submit : Writer) (n : ℕ) (e : EvaluationEnvelope) (es : List EvaluationEnvelope) where
  submit_all-taken :
      submit e ≡ ok tt
      → submit_all submit n (e ∷ es) ≡ record {
        submitted = e ∷ (submit_all submit n es).submitted;
        outcome = (submit_all submit n es).outcome;
      }
  unfolding submit_all
  submit_all-taken h = rw (h, submit_all) refl

  submit_all-refused :
      (x : Error)
      → submit e ≡ err x
      → submit_all submit n (e ∷ es) ≡ record { submitted = e ∷ []; outcome = err x }
  unfolding submit_all
  submit_all-refused x h = rw (h, submit_all) refl

submit_all-IsSent :
    (submit : Writer) (a b : EvaluationEnvelope)
    → IsSent submit a b (submit_all submit 2 (a ∷ b ∷ []))
unfolding submit_all
submit_all-IsSent submit a b = elim (Result-cases (submit a)) [
  | inr (x, e) ↦
      let r = submit_all-refused submit 2 a (b ∷ []) x e in
      first_refused x e (ap (λ s. s.submitted) r) (ap (λ s. s.outcome) r)
  | inl e ↦
      let r = submit_all-taken submit 2 a (b ∷ []) e in
      elim (Result-cases (submit b)) [
        | inr (x, f) ↦
            let q = submit_all-refused submit 2 b [] x f in
            second_refused x e f (ap (λ s. s.submitted) r ∙ ap (λ s. a ∷ s.submitted) q)
              (ap (λ s. s.outcome) r ∙ ap (λ s. s.outcome) q)
        | inl f ↦
            let q = submit_all-taken submit 2 b [] f in
            both e f (ap (λ s. s.submitted) r ∙ ap (λ s. a ∷ s.submitted) q)
              (ap (λ s. s.outcome) r ∙ ap (λ s. s.outcome) q)
      ]
]

submit_once-pair :
    (submit : Writer) (o : RelayOutcome) (a b : EvaluationEnvelope)
    → take 2 o.matching ≡ a ∷ b ∷ []
    → IsSent submit a b (submit_once submit o)
unfolding submit_once
submit_once-pair submit o a b h = rw h (submit_all-IsSent submit a b)

-- An evaluation by validated machines that is `THRESHOLD_READY` is submitted as two envelopes that carry
-- one digest and that two different addresses signed: the writer gets the first, then, unless it refused
-- that, the second, and nothing else; the count is two when it took both, and its refusal is passed on.
pub submit_once-co_signed :
    (V : Viem) (P : Platform) (L : ViemLaws V) (request : ActionRequest)
    (given machines : List MachineDescriptor) (settled : List Settled)
    (submit : EvaluationEnvelope → Result (Unit {0}))
    → validate_machines V P given ≡ ok machines
    → (evaluate_once V request machines settled).status ≡ threshold_ready
    → (digest : Text) × (a : EvaluationEnvelope) × (b : EvaluationEnvelope) × AreCoSigned V digest a
        b
      × IsSent submit a b (submit_once submit (evaluate_once V request machines settled))
submit_once-co_signed V P L request given machines settled submit valid ready =
    let o = evaluate_once V request machines settled in
    let (digest, a, b, _, two, signed) =
      evaluate_once-co_signed V P L request given machines settled valid ready in
    (digest, a, b, signed, submit_once-pair submit o a b two)
