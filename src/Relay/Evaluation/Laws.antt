-- ===== src/Relay/Evaluation/Laws.antt =====
-- What the loop over the settled calls keeps, and what the groups by digest hold.
use xrp_payguard.Base.{
  ℕ, suc, ◌+◌, ◌≡◌, ◌≢◌, refl, ap, inl, inr, Bool, true, false, length, List, [], ◌∷◌, ◌++◌, map,
  All, All-snoc, All-map, Distinct, Distinct-snoc, length-append, arith, Bool-cases,
}
use xrp_payguard.Base.Int.{ℤ}
use xrp_payguard.Text.{Text, text_eq, to_lower_case}
use xrp_payguard.Text.Laws.{text_eq_refl}
use xrp_payguard.Failure.{Result, ok, err}
use xrp_payguard.Viem.{Viem}
use xrp_payguard.Protocol.Types.{ActionRequest}
use xrp_payguard.Relay.Types.{MachineDescriptor, EvaluationEnvelope}
use xrp_payguard.Relay.Machines.{has}
use xrp_payguard.Relay.Envelope.{is_valid_envelope}
use xrp_payguard.Relay.Envelope.Laws.{IsAttested, is_valid_envelope_sound}
use xrp_payguard.Relay.Evaluation.{
  Settled, Collected, reject, accept, collect_one, collect, nothing_collected,
}

abbrev pub envelope_id : EvaluationEnvelope → Text
envelope_id e = to_lower_case e.result.machine_id

abbrev pub has_digest : Text → EvaluationEnvelope → Bool
has_digest k e = text_eq (to_lower_case e.digest) k

module _ (V : Viem) (request : ActionRequest) (machines : List MachineDescriptor) where
  -- The envelope passed the relay's check at some reading of the clock.
  abbrev pub IsKept : EvaluationEnvelope → Type 0
  IsKept e = (now : ℤ) × IsAttested V e request machines now

  -- The loop's invariant: what it keeps is attested, by one envelope for each machine, and the set
  -- of machines holds the machine of each.
  abbrev IsSound : Collected → Type 0
  IsSound c =
      All IsKept c.valid
      × Distinct (map envelope_id c.valid)
      × All (λ t. has c.valid_machines t ≡ true) (map envelope_id c.valid)

  map-snoc :
      (es : List EvaluationEnvelope) (e : EvaluationEnvelope)
      → map envelope_id (es ++ (e ∷ [])) ≡ map envelope_id es ++ (envelope_id e ∷ [])
  map-snoc [] e = refl
  map-snoc (x ∷ xs) e = ap (λ ts. envelope_id x ∷ ts) (map-snoc xs e)

  has-cons : (set : List Text) (s t : Text) → has set t ≡ true → has (s ∷ set) t ≡ true
  unfolding has
  has-cons set s t h = ground arith

  has-head : (set : List Text) (t : Text) → has (t ∷ set) t ≡ true
  unfolding has
  has-head set t = rw (text_eq_refl t) refl

  differs : (set : List Text) (s t : Text) → has set s ≡ false → has set t ≡ true → t ≢ s
  differs set s t h k = λ e. cc

  accept-IsSound :
      (c : Collected) (e : EvaluationEnvelope)
      → IsSound c
      → IsKept e
      → has c.valid_machines (envelope_id e) ≡ false
      → IsSound (accept c e)
  unfolding accept
  accept-IsSound c e (kept, distinct, held) k new = (
    All-snoc IsKept c.valid e kept k,
    rw (map-snoc c.valid e) (
        Distinct-snoc (map envelope_id c.valid) (envelope_id e) distinct (
          All-map (λ t. has c.valid_machines t ≡ true) (λ t. t ≢ envelope_id e)
            (map envelope_id c.valid) (λ t h. differs c.valid_machines (envelope_id e) t new h)
            held)),
    rw (map-snoc c.valid e) (
        All-snoc (λ t. has (envelope_id e ∷ c.valid_machines) t ≡ true) (map envelope_id c.valid)
          (envelope_id e)
          (All-map (λ t. has c.valid_machines t ≡ true)
            (λ t. has (envelope_id e ∷ c.valid_machines) t ≡ true) (map envelope_id c.valid)
            (λ t h. has-cons c.valid_machines (envelope_id e) t h) held)
          (has-head c.valid_machines (envelope_id e))),
  )

  abbrev handled : Collected → ℕ
  handled c = length c.valid + c.failures

  collect_one-IsSound :
      (c : Collected) (a : Result EvaluationEnvelope) (now : ℤ)
      → IsSound c
      → IsSound (collect_one V request machines c a now)
        × (handled (collect_one V request machines c a now) ≡ suc (handled c))
  unfolding collect_one reject
  collect_one-IsSound c (err x) now s = (s, omega arith)
  collect_one-IsSound c (ok e) now s =
      elim (Bool-cases (is_valid_envelope V e request machines now)) [
        | inr bad ↦ rw bad (s, omega arith)
        | inl good ↦ elim (Bool-cases (has c.valid_machines (envelope_id e))) [
          | inl old ↦ rw (good, old) (s, omega arith)
          | inr new ↦
              rw (good, new)
                (
                  accept-IsSound c e s (now, is_valid_envelope_sound V e request machines now good)
                      new,
                  unfold accept in omega (arith, length-append c.valid (e ∷ [])),
                )
        ]
      ]

  pub collect-IsSound :
      (c : Collected) (ss : List Settled)
      → IsSound c
      → IsSound (collect V request machines c ss)
        × (handled (collect V request machines c ss) ≡ handled c + length ss)
  unfolding collect
  collect-IsSound c [] s = (s, omega arith)
  collect-IsSound c (x ∷ ss) s =
      let (t, n) = collect_one-IsSound c x.answer x.checked_at s in
      let (u, m) = collect-IsSound (collect_one V request machines c x.answer x.checked_at) ss t in
      (u, omega arith)

  pub collected-IsSound :
      (ss : List Settled)
      → IsSound (collect V request machines nothing_collected ss)
        × (handled (collect V request machines nothing_collected ss) ≡ length ss)
  collected-IsSound ss =
      let (t, n) = collect-IsSound nothing_collected ss (tt, tt, tt) in (t, omega arith)
