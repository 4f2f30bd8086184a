-- ===== src/Protocol/Evaluator/Chain.antt =====
-- A history that the replay accepts is a chain of checkpoints from the first checkpoint of the
-- policy to the one of the state, and the totals are those of its values.
use xrp_payguard.Base.{
  ℕ, suc, ◌≡◌, refl, sym, ◌∙◌, ◌⊎◌, inl, inr, Bool, true, false, List, [], ◌∷◌, some, arith, length,
  if◌then◌else◌,
}
use xrp_payguard.Base.Int.{ℤ, pos, ◌≤ℤ◌, ◌<ℤ◌, ◌==ℤ◌, max_uint256, ==ℤ_iff}
use mathlib.Core.Path.{ap, subst, subst₂}
use xrp_payguard.Text.{Text}
use xrp_payguard.Text.Laws.{same_hex_iff}
use xrp_payguard.Text.Members.{SameHex}
use xrp_payguard.Failure.{ok}
use xrp_payguard.Viem.{Viem}
use xrp_payguard.Protocol.Types.{Policy, SpendHistoryEntry, SpendState, malformed, ftso_invalid}
use xrp_payguard.Protocol.Constants.{action_ftestxrp_transfer}
use xrp_payguard.Protocol.Codec.Encoding.{genesis_spend_checkpoint}
use xrp_payguard.Protocol.SpendWindow.{SpendWindowEntry, SpendWindowTotals}
use xrp_payguard.Protocol.SpendWindow.Totals.{IsTotals, spend_window_totals_iff}
use xrp_payguard.Protocol.Evaluator.Step.{
  Step, done, lift, >>=-eq-done, return_if-then, then-eq-done, lift-eq-done, caught-eq-done,
  or_return-eq-done,
}
use xrp_payguard.Protocol.Evaluator.Inputs.{
  matches_policy_domain, ftso_reference_value, valid_fdc_snapshot, input_commitment_matches,
  next_checkpoint,
}
use xrp_payguard.Protocol.Evaluator.History.{
  is_malformed_entry, entry_value, check_entry_fdc, replay_entry, replay_from, is_stale_history,
  replay_spend_history, last_accounting,
}
use xrp_payguard.Protocol.Evaluator.Approval.{InDomain, matches_policy_domain_sound}

-- Which branch of a conditional step was taken.
branch_of {ℓ} :
    {A : Type ℓ} (b : Bool) (s t : Step A) {a : A}
    → (if b then s else t) ≡ done a
    → ((b ≡ true) × (s ≡ done a)) ⊎ ((b ≡ false) × (t ≡ done a))
branch_of true s t h = inl (refl, h)
branch_of false s t h = inr (refl, h)

pair-injective {ℓ κ} :
    {A : Type ℓ} {B : Type κ} {a c : A} {b d : B}
    → ◌≡◌ {A = Step (A × B)} (done (a, b)) (done (c, d))
    → (a ≡ c) × (b ≡ d)
pair-injective h = (cc, cc)

done-injective : {a b : ℤ} → Step.done a ≡ done b → a ≡ b
done-injective h = cc

module _ (V : Viem) (policy : Policy) (commitment : Text) where
  -- An entry that may follow a checkpoint as the occurrence `n` of its policy.
  pub record IsLink (now n : ℤ) (checkpoint : Text) (entry : SpendHistoryEntry)
      (w : SpendWindowEntry) : Type 0 where
    pub domain : InDomain policy entry.request commitment
    pub asset : SameHex entry.request.asset policy.asset
    pub action : SameHex entry.request.action_type (action_ftestxrp_transfer V)
    pub amount_pos : pos 0 <ℤ entry.request.amount
    pub amount_bound : entry.request.amount ≤ℤ max_uint256
    pub occurrence : entry.request.occurrence ≡ n
    pub follows : SameHex entry.request.spend_checkpoint checkpoint
    pub created : entry.request.created_at ≤ℤ entry.accounted_at
    pub unexpired : entry.accounted_at ≤ℤ entry.request.expiry
    pub past : entry.accounted_at ≤ℤ now
    pub time : w.executed_at ≡ entry.accounted_at
    pub value :
        ((policy.require_ftso ≡ false) × (w.value ≡ entry.request.amount))
        ⊎ (ftso_reference_value policy entry.request entry.ftso entry.accounted_at ≡ some w.value)
    pub proved :
        (policy.require_fdc ≡ false)
        ⊎ (valid_fdc_snapshot V policy entry.request entry.fdc entry.accounted_at ≡ true)

  -- The chain of checkpoints: each entry names the checkpoint before it, and the next is computed
  -- from it. `n` entries stand before the first.
  pub data Chain (now : ℤ)
      : ℕ → Text → List SpendHistoryEntry → Text → List SpendWindowEntry → Type 0 where
    start : {n : ℕ} {c : Text} → Chain now n c [] c []
    link :
        {n : ℕ} {c c' last : Text} {e : SpendHistoryEntry} {es : List SpendHistoryEntry}
        {w : SpendWindowEntry} {ws : List SpendWindowEntry}
        → IsLink now (pos (suc n)) c e w
        → next_checkpoint V e.request e.request.amount (pos (suc n)) e.accounted_at ≡ ok c'
        → Chain now (suc n) c' es last ws
        → Chain now n c (e ∷ es) last (w ∷ ws)

  -- The part of a link that the guard establishes.
  record IsWellFormed (now n : ℤ) (checkpoint : Text) (entry : SpendHistoryEntry) : Type 0 where
    domain : matches_policy_domain policy entry.request commitment ≡ true
    asset : SameHex entry.request.asset policy.asset
    action : SameHex entry.request.action_type (action_ftestxrp_transfer V)
    amount_pos : pos 0 <ℤ entry.request.amount
    amount_bound : entry.request.amount ≤ℤ max_uint256
    occurrence : entry.request.occurrence ≡ n
    follows : SameHex entry.request.spend_checkpoint checkpoint
    created : entry.request.created_at ≤ℤ entry.accounted_at
    unexpired : entry.accounted_at ≤ℤ entry.request.expiry
    past : entry.accounted_at ≤ℤ now

  guard_sound :
      (now n : ℤ) (checkpoint : Text) (entry : SpendHistoryEntry)
      → is_malformed_entry V policy commitment now n checkpoint entry ≡ false
      → IsWellFormed now n checkpoint entry
  unfolding is_malformed_entry
  guard_sound now n checkpoint entry h = ground (
    arith,
    same_hex_iff entry.request.asset policy.asset,
    same_hex_iff entry.request.action_type (action_ftestxrp_transfer V),
    same_hex_iff entry.request.spend_checkpoint checkpoint,
  )

  value_sound :
      (entry : SpendHistoryEntry) (value : ℤ)
      → entry_value V policy commitment entry ≡ done value
      → ((policy.require_ftso ≡ false) × (value ≡ entry.request.amount))
        ⊎ (ftso_reference_value policy entry.request entry.ftso entry.accounted_at ≡ some value)
  unfolding entry_value
  value_sound entry value h = elim (branch_of policy.require_ftso _ _ h) [
    | inl (required, priced) ↦ inr (or_return-eq-done _ ftso_invalid priced)
    | inr (free, plain) ↦
        let (_, same) = return_if-then _ _ _ plain in inl (free, done-injective (sym same))
  ]

  proof_sound :
      (entry : SpendHistoryEntry)
      → check_entry_fdc V policy commitment entry ≡ done tt
      → (policy.require_fdc ≡ false)
        ⊎ (valid_fdc_snapshot V policy entry.request entry.fdc entry.accounted_at ≡ true)
  unfolding check_entry_fdc
  proof_sound entry h = ground arith

  entry_sound :
      (now n : ℤ) (checkpoint : Text) (entry : SpendHistoryEntry) (next : Text)
      (w : SpendWindowEntry)
      → replay_entry V policy commitment now n checkpoint entry ≡ done (next, w)
      → IsLink now n checkpoint entry w
        × (next_checkpoint V entry.request entry.request.amount n entry.accounted_at ≡ ok next)
  unfolding replay_entry
  entry_sound now n checkpoint entry next w h =
      let (formed, h1) = return_if-then _ _ _ h in
      let (value, valued, h2) = >>=-eq-done _ _ h1 in
      let (checked, h3) = then-eq-done (check_entry_fdc V policy commitment entry) _ h2 in
      let (matches, _, h4) =
        >>=-eq-done (lift (input_commitment_matches V policy entry.request entry.ftso entry.fdc)) _
          h3 in
      let (_, h5) = return_if-then _ _ _ h4 in
      let (c, advanced, h6) = >>=-eq-done _ _ h5 in
      let (same_next, same_w) = pair-injective h6 in
      let g = guard_sound now n checkpoint entry formed in
      (
        record {
          domain = matches_policy_domain_sound policy entry.request commitment g.domain;
          asset = g.asset;
          action = g.action;
          amount_pos = g.amount_pos;
          amount_bound = g.amount_bound;
          occurrence = g.occurrence;
          follows = g.follows;
          created = g.created;
          unexpired = g.unexpired;
          past = g.past;
          time = ap (λ x. x.executed_at) (sym same_w);
          value =
              subst
                (λ v.
                  ((policy.require_ftso ≡ false) × (v ≡ entry.request.amount))
                  ⊎ (ftso_reference_value policy entry.request entry.ftso entry.accounted_at
                      ≡ some v))
                (ap (λ x. x.value) same_w) (value_sound entry value valued);
          proved = proof_sound entry checked;
        },
        lift-eq-done _ advanced ∙ ap ok same_next,
      )

  -- What the loop accepts is a chain.
  replay_from-Chain :
      (now : ℤ) (n : ℕ) (c last : Text) (es : List SpendHistoryEntry) (ws : List SpendWindowEntry)
      → replay_from V policy commitment now n c es ≡ done (last, ws)
      → Chain now n c es last ws
  unfolding replay_from
  replay_from-Chain now n c last [] ws h =
      let (same, none_left) = pair-injective h in
      subst₂ (λ l vs. Chain now n c [] l vs) same none_left start
  replay_from-Chain now n c last (e ∷ es) ws h =
      let ((next, w), first, h1) = >>=-eq-done _ _ h in
      let ((l, vs), rest, h2) = >>=-eq-done _ _ h1 in
      let (same, all_of) = pair-injective h2 in
      let (is_link, advanced) = entry_sound now (pos (suc n)) c e next w first in
      subst₂ (λ l vs. Chain now n c (e ∷ es) l vs) same all_of
        (link is_link advanced (replay_from-Chain now (suc n) next l es vs rest))

  -- The window that the totals are taken over: the policy's, or one second where it has none.
  abbrev pub effective_window : ℤ
  effective_window =
      if policy.rolling_window_seconds ==ℤ pos 0 then pos 1 else policy.rolling_window_seconds

  pub record IsReplayed (state : SpendState) (totals : SpendWindowTotals) : Type 0 where
    pub genesis : Text
    pub first : genesis_spend_checkpoint V commitment ≡ ok genesis
    pub last : Text
    pub window_entries : List SpendWindowEntry
    pub chain : Chain state.now 0 genesis state.history last window_entries
    pub current : SameHex state.spend_checkpoint last
    pub counted : state.occurrence_count ≡ pos (length state.history)
    pub accounted : state.last_accounting_at ≡ last_accounting state.history
    pub totals_of : IsTotals window_entries state.now effective_window totals

  stale_sound :
      (state : SpendState) (last : Text)
      → is_stale_history V policy commitment state last ≡ false
      → (state.occurrence_count ≡ pos (length state.history))
        × (state.last_accounting_at ≡ last_accounting state.history)
        × SameHex state.spend_checkpoint last
  unfolding is_stale_history
  stale_sound state last h = ground (
    arith,
    ==ℤ_iff state.occurrence_count (pos (length state.history)),
    ==ℤ_iff state.last_accounting_at (last_accounting state.history),
    same_hex_iff state.spend_checkpoint last,
  )

  -- A history that the replay accepts is a chain of checkpoints: it begins at the first checkpoint
  -- of the policy's commitment, its entries are numbered from one on, each is a transfer in the
  -- policy's domain that names the checkpoint before it, and it ends at the checkpoint of the state,
  -- whose count and last time are those of the history; and the totals are the sums over the values
  -- of the entries of the day and of the window.
  pub replay_spend_history-IsReplayed :
      (state : SpendState) (totals : SpendWindowTotals)
      → replay_spend_history V policy commitment state ≡ done totals
      → IsReplayed state totals
  unfolding replay_spend_history
  replay_spend_history-IsReplayed state totals h =
      let (_, h1) = return_if-then _ _ _ h in
      let (genesis, first, h2) = >>=-eq-done _ _ h1 in
      let ((last, ws), replayed, h3) = >>=-eq-done _ _ h2 in
      let (current, h4) = return_if-then _ _ _ h3 in
      let (counted, accounted, same) = stale_sound state last current in
      record {
        genesis = genesis;
        first = lift-eq-done _ first;
        last = last;
        window_entries = ws;
        chain =
            replay_from-Chain state.now 0 genesis last state.history ws (caught-eq-done _ replayed);
        current = same;
        counted = counted;
        accounted = accounted;
        totals_of =
            (spend_window_totals_iff ws state.now effective_window totals).0
              (or_return-eq-done _ malformed h4);
      }
