-- ===== src/Protocol/Evaluator/History.antt =====
-- packages/protocol/src/evaluator.ts, lines 118 to 171: the replay of the spend history, which
-- recomputes the chain of checkpoints and hands the values to the spend window.
use xrp_payguard.Base.{
  ℕ, suc, Bool, ◌||◌, not, is_some, List, [], ◌∷◌, none, some, length, ltb, get_last?,
  if◌then◌else◌,
}
use xrp_payguard.Base.Int.{ℤ, pos, ltb_ℤ, leb_ℤ, ◌==ℤ◌, max_uint256, max_uint32}
use xrp_payguard.Text.{Text, same_hex}
use xrp_payguard.Viem.{Viem}
use xrp_payguard.Protocol.Types.{
  Policy, SpendHistoryEntry, SpendState, PublicReasonClass, malformed, stale_input, ftso_invalid,
  fdc_invalid,
}
use xrp_payguard.Protocol.Constants.{action_ftestxrp_transfer}
use xrp_payguard.Protocol.Codec.Encoding.{genesis_spend_checkpoint}
use xrp_payguard.Protocol.SpendWindow.{
  SpendWindowEntry, SpendWindowTotals, spend_window_totals, max_spend_window_entries,
}
use xrp_payguard.Protocol.Evaluator.Step.{
  Step, done, ◌>>=◌, ◌>>◌, return_if, lift, caught, or_return,
}
use xrp_payguard.Protocol.Evaluator.Inputs.{
  matches_policy_domain, ftso_reference_value, valid_fdc_snapshot, input_commitment_matches,
  next_checkpoint,
}

-- `state.history.at(-1)?.accountedAt ?? 0n`
unfoldable pub last_accounting : List SpendHistoryEntry → ℤ
last_accounting history = elim (get_last? history) [
  | none ↦ pos 0
  | some entry ↦ entry.accounted_at
]

module _ (V : Viem) (policy : Policy) (commitment : Text) where
  -- The guard at the head of the loop's body; the occurrence is the index plus one.
  unfoldable pub is_malformed_entry : ℤ → ℤ → Text → SpendHistoryEntry → Bool
  is_malformed_entry now occurrence checkpoint entry =
      ltb_ℤ max_uint32 occurrence
      || (not (matches_policy_domain policy entry.request commitment)
          || (not (same_hex entry.request.asset policy.asset)
              || (not (same_hex entry.request.action_type (action_ftestxrp_transfer V))
                  || (leb_ℤ entry.request.amount (pos 0)
                      || (ltb_ℤ max_uint256 entry.request.amount
                          || (not (entry.request.occurrence ==ℤ occurrence)
                              || (not (same_hex entry.request.spend_checkpoint checkpoint)
                                  || (ltb_ℤ entry.accounted_at entry.request.created_at
                                      || (ltb_ℤ entry.request.expiry entry.accounted_at
                                          || (ltb_ℤ entry.request.grace_deadline
                                                entry.request.created_at
                                              || (ltb_ℤ entry.request.expiry
                                                    entry.request.grace_deadline
                                                  || ltb_ℤ now entry.accounted_at)))))))))))

  unfoldable pub entry_value : SpendHistoryEntry → Step ℤ
  entry_value entry =
      if policy.require_ftso
      then or_return (ftso_reference_value policy entry.request entry.ftso entry.accounted_at)
          ftso_invalid
      else return_if (is_some entry.ftso) malformed >> done entry.request.amount

  unfoldable pub check_entry_fdc : SpendHistoryEntry → Step (Unit {0})
  check_entry_fdc entry =
      if policy.require_fdc
      then return_if (not (valid_fdc_snapshot V policy entry.request entry.fdc entry.accounted_at))
          fdc_invalid
      else return_if (is_some entry.fdc) malformed

  -- `policy.requireFdc ? "FDC_INVALID" : policy.requireFtso ? "FTSO_INVALID" : "MALFORMED"`
  unfoldable pub mismatch_reason : PublicReasonClass
  mismatch_reason =
      if policy.require_fdc
      then fdc_invalid
      else if policy.require_ftso
      then ftso_invalid
      else malformed

  unfoldable pub replay_entry : ℤ → ℤ → Text → SpendHistoryEntry → Step (Text × SpendWindowEntry)
  replay_entry now occurrence checkpoint entry = do
    return_if (is_malformed_entry now occurrence checkpoint entry) malformed
    value ← entry_value entry
    check_entry_fdc entry
    matches ← lift (input_commitment_matches V policy entry.request entry.ftso entry.fdc)
    return_if (not matches) mismatch_reason
    next ← lift (next_checkpoint V entry.request entry.request.amount occurrence entry.accounted_at)
    done (next, record { value = value; executed_at = entry.accounted_at })

  -- The loop, from an index on.
  unfoldable pub replay_from :
      ℤ → ℕ → Text → List SpendHistoryEntry → Step (Text × List SpendWindowEntry)
  replay_from now index checkpoint [] = done (checkpoint, [])
  replay_from now index checkpoint (entry ∷ entries) = do
    (next, window_entry) ← replay_entry now (pos (suc index)) checkpoint entry
    (last, window_entries) ← replay_from now (suc index) next entries
    done (last, window_entry ∷ window_entries)

  unfoldable pub is_stale_history : SpendState → Text → Bool
  is_stale_history state checkpoint =
      not (state.occurrence_count ==ℤ pos (length state.history))
      || (not (state.last_accounting_at ==ℤ last_accounting state.history)
          || not (same_hex state.spend_checkpoint checkpoint))

  unfoldable pub replay_spend_history : SpendState → Step SpendWindowTotals
  replay_spend_history state = do
    return_if (ltb max_spend_window_entries (length state.history)) malformed
    genesis ← lift (genesis_spend_checkpoint V commitment)
    (checkpoint, window_entries) ← caught (replay_from state.now 0 genesis state.history)
    return_if (is_stale_history state checkpoint) stale_input
    or_return
        (spend_window_totals window_entries state.now (
          if policy.rolling_window_seconds ==ℤ pos 0 then pos 1 else policy.rolling_window_seconds))
        malformed
