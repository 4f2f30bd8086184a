-- ===== src/Protocol/SpendWindow.antt =====
-- packages/protocol/src/spend-window.ts: what an ordered history spent on the UTC day of `now` and
-- in the sliding window that ends at `now`.
pub mod Laws
pub mod Totals
use xrp_payguard.Base.{
  ℕ, suc, Bool, true, ◌||◌, ◌&&◌, not, Option, none, some, List, [], ◌∷◌, if◌then◌else◌, ltb,
  length,
}
use xrp_payguard.Base.Int.{ℤ, pos, ◌+ℤ◌, ◌-ℤ◌, ◌*ℤ◌, ◌/ℤ◌, ltb_ℤ, leb_ℤ, max_uint64, max_uint256}

abbrev pub max_spend_window_entries : ℕ
max_spend_window_entries = 4096

pub record SpendWindowEntry : Type 0 where
  pub value : ℤ
  pub executed_at : ℤ

pub record SpendWindowTotals : Type 0 where
  pub daily_spend : ℤ
  pub rolling_spend : ℤ

-- The guard at the head of the loop's body; `index` counts the entries before this one.
unfoldable pub is_bad_entry : ℤ → ℕ → ℤ → SpendWindowEntry → Bool
is_bad_entry now index prior_timestamp entry =
    leb_ℤ entry.value (pos 0)
    || (ltb_ℤ max_uint256 entry.value
        || (ltb_ℤ entry.executed_at (pos 0)
            || (ltb_ℤ now entry.executed_at
                || (ltb_ℤ max_uint64 entry.executed_at
                    || ltb 0 index && ltb_ℤ entry.executed_at prior_timestamp))))

-- `if (counted) { if (value > MAX_UINT256 - sum) return null; sum += value; }`
unfoldable pub add_checked : Bool → ℤ → ℤ → Option ℤ
add_checked counted value sum =
    if counted
    then if ltb_ℤ (max_uint256 -ℤ sum) value then none else some (sum +ℤ value)
    else some sum

infixl 5 ◌>>=◌
abbrev ◌>>=◌ : {A B : Type 0} → Option A → (A → Option B) → Option B
none >>= f = none
some a >>= f = f a

module _ (now day_start : ℤ) (has_lower_bound : Bool) (rolling_lower_bound : ℤ) where
  -- The loop, from an index on, with the variables that it updates.
  unfoldable pub sum_entries : ℕ → ℤ → ℤ → ℤ → List SpendWindowEntry → Option SpendWindowTotals
  sum_entries index prior_timestamp daily_spend rolling_spend [] =
      some (record { daily_spend = daily_spend; rolling_spend = rolling_spend })
  sum_entries index prior_timestamp daily_spend rolling_spend (entry ∷ entries) =
      if is_bad_entry now index prior_timestamp entry then none else do
        daily ← add_checked (leb_ℤ day_start entry.executed_at) entry.value daily_spend
        rolling ←
            add_checked (not has_lower_bound || ltb_ℤ rolling_lower_bound entry.executed_at)
              entry.value rolling_spend
        sum_entries (suc index) entry.executed_at daily rolling entries

unfoldable pub is_bad_window : List SpendWindowEntry → ℤ → ℤ → Bool
is_bad_window entries now rolling_window_seconds =
    ltb_ℤ now (pos 0)
    || (ltb_ℤ max_uint64 now
        || (leb_ℤ rolling_window_seconds (pos 0)
            || (ltb_ℤ max_uint64 rolling_window_seconds
                || ltb max_spend_window_entries (length entries))))

unfoldable pub spend_window_totals : List SpendWindowEntry → ℤ → ℤ → Option SpendWindowTotals
spend_window_totals entries now rolling_window_seconds =
    if is_bad_window entries now rolling_window_seconds
    then none
    else (let day_start = (now /ℤ pos 86400) *ℤ pos 86400 in
        let has_lower_bound = leb_ℤ rolling_window_seconds now in
        let rolling_lower_bound =
          if has_lower_bound then now -ℤ rolling_window_seconds else pos 0 in
        sum_entries now day_start has_lower_bound rolling_lower_bound 0 (pos 0) (pos 0) (pos 0)
          entries)
