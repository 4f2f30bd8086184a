-- ===== src/Protocol/SpendWindow/Laws.antt =====
-- The loop of the spend window against sums over the entries of the day and of the window.
use xrp_payguard.Base.{
  ℕ, suc, ◌≡◌, refl, ◌↔◌, Option, some, arith, if◌then◌else◌, Bool-cases, inl, inr, Bool, true,
  false, ◌||◌, not, List, [], ◌∷◌,
}
use xrp_payguard.Base.Int.{
  ℤ, pos, ◌+ℤ◌, ltb_ℤ, leb_ℤ, max_uint64, max_uint256, ◌<ℤ◌, ◌≤ℤ◌, +ℤ_parts, -ℤ_parts, eq_of_parts,
}
use xrp_payguard.Protocol.SpendWindow.{
  SpendWindowEntry, SpendWindowTotals, is_bad_entry, add_checked, sum_entries, ◌>>=◌,
}

-- An entry that a history may hold at `now`.
pub record IsEntry (now : ℤ) (e : SpendWindowEntry) : Type 0 where
  pub value_pos : pos 0 <ℤ e.value
  pub value_bound : e.value ≤ℤ max_uint256
  pub at_nonneg : pos 0 ≤ℤ e.executed_at
  pub at_now : e.executed_at ≤ℤ now
  pub at_bound : e.executed_at ≤ℤ max_uint64

-- The entries lie in range and their times do not fall, from `prior` on.
abbrev pub IsHistory : ℤ → ℤ → List SpendWindowEntry → Type 0
IsHistory now prior [] = Unit
IsHistory now prior (e ∷ es) =
    IsEntry now e × (prior ≤ℤ e.executed_at) × IsHistory now e.executed_at es

-- The sum of the values of the entries whose time passes a test.
abbrev pub sum_where : (ℤ → Bool) → List SpendWindowEntry → ℤ
sum_where p [] = pos 0
sum_where p (e ∷ es) = if p e.executed_at then e.value +ℤ sum_where p es else sum_where p es

is_bad_entry-eq-false_iff :
    (now : ℤ) (index : ℕ) (prior : ℤ) (e : SpendWindowEntry)
    → (index ≡ 0 → prior ≡ pos 0)
    → (is_bad_entry now index prior e ≡ false) ↔ (IsEntry now e × (prior ≤ℤ e.executed_at))
unfolding is_bad_entry
is_bad_entry-eq-false_iff now index prior e h = ground arith

-- What `add_checked` adds to, when it does not refuse.
abbrev pub plus_if : Bool → ℤ → ℤ → ℤ
plus_if p v s = if p then s +ℤ v else s

abbrev pub Fits : Bool → ℤ → ℤ → Type 0
Fits p v s = p ≡ true → (s +ℤ v) ≤ℤ max_uint256

pub sum_where_nonneg :
    (p : ℤ → Bool) (now prior : ℤ) (es : List SpendWindowEntry)
    → IsHistory now prior es
    → pos 0 ≤ℤ sum_where p es
sum_where_nonneg p now prior [] h = omega arith
sum_where_nonneg p now prior (e ∷ es) (ok, _, h) =
    ground (arith, sum_where_nonneg p now e.executed_at es h, +ℤ_parts e.value (sum_where p es))

-- One addition more, and the sums on the two sides.
plus_sum :
    (b : Bool) (v s r total : ℤ)
    → pos 0 ≤ℤ r
    → pos 0 <ℤ v
    → s ≤ℤ max_uint256
    → (Fits b v s × (total ≡ plus_if b v s +ℤ r) × (total ≤ℤ max_uint256))
      ↔ ((total ≡ s +ℤ (if b then v +ℤ r else r)) × (total ≤ℤ max_uint256))
plus_sum true v s r total h p q = ground (
  arith,
  +ℤ_parts s v,
  +ℤ_parts (s +ℤ v) r,
  +ℤ_parts v r,
  +ℤ_parts s (v +ℤ r),
  eq_of_parts total ((s +ℤ v) +ℤ r),
  eq_of_parts total (s +ℤ (v +ℤ r)),
)
plus_sum false v s r total h p q = ground arith

plus_if-le : (b : Bool) (v s : ℤ) → s ≤ℤ max_uint256 → Fits b v s → plus_if b v s ≤ℤ max_uint256
plus_if-le b v s h f = ground arith

add_checked-bind :
    {T : Type 0} (p : Bool) (v s : ℤ) (k : ℤ → Option T) (t : T)
    → ((add_checked p v s >>= k) ≡ some t) ↔ (Fits p v s × (k (plus_if p v s) ≡ some t))
unfolding add_checked
add_checked-bind p v s k t = ground (arith, +ℤ_parts s v, -ℤ_parts max_uint256 s)

module _ (now day_start : ℤ) (has_lower : Bool) (lower : ℤ) where
  abbrev pub of_day : ℤ → Bool
  of_day at = leb_ℤ day_start at

  abbrev pub of_window : ℤ → Bool
  of_window at = not has_lower || ltb_ℤ lower at

  sum_entries-cons :
      (index : ℕ) (prior d r : ℤ) (e : SpendWindowEntry) (es : List SpendWindowEntry)
      (t : SpendWindowTotals)
      → (sum_entries now day_start has_lower lower index prior d r (e ∷ es) ≡ some t) ↔ (
          (is_bad_entry now index prior e ≡ false)
          × Fits (of_day e.executed_at) e.value d
          × Fits (of_window e.executed_at) e.value r
          × (sum_entries now day_start has_lower lower
                (suc index)
                e.executed_at
                (plus_if (of_day e.executed_at) e.value d)
                (plus_if (of_window e.executed_at) e.value r)
                es
              ≡ some t))
  unfolding sum_entries
  sum_entries-cons index prior d r e es t = elim (Bool-cases (is_bad_entry now index prior e)) [
    | inl bad ↦ rw bad ((λ q. cc), (λ q. cc (q.0)))
    | inr good ↦ rw good (
      (λ q.
          let (f, q') = (add_checked-bind _ _ _ _ t).0 q in
          let (g, q'') = (add_checked-bind _ _ _ _ t).0 q' in (refl, f, g, q'')),
      (λ q. (add_checked-bind _ _ _ _ t).1 (q.1, (add_checked-bind _ _ _ _ t).1 (q.2, q.3))),
    )
  ]

  pub sum_entries_iff :
      (index : ℕ) (prior d r : ℤ) (es : List SpendWindowEntry) (t : SpendWindowTotals)
      → (index ≡ 0 → prior ≡ pos 0)
      → d ≤ℤ max_uint256
      → r ≤ℤ max_uint256
      → (sum_entries now day_start has_lower lower index prior d r es ≡ some t) ↔ (
          IsHistory now prior es
          × (t.daily_spend ≡ d +ℤ sum_where of_day es)
          × (t.daily_spend ≤ℤ max_uint256)
          × (t.rolling_spend ≡ r +ℤ sum_where of_window es)
          × (t.rolling_spend ≤ℤ max_uint256))
  unfolding sum_entries
  sum_entries_iff index prior d r [] t h hd hr = ground (
    arith,
    +ℤ_parts d (pos 0),
    +ℤ_parts r (pos 0),
    eq_of_parts d (d +ℤ pos 0),
    eq_of_parts r (r +ℤ pos 0),
  )
  sum_entries_iff index prior d r (e ∷ es) t h hd hr =
      let at = e.executed_at in
      let d' = plus_if (of_day at) e.value d in
      let r' = plus_if (of_window at) e.value r in
      let step = sum_entries-cons index prior d r e es t in
      let fine = is_bad_entry-eq-false_iff now index prior e h in
      let ih = λ (fd : Fits (of_day at) e.value d) (fr : Fits (of_window at) e.value r).
        sum_entries_iff (suc index) at d' r' es t (λ z. absurd (omega arith))
          (plus_if-le _ e.value d hd fd) (plus_if-le _ e.value r hr fr) in
      (
        (λ q.
            let (good, fd, fr, rest) = step.0 q in
            let (entry, later) = fine.0 good in
            let (hist, td, bd, tr, br) = (ih fd fr).0 rest in
            let day =
              (plus_sum (of_day at) e.value d (sum_where of_day es) t.daily_spend
                  (sum_where_nonneg of_day now at es hist) entry.value_pos hd).0
                (fd, td, bd) in
            let win =
              (plus_sum (of_window at) e.value r (sum_where of_window es) t.rolling_spend
                  (sum_where_nonneg of_window now at es hist) entry.value_pos hr).0
                (fr, tr, br) in
            ((entry, later, hist), day.0, day.1, win.0, win.1)),
        (λ q.
            let ((entry, later, hist), td, bd, tr, br) = q in
            let day =
              (plus_sum (of_day at) e.value d (sum_where of_day es) t.daily_spend
                  (sum_where_nonneg of_day now at es hist) entry.value_pos hd).1
                (td, bd) in
            let win =
              (plus_sum (of_window at) e.value r (sum_where of_window es) t.rolling_spend
                  (sum_where_nonneg of_window now at es hist) entry.value_pos hr).1
                (tr, br) in
            step.1 (
              fine.1 (entry, later),
              day.0,
              win.0,
              (ih day.0 win.0).1 (hist, day.1, day.2, win.1, win.2),
            )),
      )
