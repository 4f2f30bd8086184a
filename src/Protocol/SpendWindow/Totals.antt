-- ===== src/Protocol/SpendWindow/Totals.antt =====
-- The totals of the spend window against their meaning: the UTC day and the sliding window.
use xrp_payguard.Base.{
  ◌≤◌, ◌≡◌, refl, ◌↔◌, some, arith, sym, ◌∙◌, if◌then◌else◌, Bool-cases, inl, inr, Bool, false,
  ◌||◌, not, List, [], ◌∷◌, length,
}
use xrp_payguard.Base.Int.{
  ℤ, pos, negsuc, ◌+ℤ◌, ◌-ℤ◌, ◌*ℤ◌, ◌/ℤ◌, ltb_ℤ, leb_ℤ, ◌==ℤ◌, max_uint64, max_uint256, ◌<ℤ◌, ◌≤ℤ◌,
  int_laws, +ℤ_parts, -ℤ_parts,
}
use xrp_payguard.Protocol.SpendWindow.{
  SpendWindowEntry, SpendWindowTotals, is_bad_window, sum_entries, spend_window_totals,
  max_spend_window_entries,
}
use xrp_payguard.Protocol.SpendWindow.Laws.{
  IsHistory, sum_where, sum_entries_iff, of_day, of_window,
}

abbrev pub same_day : ℤ → ℤ → Bool
same_day now at = (at /ℤ pos 86400) ==ℤ (now /ℤ pos 86400)

-- Strictly after `now - window`.
abbrev pub is_recent : ℤ → ℤ → ℤ → Bool
is_recent now window at = ltb_ℤ now (at +ℤ window)

pub record IsTotals (entries : List SpendWindowEntry) (now window : ℤ) (t : SpendWindowTotals)
    : Type 0 where
  pub now_nonneg : pos 0 ≤ℤ now
  pub now_bound : now ≤ℤ max_uint64
  pub window_pos : pos 0 <ℤ window
  pub window_bound : window ≤ℤ max_uint64
  pub count_bound : length entries ≤ max_spend_window_entries
  pub history : IsHistory now (pos 0) entries
  pub daily_eq : t.daily_spend ≡ sum_where (same_day now) entries
  pub daily_bound : t.daily_spend ≤ℤ max_uint256
  pub rolling_eq : t.rolling_spend ≡ sum_where (is_recent now window) entries
  pub rolling_bound : t.rolling_spend ≤ℤ max_uint256

sum_where_congr :
    (p q : ℤ → Bool) (now prior : ℤ) (es : List SpendWindowEntry)
    → ((at : ℤ) → pos 0 ≤ℤ at → at ≤ℤ now → p at ≡ q at)
    → IsHistory now prior es
    → sum_where p es ≡ sum_where q es
sum_where_congr p q now prior [] same h = refl
sum_where_congr p q now prior (e ∷ es) same (entry, _, h) = rw (
  same e.executed_at entry.at_nonneg entry.at_now,
  sum_where_congr p q now e.executed_at es same h,
)

day_test :
    (now at : ℤ)
    → pos 0 ≤ℤ now
    → pos 0 ≤ℤ at
    → at ≤ℤ now
    → leb_ℤ ((now /ℤ pos 86400) *ℤ pos 86400) at ≡ same_day now at
unfolding ◌/ℤ◌ ◌*ℤ◌
day_test (pos n) (pos a) h k l = ground arith
day_test (pos n) (negsuc a) h k l = absurd (omega arith)
day_test (negsuc n) a h k l = absurd (omega arith)

window_test :
    (now window at : ℤ)
    → pos 0 ≤ℤ now
    → pos 0 ≤ℤ at
    → not (leb_ℤ window now) || ltb_ℤ (if leb_ℤ window now then now -ℤ window else pos 0) at
      ≡ is_recent now window at
window_test now window at h k = ground (arith, +ℤ_parts at window, -ℤ_parts now window)

record IsRange (entries : List SpendWindowEntry) (now window : ℤ) : Type 0 where
  now_nonneg : pos 0 ≤ℤ now
  now_bound : now ≤ℤ max_uint64
  window_pos : pos 0 <ℤ window
  window_bound : window ≤ℤ max_uint64
  count_bound : length entries ≤ max_spend_window_entries

is_bad_window-eq-false_iff :
    (entries : List SpendWindowEntry) (now window : ℤ)
    → (is_bad_window entries now window ≡ false) ↔ IsRange entries now window
unfolding is_bad_window
is_bad_window-eq-false_iff entries now window = ground arith

IsRange-of :
    {entries : List SpendWindowEntry} {now window : ℤ} {t : SpendWindowTotals}
    → IsTotals entries now window t
    → IsRange entries now window
IsRange-of d = ground arith

zero-add : (a : ℤ) → pos 0 +ℤ a ≡ a
zero-add a = omega int_laws

module _ (now window : ℤ) where
  abbrev day_start : ℤ
  day_start = (now /ℤ pos 86400) *ℤ pos 86400

  abbrev lower_bound : ℤ
  lower_bound = if leb_ℤ window now then now -ℤ window else pos 0

  sums :
      (entries : List SpendWindowEntry) (t : SpendWindowTotals)
      → (sum_entries now day_start (leb_ℤ window now) lower_bound 0 (pos 0) (pos 0) (pos 0) entries
          ≡ some t)
        ↔ (IsHistory now (pos 0) entries
            × (t.daily_spend
                ≡ pos 0 +ℤ sum_where (of_day now day_start (leb_ℤ window now) lower_bound) entries)
            × (t.daily_spend ≤ℤ max_uint256)
            × (t.rolling_spend
                ≡ pos 0
                  +ℤ sum_where (of_window now day_start (leb_ℤ window now) lower_bound) entries)
            × (t.rolling_spend ≤ℤ max_uint256))
  sums entries t =
      sum_entries_iff now day_start (leb_ℤ window now) lower_bound 0 (pos 0) (pos 0) (pos 0) entries
        t (λ _. refl) (omega arith) (omega arith)

IsTotals-of_sums :
    (entries : List SpendWindowEntry) (now window : ℤ) (t : SpendWindowTotals)
    → IsRange entries now window
    → (IsHistory now (pos 0) entries
        × (t.daily_spend
            ≡ pos 0
              +ℤ sum_where
                  (of_day now (day_start now window) (leb_ℤ window now) (lower_bound now window))
                  entries)
        × (t.daily_spend ≤ℤ max_uint256)
        × (t.rolling_spend
            ≡ pos 0
              +ℤ sum_where
                  (of_window now (day_start now window) (leb_ℤ window now) (lower_bound now window))
                  entries)
        × (t.rolling_spend ≤ℤ max_uint256))
      ↔ IsTotals entries now window t
IsTotals-of_sums entries now window t range =
    let day : IsHistory now (pos 0) entries → _ = λ (h : IsHistory now (pos 0) entries).
      sum_where_congr
        (of_day now (day_start now window) (leb_ℤ window now) (lower_bound now window))
        (same_day now) now (pos 0) entries (λ at k l. day_test now at range.now_nonneg k l) h in
    let win : IsHistory now (pos 0) entries → _ = λ (h : IsHistory now (pos 0) entries).
      sum_where_congr
        (of_window now (day_start now window) (leb_ℤ window now) (lower_bound now window))
        (is_recent now window) now (pos 0) entries
        (λ at k l. window_test now window at range.now_nonneg k) h in
    (
      (λ (h, d, bd, r, br). record {
        now_nonneg = range.now_nonneg;
        now_bound = range.now_bound;
        window_pos = range.window_pos;
        window_bound = range.window_bound;
        count_bound = range.count_bound;
        history = h;
        daily_eq = d ∙ zero-add _ ∙ day h;
        daily_bound = bd;
        rolling_eq = r ∙ zero-add _ ∙ win h;
        rolling_bound = br;
      }),
      (λ d. (
        d.history,
        d.daily_eq ∙ sym (day d.history) ∙ sym (zero-add _),
        d.daily_bound,
        d.rolling_eq ∙ sym (win d.history) ∙ sym (zero-add _),
        d.rolling_bound,
      )),
    )

-- The totals are given exactly when the clock and the window are positive 64-bit values, there are
-- at most 4096 entries, each with a positive 256-bit value and a time that neither falls nor passes
-- the clock, and both sums fit in 256 bits; and then they are the sums over the entries of the
-- clock's UTC day and over those strictly after the clock less the window.
pub spend_window_totals_iff :
    (entries : List SpendWindowEntry) (now window : ℤ) (t : SpendWindowTotals)
    → (spend_window_totals entries now window ≡ some t) ↔ IsTotals entries now window t
unfolding spend_window_totals
spend_window_totals_iff entries now window t =
    elim (Bool-cases (is_bad_window entries now window)) [
      | inl bad ↦
          rw bad (
            (λ q. cc),
            (λ d. cc ((is_bad_window-eq-false_iff entries now window).1 (IsRange-of d))),
          )
      | inr good ↦
          let range = (is_bad_window-eq-false_iff entries now window).0 good in
          rw good (
            (λ q.
                (IsTotals-of_sums entries now window t range).0 ((sums now window entries t).0 q)),
            (λ d.
                (sums now window entries t).1 ((IsTotals-of_sums entries now window t range).1 d)),
          )
    ]
