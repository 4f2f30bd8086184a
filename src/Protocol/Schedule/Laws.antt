-- ===== src/Protocol/Schedule/Laws.antt =====
-- The checked arithmetic of a schedule window is exact: it is refused exactly when its inputs are
-- out of range or its deadline does not fit in 64 bits.
use native.Mathlib.Nat.{le-div_iff_mul-le, mul_comm}
use native.Mathlib.Decide.{dec_le}
use xrp_payguard.Base.{
  ℕ, zero, suc, ◌+◌, ◌-◌, ◌*◌, ◌/◌, ◌^◌, ◌≤◌, ◌<◌, ◌≡◌, ◌↔◌, some, arith, ap, sym, ◌∙◌, Bool-cases,
  inl, inr, false,
}
use xrp_payguard.Base.Int.{
  ℤ, pos, negsuc, ◌+ℤ◌, ◌-ℤ◌, ◌*ℤ◌, max_uint64, max_uint32, ◌<ℤ◌, ◌≤ℤ◌, add_pos, mul_pos, div_pos,
  sub_pos,
}
use xrp_payguard.Protocol.Schedule.{
  ScheduleWindow, out_of_range, close_window, window_at, schedule_window,
}

-- The inputs that a schedule may have.
pub record IsSchedulable (start_at interval grace occurrence : ℤ) : Type 0 where
  pub start_nonneg : pos 0 ≤ℤ start_at
  pub start_bound : start_at ≤ℤ max_uint64
  pub interval_bound : interval ≤ℤ max_uint64
  pub grace_pos : pos 0 <ℤ grace
  pub grace_bound : grace <ℤ interval
  pub occurrence_pos : pos 0 <ℤ occurrence
  pub occurrence_bound : occurrence ≤ℤ max_uint32

pub record IsWindow (start_at interval grace occurrence : ℤ) (w : ScheduleWindow) : Type 0 where
  pub schedulable : IsSchedulable start_at interval grace occurrence
  pub slot_eq : w.slot ≡ start_at +ℤ (occurrence -ℤ pos 1) *ℤ interval
  pub deadline_eq : w.deadline ≡ w.slot +ℤ grace
  pub fits : w.deadline ≤ℤ max_uint64

out_of_range-eq-false_iff : (s i g o : ℤ) → (out_of_range s i g o ≡ false) ↔ IsSchedulable s i g o
unfolding out_of_range
out_of_range-eq-false_iff s i g o = ground arith

slot_fits :
    (s i k : ℕ) → s ≤ 2 ^ 64 - 1 → 0 < k → (i ≤ (2 ^ 64 - 1 - s) / k) ↔ (s + k * i ≤ 2 ^ 64 - 1)
slot_fits s i k h p = (
  (λ q. omega (arith, (le-div_iff_mul-le p).0 q, mul_comm k i)),
  (λ q. (le-div_iff_mul-le p).1 (omega (arith, mul_comm k i))),
)

close_window_iff :
    (n g : ℕ) (w : ScheduleWindow)
    → n ≤ 2 ^ 64 - 1
    → (close_window (pos n) (pos g) ≡ some w)
      ↔ ((w.slot ≡ pos n) × (w.deadline ≡ pos (n + g)) × (n + g ≤ 2 ^ 64 - 1))
unfolding close_window
close_window_iff n g w h = rw (sub_pos (2 ^ 64 - 1) n h, add_pos n g) (ground arith)

window_at_iff :
    (s i g k : ℕ) (w : ScheduleWindow)
    → s ≤ 2 ^ 64 - 1
    → i ≤ 2 ^ 64 - 1
    → (window_at (pos s) (pos i) (pos g) (pos k) ≡ some w) ↔ (
        (w.slot ≡ pos (s + k * i))
        × (w.deadline ≡ pos (s + k * i + g))
        × (s + k * i + g ≤ 2 ^ 64 - 1))
unfolding window_at
window_at_iff s i g zero w hs hi =
    rw (mul_pos 0 i, add_pos s (0 * i)) (close_window_iff (s + 0 * i) g w (omega arith))
window_at_iff s i g (suc k) w hs hi =
    rw
      (
        sub_pos (2 ^ 64 - 1) s hs,
        div_pos (2 ^ 64 - 1 - s) (suc k),
        mul_pos (suc k) i,
        add_pos s (suc k * i),
      )
      (elim (dec_le (s + suc k * i) (2 ^ 64 - 1)) [
        | yes small ↦ ground (
          arith,
          (slot_fits s i (suc k) hs (omega arith)).1 small,
          close_window_iff (s + suc k * i) g w small,
        )
        | no large ↦ ground (arith, (slot_fits s i (suc k) hs (omega arith)).0)
      ])

-- In range the test passes on to the arithmetic, which is done on natural numbers.
in_range_iff :
    (s i g o : ℤ) (w : ScheduleWindow)
    → IsSchedulable s i g o
    → (window_at s i g (o -ℤ pos 1) ≡ some w) ↔ IsWindow s i g o w
in_range_iff (pos s) (pos i) (pos g) (pos o) w h =
    let index = sub_pos o 1 (omega arith) in
    let slot : pos s +ℤ (pos o -ℤ pos 1) *ℤ pos i ≡ pos (s + (o - 1) * i) =
      rw (index, mul_pos (o - 1) i) (add_pos s ((o - 1) * i)) in
    let (to, from) = window_at_iff s i g (o - 1) w (omega arith) (omega arith) in
    rw index (
      (λ e.
          let (at, until, fit) = to e in
          record {
            schedulable = h;
            slot_eq = at ∙ sym slot;
            deadline_eq = rw (at, until) (sym (add_pos _ g));
            fits = rw until (omega arith);
          }),
      (λ d.
          let at = d.slot_eq ∙ slot in
          let until : w.deadline ≡ pos (s + (o - 1) * i + g) =
            d.deadline_eq ∙ ap (λ n. n +ℤ pos g) at ∙ add_pos _ g in
          let fit : pos (s + (o - 1) * i + g) ≤ℤ max_uint64 = rw until at d.fits in
          from (at, until, omega arith)),
    )
in_range_iff (pos s) (pos i) (pos g) (negsuc o) w h = absurd (omega arith)
in_range_iff (pos s) (pos i) (negsuc g) o w h = absurd (omega arith)
in_range_iff (pos s) (negsuc i) g o w h = absurd (omega arith)
in_range_iff (negsuc s) i g o w h = absurd (omega arith)

-- A window is given exactly when the inputs are in range and its deadline, computed without any
-- bound, fits in 64 bits; and then its slot and deadline are the unbounded ones.
pub schedule_window_iff :
    (s i g o : ℤ) (w : ScheduleWindow) → (schedule_window s i g o ≡ some w) ↔ IsWindow s i g o w
unfolding schedule_window
schedule_window_iff s i g o w = elim (Bool-cases (out_of_range s i g o)) [
  | inl bad ↦ rw bad ((λ e. cc), (λ d. cc ((out_of_range-eq-false_iff s i g o).1 d.schedulable)))
  | inr good ↦ rw good (in_range_iff s i g o w ((out_of_range-eq-false_iff s i g o).0 good))
]

-- The slot of a window as a natural number.
slot_value :
    (s i g o : ℕ) (w : ScheduleWindow)
    → IsWindow (pos s) (pos i) (pos g) (pos o) w
    → (w.slot ≡ pos (s + (o - 1) * i)) × (w.deadline ≡ pos (s + (o - 1) * i + g))
slot_value s i g o w d =
    let h = d.schedulable in
    let to = (window_at_iff s i g (o - 1) w (omega arith) (omega arith)).0 in
    let (at, until, _) = to (
      rw (sub_pos o 1 (omega arith)) at ((in_range_iff (pos s) (pos i) (pos g) (pos o) w h).1 d)) in
    (at, until)

step_le : (i a b : ℕ) → a < b → a * i + i ≤ b * i
step_le i a b h = grind arith

IsWindow-lt :
    (s i g o o' : ℤ) (w w' : ScheduleWindow)
    → o <ℤ o'
    → IsWindow s i g o w
    → IsWindow s i g o' w'
    → w.deadline <ℤ w'.slot
IsWindow-lt (pos s) (pos i) (pos g) (pos o) (pos o') w w' h d d' =
    let (at, until) = slot_value s i g o w d in
    let (at', until') = slot_value s i g o' w' d' in
    let a = d.schedulable in
    rw (until, at') (omega (arith, step_le i (o - 1) (o' - 1) (omega arith)))
IsWindow-lt (pos s) (pos i) (pos g) (pos o) (negsuc o') w w' h d d' = absurd (omega arith)
IsWindow-lt (pos s) (pos i) (pos g) (negsuc o) o' w w' h d d' =
    absurd (let a = d.schedulable in omega arith)
IsWindow-lt (pos s) (pos i) (negsuc g) o o' w w' h d d' =
    absurd (let a = d.schedulable in omega arith)
IsWindow-lt (pos s) (negsuc i) g o o' w w' h d d' = absurd (let a = d.schedulable in omega arith)
IsWindow-lt (negsuc s) i g o o' w w' h d d' = absurd (let a = d.schedulable in omega arith)

-- Windows of one schedule do not overlap: the deadline of an earlier occurrence comes strictly
-- before the slot of a later one.
pub schedule_window-lt :
    (s i g o o' : ℤ) (w w' : ScheduleWindow)
    → o <ℤ o'
    → schedule_window s i g o ≡ some w
    → schedule_window s i g o' ≡ some w'
    → w.deadline <ℤ w'.slot
schedule_window-lt s i g o o' w w' h e e' =
    IsWindow-lt s i g o o' w w' h ((schedule_window_iff s i g o w).0 e)
      ((schedule_window_iff s i g o' w').0 e')
