-- ===== src/Protocol/Schedule.antt =====
-- packages/protocol/src/schedule.ts: the inclusive window of an occurrence, with checked 64-bit
-- arithmetic.
pub mod Laws
use xrp_payguard.Base.{Bool, ◌||◌, ◌&&◌, not, Option, none, some, if◌then◌else◌}
use xrp_payguard.Base.Int.{
  ℤ, pos, ◌+ℤ◌, ◌-ℤ◌, ◌*ℤ◌, ◌/ℤ◌, ltb_ℤ, leb_ℤ, ◌==ℤ◌, max_uint64, max_uint32,
}

pub record ScheduleWindow : Type 0 where
  pub slot : ℤ
  pub deadline : ℤ

unfoldable pub out_of_range : ℤ → ℤ → ℤ → ℤ → Bool
out_of_range start_at interval_seconds grace_seconds occurrence =
    ltb_ℤ start_at (pos 0)
    || (ltb_ℤ max_uint64 start_at
        || (leb_ℤ interval_seconds (pos 0)
            || (ltb_ℤ max_uint64 interval_seconds
                || (leb_ℤ grace_seconds (pos 0)
                    || (leb_ℤ interval_seconds grace_seconds
                        || (ltb_ℤ max_uint64 grace_seconds
                            || (leb_ℤ occurrence (pos 0) || ltb_ℤ max_uint32 occurrence)))))))

-- The last two lines: the deadline must fit.
unfoldable pub close_window : ℤ → ℤ → Option ScheduleWindow
close_window slot grace_seconds =
    if ltb_ℤ (max_uint64 -ℤ slot) grace_seconds
    then none
    else some (record { slot = slot; deadline = slot +ℤ grace_seconds })

-- From `index` on: the slot must fit.
unfoldable pub window_at : ℤ → ℤ → ℤ → ℤ → Option ScheduleWindow
window_at start_at interval_seconds grace_seconds index =
    if not (index ==ℤ pos 0) && ltb_ℤ ((max_uint64 -ℤ start_at) /ℤ index) interval_seconds
    then none
    else close_window (start_at +ℤ index *ℤ interval_seconds) grace_seconds

unfoldable pub schedule_window : ℤ → ℤ → ℤ → ℤ → Option ScheduleWindow
schedule_window start_at interval_seconds grace_seconds occurrence =
    if out_of_range start_at interval_seconds grace_seconds occurrence
    then none
    else window_at start_at interval_seconds grace_seconds (occurrence -ℤ pos 1)
