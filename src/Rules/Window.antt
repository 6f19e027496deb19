-- ===== src/Rules/Window.antt =====
-- `TimeWindow`: a window of the local day, in minutes, which may wrap midnight.
use real_time_policy_authori.Common.{
  ℕ, ◌+◌, ◌-◌, ◌%◌, ◌<◌, ◌≡◌, ◌↔◌, ◌≢◌, Bool, true, ltb, leb, ◌&&◌, ◌||◌, if◌then◌else◌, arith,
}

pub record TimeWindow : Type 0 where
  pub start_minute : ℕ
  pub end_minute : ℕ

unfoldable pub contains : TimeWindow → ℕ → Bool
contains w m =
    if leb w.start_minute w.end_minute
    then leb w.start_minute m && ltb m w.end_minute
    else (leb w.start_minute m || ltb m w.end_minute)

-- For a window and a minute of the day, `contains` is true exactly when the minutes that have passed
-- since the window opened, on a clock that wraps at midnight, are fewer than the window's length.
pub contains-elapsed :
    (w : TimeWindow) (m : ℕ)
    → w.start_minute < 1440
    → w.end_minute < 1440
    → m < 1440
    → (contains w m ≡ true)
      ↔ ((m + 1440 - w.start_minute) % 1440 < (w.end_minute + 1440 - w.start_minute) % 1440)
unfolding contains
contains-elapsed w m hs he hm = ground arith

-- The complement of a window that is not empty is the window with its ends exchanged.
pub contains_swap :
    (a b m : ℕ)
    → a ≢ b
    → contains (record { start_minute = a; end_minute = b }) m
      ≢ contains (record { start_minute = b; end_minute = a }) m
unfolding contains
contains_swap a b m ne = ground arith
