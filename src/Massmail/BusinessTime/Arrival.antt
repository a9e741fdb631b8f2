-- ===== src/Massmail/BusinessTime/Arrival.antt =====
-- When the pause of the mailing thread ends.
use agamin_crm.Prelude.{arith, if◌then◌else◌, leb, ltb, ℕ, ◌*◌, ◌+◌, ◌<◌, ◌↔◌, ◌≡◌, ◌≤◌}
use agamin_crm.Massmail.BusinessTime.{minute, day, get_seconds_to_business_time}

module _ (weekday minutes rest from until : ℕ) (w : weekday < 7) (m : minutes < 1440)
    (r : rest < minute) (f : from < 1440) (u : until < 1440) (order : from ≤ until) where
  abbrev pub wait : ℕ
  wait = get_seconds_to_business_time weekday minutes rest from until

  -- For a day of the week, a time of the day and business hours that do not end before they start,
  -- there is nothing to wait for exactly from Monday to Thursday within the business hours.
  pub no_wait : (wait ≡ 0) ↔ ((weekday < 4) × (from ≤ minutes) × (minutes ≤ until))
  unfolding get_seconds_to_business_time
  no_wait = (λ e. (ground arith, ground arith, ground arith), λ h. ground arith)

  abbrev pub arrival_day : ℕ
  arrival_day = if leb 4 weekday then 7 else if ltb minutes from then weekday else weekday + 1

  -- For the same, a wait ends at the start of the business hours, in the seconds and smaller units
  -- of the moment it began: of Monday if it began on Friday, Saturday or Sunday; else of the same day
  -- if it began before them, and of the next day, be it a Friday, if it began after them.
  pub wait_ends_at_start :
      0 < wait
      → weekday * day + (minutes * minute + rest) + wait
        ≡ arrival_day * day + (from * minute + rest)
  unfolding get_seconds_to_business_time
  wait_ends_at_start h = ground arith
