-- ===== src/Massmail/BusinessTime.antt =====
-- `get_seconds_to_business_time` of massmail/utils/sendmassmail.py. Local times are counted in
-- microseconds from midnight, so the result is the float's value times a million. Weekdays count
-- from Monday, 0. `now.replace(hour=..., minute=...)` keeps the seconds of `now`.
pub mod Arrival
use agamin_crm.Prelude.{if◌then◌else◌, leb, ltb, ℕ, ◌*◌, ◌+◌, ◌-◌}

abbrev pub minute : ℕ
minute = 60_000_000

abbrev pub day : ℕ
day = 86_400_000_000

-- Friday, Saturday and Sunday are put off to Monday.
days_off : ℕ → ℕ
days_off weekday = if leb 4 weekday then (7 - weekday) * day else 0

-- `minutes` and `rest` make up the time of day; `from` and `until` are business hours in minutes.
unfoldable pub get_seconds_to_business_time : ℕ → ℕ → ℕ → ℕ → ℕ → ℕ
unfolding days_off
get_seconds_to_business_time weekday minutes rest from until =
    let now = minutes * minute + rest in
    let bt_start = from * minute + rest + days_off weekday in
    let bt_end = until * minute + rest + days_off weekday in
    if ltb now bt_start then bt_start - now else if ltb bt_end now then day + bt_start - now else 0
