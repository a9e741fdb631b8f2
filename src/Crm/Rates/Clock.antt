-- ===== src/Crm/Rates/Clock.antt =====
-- How long `RatesLoader.run` sleeps.
use agamin_crm.Prelude.{arith, ℕ, ◌%◌, ◌+◌, ◌<◌, ◌≡◌, ◌≤◌}
use agamin_crm.Crm.Rates.{seconds_to}

-- For times of the day, the thread sleeps a second at least and a day at most, and wakes up at the
-- appointment's time of the day.
pub seconds_to_lem :
    (now appointment : ℕ)
    → now < 86400
    → appointment < 86400
    → (1 ≤ seconds_to now appointment)
      × (seconds_to now appointment ≤ 86400)
      × ((now + seconds_to now appointment) % 86400 ≡ appointment)
unfolding seconds_to
seconds_to_lem now appointment h k = (ground arith, ground arith, ground arith)
