-- ===== src/Crm/Rates.antt =====
-- The exchange rates of crm/utils/rates_loader.py. What the backend answers for a currency and a
-- day is a parameter: two rates, or `none` where it reports an error.
pub mod Clock
pub mod Ends
pub mod Unique
use agamin_crm.Prelude.{
  Bool, List, Option, [], false, first, if◌then◌else◌, inl, inr, ltb, map, none, not, select, some,
  suc, zero, ℕ, ◌&&◌, ◌*◌, ◌++◌, ◌+◌, ◌-◌, ◌==◌, ◌∷◌, ◌⊎◌,
}
use agamin_crm.Prelude.Action.{Error, attribute_error, multiple_objects_returned, does_not_exist}
use agamin_crm.Crm.Records.{Text, given}
use agamin_crm.Crm.Payments.{
  Currency, save_currency, Payment, is_received, Rate, is_for, is_official, official,
}

-- Rates to the state currency and to the marketing currency.
pub record Quote : Type 0 where
  pub to_state : ℕ
  pub to_marketing : ℕ

-- `be.get_rates()` for the currency with this name at this day.
abbrev pub Backend : Type 0
Backend = Text → ℕ → Option Quote

-- Seconds from `now` to the appointment, `now` with another hour and minute; both are seconds of
-- the day.
pub seconds_to : ℕ → ℕ → ℕ
seconds_to now appointment =
    if ltb now appointment then appointment - now else 24 * 3600 + appointment - now

update_by : Option Quote → Currency → Currency
unfolding save_currency
update_by none c = c
update_by (some q) c =
    save_currency (record c {
      rate_to_state_currency = q.to_state;
      rate_to_marketing_currency = q.to_marketing;
    })

-- The first loop of `get_rates`, which asks for the day before.
pub update_currency : Backend → ℕ → Currency → Currency
unfolding update_by
update_currency ask today c = if c.auto_update then update_by (ask c.name (today - 1)) c else c

pub update_currencies : Backend → ℕ → List Currency → List Currency
unfolding update_currency
update_currencies ask today cs = map (update_currency ask today) cs

-- Whether a payment has an official rate.
pub has_official : List Rate → Option ℕ → ℕ → Bool
unfolding is_for is_official
has_official rates none date = false
has_official rates (some k) date =
    given (select (λ r. is_for k date r && is_official r.rate_type) rates)

-- The payments that the query takes.
pub is_pending : ℕ → List Rate → Payment → Bool
unfolding has_official is_received
is_pending today rates p =
    ltb p.payment_date today
    && (is_received p.status && not (has_official rates p.currency p.payment_date))

pub make_official : ℕ → ℕ → Quote → Rate → Rate
unfolding is_for
make_official k date q r =
    if is_for k date r
    then record r {
      rate_to_state_currency = q.to_state;
      rate_to_marketing_currency = q.to_marketing;
      rate_type = official;
    }
    else r

pub official_rate : ℕ → ℕ → Quote → Rate
official_rate k date q = record {
  currency = k;
  payment_date = date;
  rate_to_state_currency = q.to_state;
  rate_to_marketing_currency = q.to_marketing;
  rate_type = official;
}

-- `Rate.objects.get` finds none, one or more.
store : ℕ → ℕ → Quote → List Rate → List Rate → Option (List Rate)
unfolding make_official official_rate
store k date q rates [] = some (rates ++ (official_rate k date q ∷ []))
store k date q rates (r ∷ []) = some (map (make_official k date q) rates)
store k date q rates (r ∷ s ∷ rs) = none

pub set_rate : ℕ → ℕ → Quote → List Rate → Option (List Rate)
unfolding store is_for
set_rate k date q rates = store k date q rates (select (is_for k date) rates)

-- How the second loop ends.
pub data End : Type 0 where
  no_payment_left backend_error : End
  crashed : Error → End

-- What is stored, where `Rate.objects.get` does not raise.
stored : Option (List Rate) → End ⊎ List Rate
stored none = inl (crashed multiple_objects_returned)
stored (some after) = inr after

module _ (ask : Backend) (today : ℕ) (currencies : List Currency) (payments : List Payment) where
  -- The first row of the query.
  pub next_payment : List Rate → Option Payment
  unfolding is_pending
  next_payment rates = first (select (is_pending today rates) payments)

  record_quote : ℕ → ℕ → List Rate → Option Quote → End ⊎ List Rate
  unfolding stored set_rate
  record_quote k date rates none = inl backend_error
  record_quote k date rates (some q) = stored (set_rate k date q rates)

  -- The name of the currency, and what the backend says.
  ask_for : ℕ → ℕ → List Rate → Option Currency → End ⊎ List Rate
  unfolding record_quote
  ask_for k date rates none = inl (crashed does_not_exist)
  ask_for k date rates (some c) = record_quote k date rates (ask c.name date)

  -- `payment.currency`, which may be None.
  rate_for : Option ℕ → ℕ → List Rate → End ⊎ List Rate
  unfolding ask_for
  rate_for none date rates = inl (crashed attribute_error)
  rate_for (some k) date rates = ask_for k date rates (first (select (λ c. c.id == k) currencies))

  -- One turn of the loop: it ends, or goes on with other rates.
  turn : Option Payment → List Rate → End ⊎ List Rate
  unfolding rate_for
  turn none rates = inl no_payment_left
  turn (some p) rates = rate_for p.currency p.payment_date rates

  -- `while True`, at most so many turns; `none` where more are needed.
  pub load : ℕ → List Rate → Option (End × List Rate)
  unfolding turn next_payment
  load zero rates = none
  load (suc n) rates = elim (turn (next_payment rates) rates) [
    | inl e ↦ some (e, rates)
    | inr after ↦ load n after
  ]
