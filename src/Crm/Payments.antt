-- ===== src/Crm/Payments.antt =====
-- Currencies, payments and rates: crm/models/payment.py. A rate counts units of 10 ^ -8, as its
-- DecimalField does; a date is a number of days, and a foreign key is the key of its row. The date of
-- the last change of a currency is left out.
pub mod Unique
use agamin_crm.Prelude.{
  Bool, List, Option, [], false, first, if◌then◌else◌, is_some, none, select, some, true, ℕ, ◌&&◌,
  ◌++◌, ◌==◌, ◌∷◌,
}
use agamin_crm.Prelude.Action.{
  Action, returned, raised, attribute_error, validation_error, does_not_exist,
}
use agamin_crm.Crm.Records.{Text, given}

abbrev pub one : ℕ
one = 100000000

pub record Currency : Type 0 where
  pub id : ℕ
  pub name : Text
  pub rate_to_state_currency : ℕ
  pub rate_to_marketing_currency : ℕ
  pub is_state_currency : Bool
  pub is_marketing_currency : Bool
  pub auto_update : Bool

-- `Currency.save`. It assigns 1.0 to the flag of the state currency, which is true before and after.
unfoldable pub save_currency : Currency → Currency
save_currency c = record c {
  is_state_currency = if c.is_state_currency then true else c.is_state_currency;
  rate_to_marketing_currency =
      if c.is_marketing_currency then one else c.rate_to_marketing_currency;
}

pub data Status : Type 0 where
  received guaranteed high_probability low_probability : Status

unfoldable pub is_received : Status → Bool
is_received received = true
is_received guaranteed = false
is_received high_probability = false
is_received low_probability = false

pub record Payment : Type 0 where
  pub amount : ℕ
  pub currency : Option ℕ
  pub deal : ℕ
  pub payment_date : ℕ
  pub status : Status
  pub contract_number : Text
  pub invoice_number : Text
  pub order_number : Text
  pub through_representation : Bool

-- `BasePayment.clean`
pub clean_payment : Action Payment (Unit {0})
clean_payment p = if is_some p.currency then (returned tt, p) else (raised validation_error, p)

pub data RateType : Type 0 where
  approximate official : RateType

unfoldable pub is_official : RateType → Bool
is_official approximate = false
is_official official = true

pub record Rate : Type 0 where
  pub currency : ℕ
  pub payment_date : ℕ
  pub rate_to_state_currency : ℕ
  pub rate_to_marketing_currency : ℕ
  pub rate_type : RateType

-- `currency=..., payment_date=...`
unfoldable pub is_for : ℕ → ℕ → Rate → Bool
is_for currency date r = r.currency == currency && r.payment_date == date

-- The tables.
pub record Books : Type 0 where
  pub currencies : List Currency
  pub payments : List Payment
  pub rates : List Rate

-- The rate that a payment gets while there is no better one.
pub approximate_rate : Currency → ℕ → Rate
approximate_rate c date = record {
  currency = c.id;
  payment_date = date;
  rate_to_state_currency = c.rate_to_state_currency;
  rate_to_marketing_currency = c.rate_to_marketing_currency;
  rate_type = approximate;
}

-- `currency.refresh_from_db()` and `rate.save()`
add_rate : Option Currency → ℕ → Action Books (Unit {0})
unfolding approximate_rate
add_rate none date b = (raised does_not_exist, b)
add_rate (some c) date b =
    (returned tt, record b { rates = b.rates ++ (approximate_rate c date ∷ []) })

-- `if not rate_model.objects.filter(...).exists()`
ensure_rate : Option ℕ → ℕ → Action Books (Unit {0})
unfolding is_for add_rate
ensure_rate none date b = (raised attribute_error, b)
ensure_rate (some k) date b =
    if given (select (is_for k date) b.rates)
    then (returned tt, b)
    else add_rate (first (select (λ c. c.id == k) b.currencies)) date b

-- `Payment.save` of a new payment: the row is written first.
pub save_payment : Payment → Action Books (Unit {0})
unfolding ensure_rate is_received
save_payment p b =
    let saved : Books = record b { payments = b.payments ++ (p ∷ []) } in
    if is_received p.status
    then ensure_rate p.currency p.payment_date saved
    else (returned tt, saved)
