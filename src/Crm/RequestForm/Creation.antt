-- ===== src/Crm/RequestForm/Creation.antt =====
-- The button for a deal in `save_related` of crm/site/requestadmin.py, and `_get_or_create_deal`.
-- Of the new deal the texts with dates and the next step are left out, and the copies of the files.
pub mod Clean
pub mod Found
pub mod OneDeal
use agamin_crm.Prelude.{
  Bool, List, Option, [], first, if◌then◌else◌, is_some, map, none, not, opt_eq, select, some, ℕ,
  ◌&&◌, ◌++◌, ◌==◌, ◌||◌, ◌∷◌,
}
use agamin_crm.Prelude.Action.{
  Action, Outcome, returned, raised, does_not_exist, multiple_objects_returned, modify, ◌>>=◌, ◌>>◌,
}
use agamin_crm.Common.RemindMe.{same_text}
use agamin_crm.Crm.Records.{Company, Text, Contact, Lead, Request, Db}
use agamin_crm.Crm.Request.Create.{get_department_id}
use agamin_crm.Crm.Payments.{Currency}
use agamin_crm.Crm.Deals.{Stage}
use agamin_crm.Crm.RequestForm.{
  RequestEdit, RequestDeal, RequestEmail, RequestSaving, on_request, notify_deal_owners,
}

-- The tables that a new deal reads: the currency of a department may be empty. The department of
-- the user of the browser is `user_department`.
pub record Settings : Type 0 where
  pub stages : List Stage
  pub currencies : List Currency
  pub department_currency : ℕ → Option ℕ
  pub user_department : Option ℕ

-- The deals of a request with a ticket.
pub is_deal_of : ℕ → Text → RequestDeal → Bool
is_deal_of id ticket d = d.request == id && same_text d.ticket ticket

abbrev pub deals_of : RequestSaving → List RequestDeal
deals_of w = select (is_deal_of w.id w.obj.ticket) w.deals

-- `Currency.objects.get(is_state_currency=True).id`
the_currency : List Currency → Outcome (Option ℕ)
the_currency [] = raised does_not_exist
the_currency (c ∷ []) = returned (some c.id)
the_currency (c ∷ d ∷ cs) = raised multiple_objects_returned

pub currency_of : Settings → Outcome (Option ℕ)
unfolding the_currency
currency_of t = elim t.user_department [
  | none ↦ the_currency (select (λ c. c.is_state_currency) t.currencies)
  | some k ↦ returned (t.department_currency k)
]

default_stage : Option ℕ → Settings → Option ℕ
default_stage dep t = elim (first (select (λ s. opt_eq s.department dep && s.default) t.stages)) [
  | none ↦ none
  | some s ↦ some s.id
]

-- The deal before its parties are entered; `key` is that of the new row.
pub bare_deal : Settings → ℕ → ℕ → Option ℕ → Option ℕ → Request → RequestDeal
unfolding default_stage
bare_deal t key id dep currency r = record {
  id = key;
  request = id;
  ticket = r.ticket;
  name = r.request_for;
  description = r.remark;
  owner = r.owner;
  co_owner = r.co_owner;
  department = dep;
  stage = default_stage dep t;
  currency = currency;
  contact = none;
  company = none;
  lead = none;
  country = none;
  city = none;
  products = r.products;
}

-- The contact with its company, or the lead.
pub enter_parties : Option Contact → Option Lead → RequestDeal → RequestDeal
enter_parties (some c) l d = record d {
  contact = some c;
  company = some c.company;
  country = c.company.country;
  city = c.company.city;
}
enter_parties none (some l) d = record d { lead = some l; country = l.country; city = l.city }
enter_parties none none d = d

pub new_deal : Settings → ℕ → ℕ → Option ℕ → Option ℕ → Request → RequestDeal
unfolding bare_deal enter_parties
new_deal t key id dep currency r =
    enter_parties r.contact r.lead (bare_deal t key id dep currency r)

pub store_deal : RequestDeal → Action RequestSaving RequestDeal
store_deal d w = (returned d, record w { deals = w.deals ++ (d ∷ []) })

module _ (db : Db) (t : Settings) (key : ℕ) where
  pub finish_deal : Option ℕ → Outcome (Option ℕ) → Action RequestSaving RequestDeal
  unfolding new_deal store_deal
  finish_deal dep (returned c) w = store_deal (new_deal t key w.id dep c w.obj) w
  finish_deal dep (raised e) w = (raised e, w)

  -- `except Deal.DoesNotExist`
  pub make_deal : Action RequestSaving RequestDeal
  unfolding on_request finish_deal currency_of
  make_deal = do
    dep ← on_request (λ r. get_department_id db r.owner r)
    finish_deal dep (currency_of t)

  pub choose_deal : List RequestDeal → Action RequestSaving RequestDeal
  unfolding make_deal
  choose_deal [] w = make_deal w
  choose_deal (d ∷ []) w = (returned d, w)
  choose_deal (d ∷ e ∷ ds) w = (raised multiple_objects_returned, w)

  pub get_or_create_deal : Action RequestSaving RequestDeal
  unfolding choose_deal is_deal_of
  get_or_create_deal w = choose_deal (deals_of w) w

-- The company of the contact where the request has none.
pub company_with : Option Contact → Option Company → Option Company
company_with none k = k
company_with (some c) none = some c.company
company_with (some c) (some k) = some k

-- `obj.deal = d`, and the company.
pub take_deal : RequestDeal → Request → Request
unfolding company_with
take_deal d r = record r { deal = some d.id; company = company_with r.contact r.company }

-- `obj.save(update_fields=update_fields)`: the deal, and the company where it was just set. The row
-- is that which `save_model` wrote.
pub write_deal : Request → Request → Option Request → Option Request
write_deal before r none = none
write_deal before r (some row) =
    if is_some before.contact && not (is_some before.company)
    then some (record row { deal = r.deal; company = r.company })
    else some (record row { deal = r.deal })

pub is_unlinked : Text → RequestEmail → Bool
is_unlinked ticket e = same_text e.ticket ticket && not (is_some e.deal)

pub give_deal : Text → RequestDeal → RequestEmail → RequestEmail
unfolding is_unlinked
give_deal ticket d e = if is_unlinked ticket e then record e { deal = some d.id } else e

pub link_deal : RequestDeal → RequestSaving → RequestSaving
unfolding take_deal write_deal give_deal
link_deal d w = record w {
  obj = take_deal d w.obj;
  row = write_deal w.obj (take_deal d w.obj) w.row;
  emails = map (give_deal w.obj.ticket d) w.emails;
}

pub enter_deal : ℕ → RequestDeal → Action RequestSaving (Unit {0})
unfolding link_deal
enter_deal user d = do modify (link_deal d); notify_deal_owners user d

-- `if not any((obj.pending, obj.deal, obj.duplicate))`
pub is_wanted : Request → Bool
is_wanted r = not (r.pending || is_some r.deal || r.duplicate)

module _ (db : Db) (t : Settings) (key : ℕ) where
  pub create_deal : RequestEdit → Action RequestSaving (Unit {0})
  unfolding is_wanted get_or_create_deal enter_deal
  create_deal f w =
      if f.deal_button && is_wanted w.obj
      then (get_or_create_deal db t key >>= enter_deal f.user) w
      else (returned tt, w)
