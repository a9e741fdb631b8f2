-- ===== src/Crm/Request/Search.antt =====
-- `find_contact_or_lead` and `_set_contact`: whom a request comes from.
pub mod Hits
pub mod Result
use agamin_crm.Prelude.{
  Bool, List, Option, [], false, if◌then◌else◌, is_some, length, ltb, map, none, select, some, true,
  ℕ, ◌&&◌, ◌==◌, ◌||◌, ◌∷◌,
}
use agamin_crm.Prelude.Action.{Action, Outcome, returned, raised, value_error}
use agamin_crm.Crm.Records.{
  given, Request, Person, of_contact, of_lead, same_company, has_phone_query, Db,
}

-- The variables `contacts1` to `contacts3`, which the loop over the two models does not reset, and
-- their lengths, which it does. `None` is `none`.
pub record Found : Type 0 where
  pub contacts1 : Option (List Person)
  pub contacts2 : Option (List Person)
  pub contacts3 : Option (List Person)

abbrev pub people : Option (List Person) → List Person
people none = []
people (some ps) = ps

-- `any((contacts3, contacts2, contacts1))`
pub any_found : Found → Bool
any_found f =
    given (people f.contacts3) || (given (people f.contacts2) || given (people f.contacts1))

-- One round of the loop ends with a person, or goes on to the next model.
pub data Look : Type 0 where
  hit : Person → Look
  miss : Found → Look

-- `self._set_contact(attr, contacts)` and `return True`, on a query set that is not empty.
pub take_first : List Person → Found → Look
take_first [] f = miss f
take_first (p ∷ ps) f = hit p

-- The length that a round knows of a variable: 0 where it did not set it.
abbrev pub size : Bool → Option (List Person) → ℕ
size used ps = if used then length (people ps) else 0

module _ (db : Db) (r : Request) where
  email_fits : Person → Bool
  email_fits p = given r.email && db.by_email r p

  -- The condition that `args` holds once the phone is used.
  pub phone_fits : ℕ → Person → Bool
  unfolding email_fits
  phone_fits n1 p =
      if ltb 1 n1 then db.by_email r p && db.by_phone r p else email_fits p || db.by_phone r p

  -- `kwargs` once the last name is in it, if there is one.
  names_fit : Person → Bool
  names_fit p = db.by_first_name r p && (if given r.last_name then db.by_last_name r p else true)

  pub search1 : List Person → Found → Found
  unfolding email_fits
  search1 rows f = record f {
    contacts1 =
        if given r.email
        then some (select (λ p. email_fits p && db.by_first_name r p) rows)
        else f.contacts1;
  }

  pub search2 : List Person → ℕ → Found → Found
  unfolding phone_fits
  search2 rows n1 f = record f {
    contacts2 =
        if has_phone_query r.phone
        then some (select (λ p. phone_fits n1 p && db.by_first_name r p) rows)
        else f.contacts2;
  }

  pub search3 : List Person → ℕ → ℕ → Found → Found
  unfolding phone_fits names_fit
  search3 rows n1 n2 f = record f {
    contacts3 =
        if given r.last_name && ltb 1 n2
        then some (select (λ p. phone_fits n1 p && names_fit p) rows)
        else f.contacts3;
  }

  -- `contacts4`, and what follows if it gives no one.
  pub search4 : List Person → ℕ → Found → List Person
  unfolding names_fit
  search4 rows n3 f =
      if ltb 1 n3
      then select (db.by_company r) (people f.contacts3)
      else select (λ p. db.by_company r p && names_fit p) rows

  pub fallback : Found → Look
  unfolding any_found take_first
  fallback f =
      if given (people f.contacts3)
      then take_first (people f.contacts3) f
      else if given (people f.contacts2)
      then take_first (people f.contacts2) f
      else take_first (people f.contacts1) f

  pub use_company : List Person → ℕ → Found → Look
  unfolding any_found take_first fallback search4
  use_company rows n3 f =
      if (given r.company_name && any_found f) || given r.last_name
      then (let contacts4 = search4 rows n3 f in
          if given contacts4 then take_first contacts4 f else fallback f)
      else fallback f

  -- Exactly one person found at a stage is taken; the stages are tried in turn.
  pub one_found : List Person → Found → ℕ → Found → ℕ → Found → ℕ → Look
  unfolding use_company
  one_found rows f1 n1 f2 n2 f3 n3 =
      if n1 == 1
      then take_first (people f1.contacts1) f1
      else if n2 == 1
      then take_first (people f2.contacts2) f2
      else if n3 == 1
      then take_first (people f3.contacts3) f3
      else use_company rows n3 f3

  -- One round of the loop, over the rows of one model.
  pub look : List Person → Found → Look
  unfolding search1 search2 search3 one_found
  look rows f =
      let f1 = search1 rows f in
      let n1 = size (given r.email) f1.contacts1 in
      let f2 = search2 rows n1 f1 in
      let n2 = size (has_phone_query r.phone) f2.contacts2 in
      let f3 = search3 rows n1 n2 f2 in
      let n3 = size (given r.last_name && ltb 1 n2) f3.contacts3 in one_found rows f1 n1 f2 n2 f3 n3

-- `_set_contact` with the attribute `contact` or `lead`; Django refuses an object of another model.
unfoldable pub set_contact : Person → Request → Request
set_contact (of_contact c) r =
    let marked : Request = record r { verification_required = true } in
    if is_some r.company
    then (if same_company r.company c.company then record marked { contact = some c } else marked)
    else record marked { contact = some c; company = some c.company }
set_contact (of_lead l) r = record r { lead = some l; verification_required = true }

pub set_as_contact : Person → Request → Outcome Bool × Request
unfolding set_contact
set_as_contact (of_contact c) r = (returned true, set_contact (of_contact c) r)
set_as_contact (of_lead l) r = (raised value_error, r)

pub set_as_lead : Person → Request → Outcome Bool × Request
unfolding set_contact
set_as_lead (of_contact c) r = (raised value_error, r)
set_as_lead (of_lead l) r = (returned true, set_contact (of_lead l) r)

-- The second round, over the leads, with what the first one left in the variables.
pub second_round : Db → Look → Action Request Bool
unfolding set_as_lead
second_round db (hit p) r = set_as_lead p r
second_round db (miss f) r = (returned false, r)

pub first_round : Db → Look → Action Request Bool
unfolding set_as_contact second_round look
first_round db (hit p) r = set_as_contact p r
first_round db (miss f) r = second_round db (look db r (map of_lead db.leads) f) r

pub nothing_yet : Found
nothing_yet = record { contacts1 = none; contacts2 = none; contacts3 = none }

-- `find_contact_or_lead`
pub find_contact_or_lead : Db → Action Request Bool
unfolding first_round look nothing_yet
find_contact_or_lead db r = first_round db (look db r (map of_contact db.contacts) nothing_yet) r
