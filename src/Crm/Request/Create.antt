-- ===== src/Crm/Request/Create.antt =====
-- `Request.clean`, `get_or_create_contact_or_lead` and `update_request_data`.
pub mod Accepts
pub mod Linked
use agamin_crm.Prelude.{
  Bool, Option, [], false, first, if◌then◌else◌, is_some, none, not, some, true, ℕ, ◌&&◌,
}
use agamin_crm.Prelude.Action.{
  Action, Outcome, returned, raised, attribute_error, validation_error, ◌>>=◌,
}
use agamin_crm.Crm.Records.{given, Company, Contact, Lead, Request, same_company, Db}
use agamin_crm.Crm.Request.Search.{find_contact_or_lead}
use agamin_crm.Crm.Request.Company.{find_company}

-- `clean`: a contact of another company, or both a contact and a lead.
mismatch : Request → Bool
mismatch r = elim r.contact [
  | none ↦ false
  | some c ↦ is_some r.company && not (same_company r.company c.company)
]

pub clean : Action Request (Unit {0})
unfolding mismatch
clean r =
    if mismatch r
    then (raised validation_error, r)
    else if is_some r.contact && is_some r.lead
    then (raised validation_error, r)
    else (returned tt, r)

-- `get_department_id`: the first department of the user's, if there is one; `None` has no groups.
unfoldable pub get_department_id : Db → Option ℕ → Action Request (Option ℕ)
get_department_id db none r = (raised attribute_error, r)
get_department_id db (some u) r = (returned (first (db.departments u)), r)

-- The contact that is created, with the key that the database gives.
pub new_contact : ℕ → Option ℕ → Company → Request → Contact
new_contact key department c r = record {
  id = key;
  owner = c.owner;
  department = department;
  first_name = r.first_name;
  last_name = r.last_name;
  email = r.email;
  phone = [];
  country = c.country;
  company = c;
}

-- The lead of a request without a company.
lone_lead : ℕ → Option ℕ → Request → Lead
lone_lead key department r = record {
  id = key;
  owner = r.owner;
  department = department;
  first_name = r.first_name;
  last_name = r.last_name;
  email = r.email;
  phone = r.phone;
  lead_source = r.lead_source;
  country = r.country;
  city = r.city;
  city_name = r.city_name;
  company_name = r.company_name;
  disqualified = false;
  company_phone = [];
  company_address = [];
  company_email = [];
  contact = none;
  website = [];
  type = none;
  company = none;
  industry = [];
}

pub new_lead : ℕ → Option ℕ → Request → Lead
unfolding lone_lead
new_lead key department r = elim r.company [
  | none ↦ lone_lead key department r
  | some c ↦ record (lone_lead key department r) {
    company = some c;
    company_name = c.full_name;
    website = c.website;
    company_email = c.email;
    type = c.type;
    industry = c.industry;
  }
]

pub fill_lead : ℕ → Option ℕ → Action Request (Unit {0})
unfolding new_lead
fill_lead key department r = (
  returned tt,
  record r {
    lead = some (new_lead key department r);
    company = none;
    verification_required = true;
  },
)

pub create_lead : Db → ℕ → Action Request (Unit {0})
unfolding get_department_id fill_lead
create_lead db key r = (get_department_id db r.owner >>= fill_lead key) r

pub fill_contact : ℕ → Company → Option ℕ → Action Request (Unit {0})
unfolding new_contact
fill_contact key c department r = (
  returned tt,
  record r { contact = some (new_contact key department c r); verification_required = true },
)

pub create_contact : Db → ℕ → Company → Action Request (Unit {0})
unfolding get_department_id fill_contact
create_contact db key c r = (get_department_id db c.owner >>= fill_contact key c) r

create_for : Db → ℕ → Option Company → Action Request (Unit {0})
unfolding create_lead create_contact
create_for db key none r = create_lead db key r
create_for db key (some c) r =
    if given r.first_name && given r.email then create_contact db key c r else create_lead db key r

-- What follows when no person was found.
pub create : Db → ℕ → Action Request (Unit {0})
unfolding create_for
create db key r = create_for db key r.company r

-- `if self.find_contact_or_lead(): self.verification_required = True; return`
pub after_search : Db → ℕ → Outcome Bool × Request → Outcome (Unit {0}) × Request
unfolding create
after_search db key (returned true, r) = (returned tt, record r { verification_required = true })
after_search db key (returned false, r) = create db key (find_company db r)
after_search db key (raised e, r) = (raised e, r)

-- `key` is the primary key of the row that the database creates.
pub get_or_create_contact_or_lead : Db → ℕ → Action Request (Unit {0})
unfolding after_search
get_or_create_contact_or_lead db key r = after_search db key (find_contact_or_lead db r)

from_contact : Contact → Request → Request
from_contact c r = record r {
  phone = c.phone;
  company_name = c.company.full_name;
  company = some c.company;
  country = c.company.country;
  city = c.company.city;
  website = c.company.website;
  owner = c.owner;
}

from_lead : Lead → Request → Request
from_lead l r = record r {
  owner = l.owner;
  phone = if not (given r.phone) && given l.phone then l.phone else r.phone;
}

pub update_request_data : Request → Request
unfolding from_contact from_lead
update_request_data r = elim r.contact [
  | none ↦ elim r.lead [ none ↦ r | some l ↦ from_lead l r ]
  | some c ↦ from_contact c r
]
