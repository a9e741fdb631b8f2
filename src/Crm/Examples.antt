-- ===== src/Crm/Examples.antt =====
-- A small database of contacts, companies and payments, and what the theorems say of it.
use agamin_crm.Prelude.{
  Bool, [], arith, false, if◌then◌else◌, none, refl, some, suc, true, ◌&&◌, ◌==◌, ◌∷◌, ◌≡◌,
}
use agamin_crm.Crm.Records.{
  Text, Company, Contact, Request, Person, of_contact, of_lead, is_digit, digits, has_phone_query,
  Db,
}
use agamin_crm.Crm.Request.Search.{find_contact_or_lead}
use agamin_crm.Crm.Request.Search.Result.{Ended, find_contact_or_lead_lem}
use agamin_crm.Crm.Request.Company.{company_ids, by_id, companies2}
use agamin_crm.Crm.Request.Company.Decision.{everyone}
use agamin_crm.Crm.Request.Create.{get_or_create_contact_or_lead}
use agamin_crm.Crm.Request.Create.Linked.{
  IsFresh, Settled, Accepted, get_or_create-IsSound, get_or_create-clean,
}
use agamin_crm.Crm.Payments.{Currency, Payment, received, Books, save_payment}
use agamin_crm.Crm.Payments.Unique.{IsUnique, save_payment-IsUnique}
use agamin_crm.Crm.Rates.{Backend, load}
use agamin_crm.Crm.Rates.Ends.{waiting, Ended as LoadEnded, load_ends}

abbrev same : Text → Text → Bool
same [] [] = true
same [] (d ∷ ds) = false
same (c ∷ cs) [] = false
same (c ∷ cs) (d ∷ ds) = c == d && same cs ds

abbrev mill : Company
mill = record {
  id = 1;
  owner = some 5;
  full_name = b'm' ∷ [];
  email = [];
  alternative_names = [];
  active = true;
  phone = [];
  city_name = [];
  registration_number = [];
  website = [];
  country = some 3;
  city = none;
  type = none;
  industry = [];
}

abbrev bakery : Company
bakery = record {
  id = 2;
  owner = some 5;
  full_name = b'b' ∷ [];
  email = [];
  alternative_names = [];
  active = true;
  phone = [];
  city_name = [];
  registration_number = [];
  website = [];
  country = some 3;
  city = none;
  type = none;
  industry = 4 ∷ [];
}

abbrev pub ann : Contact
ann = record {
  id = 10;
  owner = some 5;
  department = some 6;
  first_name = b'a' ∷ [];
  last_name = b'n' ∷ [];
  email = b'x' ∷ [];
  phone = [];
  country = some 3;
  company = mill;
}

abbrev bob : Contact
bob = record {
  id = 11;
  owner = some 5;
  department = some 6;
  first_name = b'b' ∷ [];
  last_name = b'o' ∷ [];
  email = b'y' ∷ [];
  phone = [];
  country = some 3;
  company = bakery;
}

abbrev name_of : Person → Text
name_of (of_contact c) = c.first_name
name_of (of_lead l) = l.first_name

abbrev email_of : Person → Text
email_of (of_contact c) = c.email
email_of (of_lead l) = l.email

abbrev pub db : Db
db = record {
  contacts = ann ∷ bob ∷ [];
  leads = [];
  companies = mill ∷ bakery ∷ [];
  by_first_name = λ r p. same r.first_name (name_of p);
  by_last_name = λ r p. true;
  by_email = λ r p. same r.email (email_of p);
  by_phone = λ r p. false;
  by_company = λ r p. false;
  by_name = λ r c. same r.company_name c.full_name;
  by_website = λ w c. false;
  by_domain = λ d c. false;
  email_domain = λ e. [];
  departments = λ u. 6 ∷ [];
}

abbrev blank : Request
blank = record {
  owner = some 5;
  department = some 6;
  request_for = [];
  first_name = b'b' ∷ [];
  middle_name = [];
  last_name = [];
  email = [];
  phone = [];
  website = [];
  lead_source = none;
  company_name = [];
  lead = none;
  contact = none;
  company = none;
  country = none;
  city = none;
  city_name = [];
  pending = true;
  subsequent = false;
  duplicate = false;
  verification_required = false;
  receipt_date = none;
  deal = none;
  products = [];
  description = [];
  translation = [];
  remark = [];
  ticket = [];
  co_owner = none;
}

abbrev pub from_bob : Request
from_bob = record blank { email = b'y' ∷ [] }

-- A phone number of one digit.
abbrev caller : Request
caller = record blank { phone = b'7' ∷ [] }

find_contact_or_lead_lem_example : Ended db from_bob (find_contact_or_lead db from_bob)
find_contact_or_lead_lem_example = find_contact_or_lead_lem db from_bob

short_phone : has_phone_query caller.phone ≡ false
unfolding has_phone_query digits is_digit
short_phone = refl

all_ids : companies2 db caller ≡ 1 ∷ 2 ∷ []
unfolding company_ids
all_ids = everyone db caller refl refl short_phone

mill_found : by_id 1 db.companies ≡ some mill
unfolding by_id
mill_found = refl

fresh : IsFresh from_bob
fresh = record { contact = refl; lead = refl }

get_or_create-IsSound_example :
    Settled from_bob.company (get_or_create_contact_or_lead db 12 from_bob)
get_or_create-IsSound_example = get_or_create-IsSound db 12 from_bob fresh

get_or_create-clean_example : Accepted (get_or_create_contact_or_lead db 12 from_bob)
get_or_create-clean_example = get_or_create-clean db 12 from_bob fresh

abbrev euro : Currency
euro = record {
  id = 1;
  name = b'e' ∷ [];
  rate_to_state_currency = 200000000;
  rate_to_marketing_currency = 110000000;
  is_state_currency = false;
  is_marketing_currency = false;
  auto_update = true;
}

abbrev payment : Payment
payment = record {
  amount = 5000;
  currency = some 1;
  deal = 3;
  payment_date = 8;
  status = received;
  contract_number = [];
  invoice_number = [];
  order_number = [];
  through_representation = false;
}

abbrev books : Books
books = record { currencies = euro ∷ []; payments = []; rates = [] }

abbrev bank : Backend
bank name date =
    if date == 9 then none else some (record { to_state = 210000000; to_marketing = 120000000 })

no_rates : IsUnique []
unfolding IsUnique
no_rates k date = omega arith

save_payment-IsUnique_example : IsUnique (save_payment payment books).1.rates
save_payment-IsUnique_example = save_payment-IsUnique payment books no_rates

load_ends_example : LoadEnded bank 10 (euro ∷ []) (payment ∷ []) (
    load bank 10
      (euro ∷ [])
      (payment ∷ [])
      (suc (waiting bank 10 (euro ∷ []) (payment ∷ []) []))
      [])
load_ends_example =
    load_ends bank 10 (euro ∷ []) (payment ∷ [])
      (suc (waiting bank 10 (euro ∷ []) (payment ∷ []) [])) [] (omega arith)
