-- ===== src/Crm/RequestForm/WebRequest.antt =====
-- A request from the form of the web site: crm/utils/create_form_request.py, with the test for stop
-- phrases of crm/utils/helpers.py. The text of the letter and the mails to the administrators are
-- left out.
pub mod Handled
pub mod Entered
use agamin_crm.Prelude.{
  Bool, List, Option, [], false, if◌then◌else◌, is_some, none, not, some, true, ℕ, ◌&&◌, ◌++◌, ◌==◌,
  ◌||◌, ◌∷◌,
}
use agamin_crm.Prelude.Action.{
  Action, Error, Outcome, returned, raised, attribute_error, does_not_exist, modify, ◌>>=◌, ◌>>◌,
}
use agamin_crm.Common.RemindMe.{same_text}
use agamin_crm.Common.FullName.{FullName, parse_full_name}
use agamin_crm.Crm.Records.{Text, given, Request, Db}
use agamin_crm.Crm.Request.Search.{find_contact_or_lead}
use agamin_crm.Crm.Request.Create.{update_request_data}
use agamin_crm.Crm.RequestForm.{
  City, RequestSaving, set_request, on_request, check_city, tell, save_request,
}

-- The cleaned data of the form.
pub record WebForm : Type 0 where
  pub name : Text
  pub email : Text
  pub subject : Text
  pub phone : Text
  pub message : Text
  pub company : Text
  pub country : Text
  pub city : Text

-- The source of the leads with its department.
pub record LeadSource : Type 0 where
  pub id : ℕ
  pub department : ℕ
  pub default_country : Option ℕ
  pub email : Text

module _ (form : WebForm) (source : LeadSource) (ticket : Text) (today : ℕ) where
  pub web_request : FullName → Request
  web_request n = record {
    owner = none;
    department = some source.department;
    request_for = form.subject;
    first_name = n.first_name;
    middle_name = n.middle_name;
    last_name = n.last_name;
    email = form.email;
    phone = form.phone;
    website = [];
    lead_source = some source.id;
    company_name = form.company;
    receipt_date = some today;
    lead = none;
    contact = none;
    company = none;
    deal = none;
    products = [];
    country = source.default_country;
    city = none;
    city_name = form.city;
    description = form.message;
    translation = [];
    remark = [];
    pending = true;
    subsequent = false;
    duplicate = false;
    verification_required = false;
    ticket = ticket;
    co_owner = none;
  }

  pub put_request : Outcome FullName → Action RequestSaving (Unit {0})
  unfolding web_request set_request
  put_request (returned n) w = (returned tt, set_request (web_request n) w)
  put_request (raised e) w = (raised e, w)

  -- `_create_request`
  pub create_request : (ℕ → Text → Text) → Action RequestSaving (Unit {0})
  unfolding put_request
  create_request truncatechars = put_request (parse_full_name truncatechars form.name)

pub is_missing : Error → Bool
is_missing does_not_exist = true
is_missing _ = false

-- `except Country.DoesNotExist`
pub enter_country : Outcome ℕ → Action RequestSaving (Unit {0})
unfolding is_missing
enter_country (returned k) w = (returned tt, record w { obj = record w.obj { country = some k } })
enter_country (raised e) w = if is_missing e then (returned tt, w) else (raised e, w)

-- The text of the choice for no country.
not_set : Text
not_set = b'n' ∷ b'o' ∷ b't' ∷ 32 ∷ b'_' ∷ b's' ∷ b'e' ∷ b't' ∷ []

-- `find_country` is the search of the database for the name of a country.
module _ (find_country : Text → Outcome ℕ)
    (find_cities : Text → ℕ → List City → Outcome (List City)) (new_id : ℕ) where
  pub place : Text → Action RequestSaving (Unit {0})
  unfolding enter_country
  place name = do enter_country (find_country name); check_city find_cities new_id true

  pub locate : Text → Action RequestSaving (Unit {0})
  unfolding place not_set
  locate name w =
      if given name && not (same_text name not_set) then place name w else (returned tt, w)

pub look_up : Db → Action Request (Unit {0})
look_up db r =
    let (o, s) = find_contact_or_lead db r in
    elim o [ returned found ↦ (returned tt, s) | raised e ↦ (raised e, s) ]

pub notify_request_owners : Action RequestSaving (Unit {0})
notify_request_owners = do
  λ w. tell w.obj.owner w
  λ w. if is_some w.obj.co_owner then tell w.obj.co_owner w else (returned tt, w)

pub notify_if_owned : Action RequestSaving (Unit {0})
unfolding notify_request_owners
notify_if_owned w = if is_some w.obj.owner then notify_request_owners w else (returned tt, w)

-- The lines from `_create_request` to `notify_request_owners`.
module _ (db : Db) (truncatechars : ℕ → Text → Text) (find_country : Text → Outcome ℕ)
    (find_cities : Text → ℕ → List City → Outcome (List City)) (new_id today : ℕ)
    (ticket : Text) where
  pub enter_request : WebForm → LeadSource → Action RequestSaving (Unit {0})
  unfolding create_request locate look_up notify_if_owned on_request set_request
  enter_request form source = do
    create_request form source ticket today truncatechars
    locate find_country find_cities new_id form.country
    on_request (look_up db)
    on_request (modify update_request_data)
    modify save_request
    notify_if_owned

-- settings/models.py
pub record StopPhrase : Type 0 where
  pub phrase : Text
  pub last_occurrence_date : ℕ

-- The letter without its text and the flags that are the same for each.
pub record WebEmail : Type 0 where
  pub subject : Text
  pub from_field : Text
  pub to : Text
  pub department : ℕ
  pub ticket : Text
  pub request : ℕ
  pub owner : Option ℕ

-- The request in hand, the stop phrases and the letters.
pub record Inbox : Type 0 where
  pub saving : RequestSaving
  pub phrases : List StopPhrase
  pub stored_emails : List WebEmail

starts_with : Text → Text → Bool
starts_with [] t = true
starts_with (a ∷ p) [] = false
starts_with (a ∷ p) (b ∷ t) = a == b && starts_with p t

-- `txt.find(phrase) != -1`
pub occurs : Text → Text → Bool
unfolding starts_with
occurs p [] = starts_with p []
occurs p (c ∷ t) = starts_with p (c ∷ t) || occurs p t

-- `is_text_relevant`, and the phrases after it: that which was hit is stored with the date.
pub is_text_relevant : ℕ → Text → List StopPhrase → Bool × List StopPhrase
unfolding occurs
is_text_relevant today txt [] = (true, [])
is_text_relevant today txt (p ∷ ps) =
    let (b, qs) = is_text_relevant today txt ps in
    if occurs p.phrase txt
    then (false, record p { last_occurrence_date = today } ∷ ps)
    else (b, p ∷ qs)

-- `", ".join((data['subject'], data['message']))`
pub form_text : WebForm → Text
form_text form = form.subject ++ (44 ∷ 32 ∷ form.message)

-- `get_to_email`; `operator` is the address of the first active operator, if there is one.
pub get_to_email : Option Text → LeadSource → Outcome Text
get_to_email operator source =
    if given source.email
    then returned source.email
    else elim operator [ none ↦ raised attribute_error | some e ↦ returned e ]

-- The letter with the request and its owner.
pub web_letter : WebForm → LeadSource → Text → Text → RequestSaving → WebEmail
web_letter form source ticket to w = record {
  subject = form.subject;
  from_field = form.email;
  to = to;
  department = source.department;
  ticket = ticket;
  request = w.id;
  owner = w.obj.owner;
}

module _ (db : Db) (truncatechars : ℕ → Text → Text) (find_country : Text → Outcome ℕ)
    (find_cities : Text → ℕ → List City → Outcome (List City)) (operator : Option Text)
    (new_id today : ℕ) (ticket : Text) where
  -- `request_email.save()`, where the request was entered.
  pub keep_letter :
      WebForm → LeadSource → Text → Outcome (Unit {0}) → RequestSaving → Action Inbox (Unit {0})
  unfolding web_letter
  keep_letter form source to (returned u) w i = (
    returned tt,
    record i {
      saving = w;
      stored_emails = i.stored_emails ++ (web_letter form source ticket to w ∷ []);
    },
  )
  keep_letter form source to (raised e) w i = (raised e, record i { saving = w })

  pub receive : WebForm → LeadSource → Outcome Text → Action Inbox (Unit {0})
  unfolding keep_letter enter_request
  receive form source (raised e) i = (raised e, i)
  receive form source (returned to) i =
      let (o, w) =
        enter_request db truncatechars find_country find_cities new_id today ticket form source
          i.saving in
      keep_letter form source to o w i

  pub create_form_request : WebForm → LeadSource → Action Inbox (Unit {0})
  unfolding is_text_relevant form_text receive get_to_email
  create_form_request form source i =
      let (relevant, phrases) = is_text_relevant today (form_text form) i.phrases in
      let j : Inbox = record i { phrases = phrases } in
      if relevant then receive form source (get_to_email operator source) j else (returned tt, j)
