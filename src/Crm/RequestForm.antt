-- ===== src/Crm/RequestForm.antt =====
-- The form of a request: `save_model` of crm/site/requestadmin.py, with crm/utils/check_city.py and
-- common/utils/parse_full_name.py, and the button for a deal (RequestForm/Creation). The
-- files of a request and the messages are left out.
pub mod Creation
pub mod Decide
pub mod Saved
pub mod Steps
pub mod WebRequest
use agamin_crm.Prelude.{
  Bool, List, Option, [], false, first, if◌then◌else◌, is_some, none, not, opt_eq, select, some, ℕ,
  ◌&&◌, ◌++◌, ◌==◌, ◌||◌, ◌∷◌,
}
use agamin_crm.Prelude.Action.{
  Action, Outcome, returned, raised, attribute_error, modify, ◌>>=◌, ◌>>◌,
}
use agamin_crm.Common.FullName.{FullName, is_space, is_word, join_words, parse_full_name}
use agamin_crm.Crm.Records.{Text, given, Company, Contact, Lead, Request, Db}
use agamin_crm.Crm.Request.Search.{find_contact_or_lead}
use agamin_crm.Crm.Request.Company.{find_company}
use agamin_crm.Crm.Request.Create.{get_or_create_contact_or_lead}

-- The request of the browser and the form: `change`, the button for a deal, and what `changed_data`
-- tells.
pub record RequestEdit : Type 0 where
  pub user : ℕ
  pub is_manager : Bool
  pub change : Bool
  pub deal_button : Bool
  pub changed_duplicate : Bool
  pub changed_owner : Bool
  pub changed_contact : Bool
  pub changed_lead : Bool
  pub changed_city_name : Bool

pub record City : Type 0 where
  pub id : ℕ
  pub country : ℕ
  pub name : Text

-- The deal of a request, with the products of its outputs.
pub record RequestDeal : Type 0 where
  pub id : ℕ
  pub request : ℕ
  pub ticket : Text
  pub name : Text
  pub description : Text
  pub owner : Option ℕ
  pub co_owner : Option ℕ
  pub department : Option ℕ
  pub stage : Option ℕ
  pub currency : Option ℕ
  pub contact : Option Contact
  pub company : Option Company
  pub lead : Option Lead
  pub country : Option ℕ
  pub city : Option ℕ
  pub products : List ℕ

-- A letter: what a deal that is created looks for.
pub record RequestEmail : Type 0 where
  pub ticket : Text
  pub deal : Option ℕ

-- The request in memory, its key and its row, the tables of cities, deals and letters, and who is told of a
-- deal, the newest last.
pub record RequestSaving : Type 0 where
  pub id : ℕ
  pub obj : Request
  pub row : Option Request
  pub cities : List City
  pub deals : List RequestDeal
  pub emails : List RequestEmail
  pub sent : List ℕ

pub set_request : Request → RequestSaving → RequestSaving
set_request r w = record w { obj = r }

pub on_request : {A : Type 0} → Action Request A → Action RequestSaving A
unfolding set_request
on_request m w = let (o, r) = m w.obj in (o, set_request r w)

pub put_name : Outcome FullName → Action Request (Unit {0})
put_name (returned n) r = (
  returned tt,
  record r { first_name = n.first_name; middle_name = n.middle_name; last_name = n.last_name },
)
put_name (raised e) r = (raised e, r)

pub parse_contacts_name : (ℕ → Text → Text) → Action Request (Unit {0})
unfolding put_name
parse_contacts_name truncatechars r =
    put_name
      (parse_full_name truncatechars
        (join_words (select is_word (r.first_name ∷ r.middle_name ∷ r.last_name ∷ []))))
      r

module _ (db : Db) (f : RequestEdit) where
  -- `set_owner` of common/site/basemodeladmin.py; who changed the request last is left out.
  pub set_request_owner : Request → Request
  set_request_owner r =
      let owner : ℕ = elim r.owner [ none ↦ f.user | some u ↦ u ] in
      record r {
        owner = some owner;
        department = if is_some r.department then r.department else first (db.departments owner);
      }

  -- `if not change`
  pub start_request : Request → Request
  unfolding set_request_owner
  start_request r = if f.change then r else record (set_request_owner r) {
    subsequent = f.is_manager || (set_request_owner r).subsequent;
  }

pub set_pending : RequestEdit → Request → Request
set_pending f r =
    if f.deal_button || (f.changed_duplicate && r.duplicate)
    then record r { pending = false }
    else r

pub take_owner : RequestEdit → Request → Request
take_owner f r = if is_some r.owner then r else record r { owner = some f.user }

-- A value that is kept if there is one.
pub or_else : Option ℕ → Option ℕ → Option ℕ
or_else none b = b
or_else (some a) b = some a

pub or_text : Text → Text → Text
or_text [] b = b
or_text (c ∷ t) b = c ∷ t

pub take_company : Request → Request
take_company r =
    if is_some r.company
    then r
    else elim r.contact [ none ↦ r | some c ↦ record r { company = some c.company } ]

pub fill_company : Option Company → Request → Request
unfolding or_else or_text
fill_company none r = r
fill_company (some k) r = record r {
  company_name = or_text r.company_name k.full_name;
  country = or_else r.country k.country;
  city = or_else r.city k.city;
}

-- `if not any((obj.contact, obj.lead)): obj.get_or_create_contact_or_lead()`
pub get_or_create : Db → ℕ → Action Request (Unit {0})
get_or_create db key r =
    if is_some r.contact || is_some r.lead
    then (returned tt, r)
    else get_or_create_contact_or_lead db key r

-- `if not obj.pending`
pub process : Db → ℕ → RequestEdit → Action Request (Unit {0})
unfolding take_owner get_or_create take_company fill_company
process db key f = do
  modify (take_owner f)
  get_or_create db key
  modify take_company
  modify (λ r. fill_company r.company r)

pub find : Db → Action Request (Unit {0})
find db r =
    if is_some r.contact || is_some r.lead
    then (returned tt, r)
    else let (o, s) = find_contact_or_lead db r in
      elim o [ returned found ↦ (returned tt, s) | raised e ↦ (raised e, s) ]

-- `obj.company_id = obj.contact.company_id`, and `find_company` where there is none.
pub match_company : Db → Request → Request
match_company db r =
    let s : Request = elim r.contact [
      | none ↦ r
      | some c ↦ record r { company = some c.company }
    ] in
    if is_some s.company then s else find_company db s

pub await : Db → Action Request (Unit {0})
unfolding find match_company
await db = do find db; modify (match_company db)

pub decide : Db → ℕ → RequestEdit → Action Request (Unit {0})
unfolding process await
decide db key f r = if r.pending then await db r else process db key f r

-- `copy_attrs` and what follows for a contact.
pub copy_contact : Contact → Request → Request
unfolding or_text or_else
copy_contact c r = record r {
  first_name = or_text r.first_name c.first_name;
  last_name = or_text r.last_name c.last_name;
  email = or_text r.email c.email;
  phone = or_text r.phone c.phone;
  company_name = or_text r.company_name c.company.full_name;
  country = or_else r.country c.company.country;
  website = or_text r.website c.company.website;
}

pub copy_lead : Lead → Request → Request
unfolding or_text or_else
copy_lead l r = record r {
  first_name = or_text r.first_name l.first_name;
  last_name = or_text r.last_name l.last_name;
  email = or_text r.email l.email;
  phone = or_text r.phone l.phone;
  country = or_else r.country l.country;
  company_name = or_text r.company_name l.company_name;
}

pub copy_from : RequestEdit → Option Contact → Option Lead → Request → Request
unfolding copy_contact copy_lead
copy_from f (some c) l r =
    if f.changed_contact
    then copy_contact c r
    else if f.changed_lead
    then elim l [ none ↦ r | some m ↦ copy_lead m r ]
    else r
copy_from f none none r = r
copy_from f none (some m) r = if f.changed_lead then copy_lead m r else r

-- `strip`
pub trim_start : Text → Text
trim_start [] = []
trim_start (c ∷ t) = let rest = trim_start t in if is_space c then rest else c ∷ t

pub trim_end : Text → Text
trim_end [] = []
trim_end (c ∷ t) = let rest = trim_end t in if is_space c && not (given rest) then [] else c ∷ rest

-- `re.sub(r"[.,]$", '', name)`
pub drop_mark : Text → Text
drop_mark [] = []
drop_mark (c ∷ []) = if c == 46 || c == 44 then [] else c ∷ []
drop_mark (c ∷ d ∷ t) = c ∷ drop_mark (d ∷ t)

-- `elif obj.city and not obj.city_name`
pub name_city : RequestSaving → RequestSaving
name_city w = elim w.obj.city [
  | none ↦ w
  | some k ↦ if given w.obj.city_name then w else elim (first (select (λ c. c.id == k) w.cities)) [
    | none ↦ w
    | some c ↦ record w { obj = record w.obj { city_name = c.name } }
  ]
]

-- The first of the cities, or a new one, whose key is `new_id`; the mail to the administrators
-- about several cities is left out.
pub use_city : ℕ → ℕ → Text → List City → RequestSaving → RequestSaving
use_city new_id k name [] w = record w {
  obj = record w.obj { city = some new_id };
  cities = w.cities ++ (record { id = new_id; country = k; name = name } ∷ []);
}
use_city new_id k name (c ∷ cs) w = record w { obj = record w.obj { city = some c.id } }

pub found_city : ℕ → ℕ → Text → Outcome (List City) → Action RequestSaving (Unit {0})
unfolding use_city
found_city new_id k name (returned cs) w = (returned tt, use_city new_id k name cs w)
found_city new_id k name (raised e) w = (raised e, w)

-- `find_cities` is the search of the database for a name, which may refuse it as a pattern.
module _ (find_cities : Text → ℕ → List City → Outcome (List City)) (new_id : ℕ) where
  pub find_city : ℕ → Action RequestSaving (Unit {0})
  unfolding found_city trim_start trim_end drop_mark
  find_city k w =
      let name = drop_mark (trim_end (trim_start w.obj.city_name)) in
      let named : RequestSaving = record w { obj = record w.obj { city_name = name } } in
      found_city new_id k name (find_cities name k w.cities) named

  -- What is done where the request has that country; the form says whether the name changed.
  pub check_in : Bool → Option ℕ → Action RequestSaving (Unit {0})
  unfolding find_city name_city
  check_in changed none w = (returned tt, name_city w)
  check_in changed (some k) w =
      if changed && given w.obj.city_name then find_city k w else (returned tt, w)

  pub check_city : Bool → Action RequestSaving (Unit {0})
  unfolding check_in
  check_city changed w = check_in changed w.obj.country w

-- `notify_user`, which reads the language of the user.
pub tell : Option ℕ → Action RequestSaving (Unit {0})
tell none w = (raised attribute_error, w)
tell (some u) w = (returned tt, record w { sent = w.sent ++ (u ∷ []) })

-- The two calls of `_notify_deal_owners`.
pub tell_owner : ℕ → RequestDeal → Action RequestSaving (Unit {0})
unfolding tell
tell_owner user d w = if opt_eq d.owner (some user) then (returned tt, w) else tell d.owner w

pub tell_co_owner : ℕ → RequestDeal → Action RequestSaving (Unit {0})
unfolding tell
tell_co_owner user d w =
    if is_some d.co_owner && not (opt_eq d.co_owner (some user))
    then tell d.co_owner w
    else (returned tt, w)

-- `_notify_deal_owners`
pub notify_deal_owners : ℕ → RequestDeal → Action RequestSaving (Unit {0})
unfolding tell_owner tell_co_owner
notify_deal_owners user d = do tell_owner user d; tell_co_owner user d

pub deal_of : Option ℕ → List RequestDeal → Option RequestDeal
deal_of none ds = none
deal_of (some k) ds = first (select (λ d. d.id == k) ds)

pub notify_owner_change : RequestEdit → Action RequestSaving (Unit {0})
unfolding notify_deal_owners deal_of
notify_owner_change f w =
    if f.changed_owner
    then elim (deal_of w.obj.deal w.deals) [
      | none ↦ (returned tt, w)
      | some d ↦ notify_deal_owners f.user d w
    ]
    else (returned tt, w)

pub save_request : RequestSaving → RequestSaving
save_request w = record w { row = some w.obj }

-- `key` is that of a contact or lead that is created.
module _ (db : Db) (truncatechars : ℕ → Text → Text)
    (find_cities : Text → ℕ → List City → Outcome (List City)) (key new_id : ℕ)
    (f : RequestEdit) where
  pub save_model : Action RequestSaving (Unit {0})
  unfolding on_request set_request parse_contacts_name start_request set_pending decide
      notify_owner_change copy_from check_city set_request_owner save_request
  save_model = do
    on_request (parse_contacts_name truncatechars)
    on_request (modify (λ r. set_pending f (start_request db f r)))
    on_request (decide db key f)
    notify_owner_change f
    on_request (modify (λ r. copy_from f r.contact r.lead r))
    check_city find_cities new_id f.changed_city_name
    on_request (modify (set_request_owner db f))
    modify save_request
