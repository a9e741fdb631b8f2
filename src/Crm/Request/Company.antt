-- ===== src/Crm/Request/Company.antt =====
-- `Request.find_company`: which company a request comes from.
pub mod Decision
use agamin_crm.Prelude.{
  Bool, List, Option, [], contains, first, if◌then◌else◌, is_some, length, ltb, map, none, opt_eq,
  select, some, true, ℕ, ◌&&◌, ◌==◌, ◌||◌,
}
use agamin_crm.Crm.Records.{given, Company, Contact, Request, of_contact, has_phone_query, Db}
use agamin_crm.Crm.Request.Website.{parseweb}

-- `values_list('company_id')`
unfoldable pub company_ids : List Contact → List ℕ
company_ids = map (λ c. c.company.id)

-- The company that `self.company` gives once `self.company_id` is set.
unfoldable pub by_id : ℕ → List Company → Option Company
by_id k cs = first (select (λ c. c.id == k) cs)

-- `self.company = ...` or `self.company_id = ...`, and the flag where the company is there.
pub assign : Option Company → Request → Request
assign none r = record r { company = none }
assign (some c) r = record r { company = some c; verification_required = true }

module _ (db : Db) (r : Request) where
  -- `contact_phone_param` without digits enough is the empty condition, which every row meets.
  pub phone_condition : Contact → Bool
  phone_condition c = if has_phone_query r.phone then db.by_phone r (of_contact c) else true

  pub companies1 : List ℕ
  unfolding company_ids
  companies1 =
      if given r.email
      then company_ids (select (λ c. db.by_email r (of_contact c)) db.contacts)
      else []

  pub companies2 : List ℕ
  unfolding company_ids phone_condition companies1
  companies2 =
      if given r.phone
      then company_ids (
          select
            (λ c.
              phone_condition c
              && (if ltb 1 (length companies1) then contains c.company.id companies1 else true))
            db.contacts)
      else []

  pub companies3 : List Company
  unfolding companies1 companies2
  companies3 =
      if given r.company_name
      then select
          (λ c.
            db.by_name r c
            && (if ltb 1 (length companies1)
                then contains c.id companies1
                else if ltb 1 (length companies2)
                then contains c.id companies2
                else true))
          db.companies
      else []

  in_country : Company → Bool
  in_country c = opt_eq c.country r.country

  -- `None` where the code leaves it so.
  pub companies4 : Option (List Company)
  unfolding companies3 in_country
  companies4 =
      if given r.company_name && is_some r.country
      then (if ltb 1 (length companies3)
          then some (select in_country companies3)
          else if ltb 1 (length companies1)
          then some (select (λ c. in_country c && contains c.id companies1) db.companies)
          else if ltb 1 (length companies2)
          then some (select (λ c. in_country c && contains c.id companies2) db.companies)
          else none)
      else none

  abbrev pub rows4 : List Company
  rows4 = elim companies4 [ none ↦ [] | some cs ↦ cs ]

  pub companies5 : List Company
  unfolding companies4
  companies5 = select (db.by_website (parseweb r.website)) rows4

  -- The search by the domain of the email address.
  by_email_domain : Request
  by_email_domain =
      if given r.email && given (db.email_domain r.email)
      then assign (first (select (db.by_domain (db.email_domain r.email)) db.companies)) r
      else r

  override : Option Company → Bool → Request → Request
  override c there s = if there then assign c s else s

  -- The last loop has no `break`, so a later list overrides an earlier one.
  pub last_resort : Request
  unfolding override companies5
  last_resort =
      override (elim (first companies2) [ none ↦ none | some k ↦ by_id k db.companies ])
        (given companies2)
        (override (first companies3) (given companies3) (override (first rows4) (given rows4) r))

  -- What follows when no stage found exactly one.
  undecided : Request
  unfolding by_email_domain last_resort
  undecided =
      if (given rows4 || given companies3) || (given companies2 || given companies1)
      then last_resort
      else by_email_domain

  pub find_company : Request
  unfolding undecided by_id
  find_company =
      if is_some r.company && (is_some r.contact && is_some r.lead)
      then r
      else if length companies1 == 1
      then assign (elim (first companies1) [ none ↦ none | some k ↦ by_id k db.companies ]) r
      else if length companies2 == 1
      then assign (elim (first companies2) [ none ↦ none | some k ↦ by_id k db.companies ]) r
      else if length companies3 == 1
      then assign (first companies3) r
      else if length rows4 == 1
      then assign (first rows4) r
      else if given r.website && (ltb 1 (length rows4) && given companies5)
      then assign (first companies5) r
      else undecided
