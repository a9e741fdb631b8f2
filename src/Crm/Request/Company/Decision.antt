-- ===== src/Crm/Request/Company/Decision.antt =====
-- What `find_company` decides, and on what.
use agamin_crm.Prelude.{
  Bool, List, Option, [], ap, arith, false, first, if◌then◌else◌, none, refl, select, some, true, ℕ,
  ◌∙◌, ◌∷◌, ◌≡◌,
}
use agamin_crm.Crm.Records.{given, Company, Contact, Request, has_phone_query, Db}
use agamin_crm.Crm.Request.Company.{
  company_ids, by_id, assign, phone_condition, companies1, companies2, companies3, companies4,
  rows4, companies5, override, by_email_domain, last_resort, undecided, find_company,
}

-- Only the company and the flag may differ.
pub record SameBut (r s : Request) : Type 0 where
  pub same : s ≡ record r { company = s.company; verification_required = s.verification_required }

SameBut-refl : (r : Request) → SameBut r r
SameBut-refl r = record { same = refl }

assign-SameBut : (r s : Request) (c : Option Company) → SameBut r s → SameBut r (assign c s)
unfolding assign
assign-SameBut r s none h = record {
  same = λ i. record (h.same i) { company = none; verification_required = s.verification_required };
}
assign-SameBut r s (some c) h = record {
  same = λ i. record (h.same i) { company = some c; verification_required = true };
}

override-SameBut :
    (db : Db) (r s : Request) (c : Option Company) (b : Bool)
    → SameBut r s
    → SameBut r (override db r c b s)
unfolding override
override-SameBut db r s c true h = assign-SameBut r s c h
override-SameBut db r s c false h = h

if-SameBut :
    (r s t : Request) (b : Bool) → SameBut r s → SameBut r t → SameBut r (if b then s else t)
if-SameBut r s t true hs ht = hs
if-SameBut r s t false hs ht = ht

ruleset same_rules = (SameBut-refl, assign-SameBut, override-SameBut, if-SameBut)

module _ (db : Db) (r : Request) where
  by_email_domain-SameBut : SameBut r (by_email_domain db r)
  unfolding by_email_domain
  by_email_domain-SameBut = search same_rules

  -- What the fourth and the third list leave.
  abbrev earlier : Request
  earlier =
      override db r (first (companies3 db r)) (given (companies3 db r))
        (override db r (first (rows4 db r)) (given (rows4 db r)) r)

  earlier-SameBut : SameBut r earlier
  earlier-SameBut = search same_rules

  last_resort-SameBut : SameBut r (last_resort db r)
  unfolding last_resort
  last_resort-SameBut = search (same_rules, earlier-SameBut)

  undecided-SameBut : SameBut r (undecided db r)
  unfolding undecided
  undecided-SameBut = search (same_rules, last_resort-SameBut, by_email_domain-SameBut)

  -- `find_company` changes nothing but the company and the flag.
  pub find_company-SameBut : SameBut r (find_company db r)
  unfolding find_company
  find_company-SameBut = search (same_rules, undecided-SameBut) depth 10

select_everything :
    (t : Contact → Bool) (cs : List Contact) → ((c : Contact) → t c ≡ true) → select t cs ≡ cs
select_everything t [] h = refl
select_everything t (c ∷ cs) h = rw (h c, select_everything t cs h)

module _ (db : Db) (r : Request) where
  no_companies1 : given r.email ≡ false → companies1 db r ≡ []
  unfolding companies1
  no_companies1 no_email = rw no_email

  no_companies3 : given r.company_name ≡ false → companies3 db r ≡ []
  unfolding companies3
  no_companies3 no_name = rw no_name

  no_companies4 : given r.company_name ≡ false → companies4 db r ≡ none
  unfolding companies4
  no_companies4 no_name = rw no_name

  pub everyone :
      given r.email ≡ false
      → given r.phone ≡ true
      → has_phone_query r.phone ≡ false
      → companies2 db r ≡ company_ids db.contacts
  unfolding companies2 phone_condition
  everyone no_email phone short =
      rw (phone, short)
        (ap company_ids (select_everything _ db.contacts (λ c. rw (no_companies1 no_email))))

-- A phone number of less than five digits is no condition at all: where it is all that the request
-- gives, and there are two contacts or more, the request gets the company of the first contact of
-- the table, whoever that is.
pub find_company_short_phone :
    (db : Db) (r : Request) (c d : Contact) (cs : List Contact)
    → db.contacts ≡ c ∷ d ∷ cs
    → r.company ≡ none
    → given r.email ≡ false
    → given r.company_name ≡ false
    → given r.phone ≡ true
    → has_phone_query r.phone ≡ false
    → find_company db r ≡ assign (by_id c.company.id db.companies) r
unfolding find_company undecided last_resort override company_ids companies5
find_company_short_phone db r c d cs rows fresh no_email no_name phone short = ground (
  arith,
  rows,
  fresh,
  no_companies1 db r no_email,
  everyone db r no_email phone short,
  no_companies3 db r no_name,
  no_companies4 db r no_name,
)

-- The lists of the last resort override one another: where the contacts that fit the phone belong
-- to several companies, the first of these is taken, whatever the name and the country gave.
pub last_resort_phone :
    (db : Db) (r : Request) (k : ℕ) (ks : List ℕ) (c : Company)
    → companies2 db r ≡ k ∷ ks
    → by_id k db.companies ≡ some c
    → last_resort db r ≡ record r { company = some c; verification_required = true }
unfolding last_resort override assign
last_resort_phone db r k ks c phone row =
    ap
      (λ l.
        override db r (elim (first l) [ none ↦ none | some j ↦ by_id j db.companies ]) (given l)
          (earlier db r))
      phone
    ∙ ap (λ x. assign x (earlier db r)) row
    ∙ (λ i. record ((earlier-SameBut db r).same i) {
      company = some c;
      verification_required = true;
    })
