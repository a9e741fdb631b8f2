-- ===== src/Crm/Request/Create/Linked.antt =====
-- How a request stands once `get_or_create_contact_or_lead` has run.
use agamin_crm.Prelude.{
  Bool, Bool-cases, Option, Option-cases, ap, arith, false, first, if◌then◌else◌, inl, inr, is_some,
  none, refl, some, subst, sym, true, ℕ, ◌&&◌, ◌∙◌, ◌≡◌,
}
use agamin_crm.Prelude.Action.{Action, Outcome, returned, raised, attribute_error, ◌>>=◌}
use agamin_crm.Crm.Records.{
  given, Company, Contact, Lead, Request, Person, of_contact, of_lead, same_company, Db,
}
use agamin_crm.Crm.Request.Search.{set_contact, find_contact_or_lead}
use agamin_crm.Crm.Request.Search.Result.{Ended, find_contact_or_lead_lem}
use agamin_crm.Crm.Request.Company.{find_company}
use agamin_crm.Crm.Request.Company.Decision.{SameBut, find_company-SameBut}
use agamin_crm.Crm.Request.Create.{
  clean, mismatch, create_for, get_department_id, fill_lead, fill_contact, create, create_lead,
  create_contact, new_contact, new_lead, after_search, get_or_create_contact_or_lead,
  update_request_data, from_contact, from_lead,
}

-- Neither a contact nor a lead yet.
pub record IsFresh (r : Request) : Type 0 where
  pub contact : r.contact ≡ none
  pub lead : r.lead ≡ none

-- A request whose links agree. It may stay without any only if it came with a company, `k`.
pub data IsSound (k : Option Company) (r : Request) : Type 0 where
  with_contact :
      (c : Contact)
      → r.contact ≡ some c
      → r.lead ≡ none
      → same_company r.company c.company ≡ true
      → IsSound k r
  with_lead : (l : Lead) → r.contact ≡ none → r.lead ≡ some l → IsSound k r
  alone : r.contact ≡ none → r.lead ≡ none → is_some k ≡ true → IsSound k r

-- How a call ended.
abbrev pub Settled : Option Company → Outcome (Unit {0}) × Request → Type 0
Settled k (returned u, r) = IsSound k r
Settled k (raised e, r) = e ≡ attribute_error

pub same_self : (c : Company) → same_company (some c) c ≡ true
same_self c = ground arith

found_contact :
    (c : Contact) (r : Request) (k : Option Company)
    → IsFresh r
    → r.company ≡ k
    → IsSound k (record (set_contact (of_contact c) r) { verification_required = true })
unfolding set_contact
found_contact c r none h e = rw e (with_contact c refl h.lead (same_self c.company))
found_contact c r (some d) h e = elim (Bool-cases (same_company (some d) c.company)) [
  | inl same ↦ rw (e, same) (with_contact c refl h.lead same)
  | inr other ↦ rw (e, other) (alone h.contact h.lead refl)
]

pub found-IsSound :
    (p : Person) (r : Request)
    → IsFresh r
    → IsSound r.company (record (set_contact p r) { verification_required = true })
unfolding set_contact
found-IsSound (of_lead l) r h = with_lead l h.contact refl
found-IsSound (of_contact c) r h = found_contact c r r.company h refl

owned :
    (db : Db) (k : Option Company) (o : Option ℕ) (f : Option ℕ → Action Request (Unit {0}))
    (r : Request)
    → ((d : Option ℕ) → Settled k (f d r))
    → Settled k ((get_department_id db o >>= f) r)
unfolding get_department_id
owned db k none f r h = refl
owned db k (some u) f r h = h (first (db.departments u))

create_lead-Settled :
    (db : Db) (key : ℕ) (k : Option Company) (r : Request)
    → IsFresh r
    → Settled k (create_lead db key r)
unfolding create_lead fill_lead
create_lead-Settled db key k r h =
    owned db k r.owner (fill_lead key) r (λ d. with_lead (new_lead key d r) h.contact refl)

create_for-Settled :
    (db : Db) (key : ℕ) (k j : Option Company) (r : Request)
    → IsFresh r
    → r.company ≡ j
    → Settled k (create_for db key j r)
unfolding create_for create_contact fill_contact
create_for-Settled db key k none r h e = create_lead-Settled db key k r h
create_for-Settled db key k (some c) r h e =
    elim (given r.first_name && given r.email)
      as (λ b. Settled k (if b then create_contact db key c r else create_lead db key r)) [
        | true ↦ owned db k c.owner (fill_contact key c) r (λ d.
            with_contact (new_contact key d c r) refl h.lead
              (ap (λ x. same_company x c) e ∙ same_self c))
        | false ↦ create_lead-Settled db key k r h
      ]

same-IsFresh : (r s : Request) → SameBut r s → IsFresh r → IsFresh s
same-IsFresh r s h f = record {
  contact = ap (λ x. x.contact) h.same ∙ f.contact;
  lead = ap (λ x. x.lead) h.same ∙ f.lead;
}

after_search-Settled :
    (db : Db) (key : ℕ) (r : Request) (out : Outcome Bool × Request)
    → IsFresh r
    → Ended db r out
    → Settled r.company (after_search db key out)
unfolding after_search create
after_search-Settled db key r (returned true, s) f h =
    subst (λ x. IsSound r.company (record x { verification_required = true })) (sym h.3)
      (found-IsSound h.0 r f)
after_search-Settled db key r (returned false, s) f h =
    subst (λ x. Settled r.company (create db key (find_company db x))) (sym h)
      (create_for-Settled db key r.company _ (find_company db r)
        (same-IsFresh r (find_company db r) (find_company-SameBut db r) f) refl)
after_search-Settled db key r (raised e, s) f h = absurd h

-- A request with neither a contact nor a lead, of which `get_or_create_contact_or_lead` returns,
-- then has a contact, of the request's own company and without a lead, or a lead without a
-- contact; or neither, but then it had a company before. It raises only an AttributeError.
pub get_or_create-IsSound :
    (db : Db) (key : ℕ) (r : Request)
    → IsFresh r
    → Settled r.company (get_or_create_contact_or_lead db key r)
unfolding get_or_create_contact_or_lead
get_or_create-IsSound db key r f =
    after_search-Settled db key r (find_contact_or_lead db r) f (find_contact_or_lead_lem db r)

-- `clean` accepts every such request, and changes nothing.
IsSound-clean : (k : Option Company) (r : Request) → IsSound k r → clean r ≡ (returned tt, r)
unfolding clean mismatch
IsSound-clean k r (with_contact c hc hl h) = rw (hc, hl, h) (ground arith)
IsSound-clean k r (with_lead l hc hl) = rw (hc, hl) refl
IsSound-clean k r (alone hc hl h) = rw (hc, hl) refl

-- What `clean` then says of a call.
abbrev pub Accepted : Outcome (Unit {0}) × Request → Type 0
Accepted (returned u, r) = clean r ≡ (returned tt, r)
Accepted (raised e, r) = e ≡ attribute_error

Settled-Accepted :
    (k : Option Company) (out : Outcome (Unit {0}) × Request) → Settled k out → Accepted out
Settled-Accepted k (returned u, r) h = IsSound-clean k r h
Settled-Accepted k (raised e, r) h = h

-- A request with neither a contact nor a lead, once `get_or_create_contact_or_lead` returns,
-- passes `clean`; the call raises nothing but an AttributeError.
pub get_or_create-clean :
    (db : Db) (key : ℕ) (r : Request)
    → IsFresh r
    → Accepted (get_or_create_contact_or_lead db key r)
get_or_create-clean db key r f = Settled-Accepted r.company _ (get_or_create-IsSound db key r f)

pub update_request_data-clean :
    (r : Request)
    → is_some r.contact && is_some r.lead ≡ false
    → clean (update_request_data r) ≡ (returned tt, update_request_data r)
unfolding clean mismatch update_request_data from_contact from_lead
update_request_data-clean r h = elim (Option-cases r.contact) [
  | inl e ↦ elim (Option-cases r.lead) [ inl f ↦ rw (e, f) refl | inr (l, f) ↦ rw (e, f) refl ]
  | inr (c, e) ↦ rw e (ground (arith, h, e))
]

lead_twice : (l : Lead) (r : Request) → from_lead l (from_lead l r) ≡ from_lead l r
unfolding from_lead
lead_twice l r = elim (Bool-cases (given r.phone)) [
  | inl e ↦ rw e (rw e refl)
  | inr e ↦ elim (Bool-cases (given l.phone)) [
    | inl f ↦ rw (e, f) (rw f refl)
    | inr f ↦ rw (e, f) (rw e refl)
  ]
]

updates :
    (l : Lead) (r : Request)
    → r.contact ≡ none
    → r.lead ≡ some l
    → update_request_data r ≡ from_lead l r
unfolding update_request_data
updates l r e f =
    ap
      (λ k. elim k [
        | none ↦ elim r.lead [ none ↦ r | some m ↦ from_lead m r ]
        | some c ↦ from_contact c r
      ])
      e
    ∙ ap (λ k. elim k [ none ↦ r | some m ↦ from_lead m r ]) f

update_request_data_twice :
    (r : Request) → update_request_data (update_request_data r) ≡ update_request_data r
unfolding update_request_data from_contact from_lead
update_request_data_twice r = elim (Option-cases r.contact) [
  | inl e ↦ elim (Option-cases r.lead) [
    | inl f ↦ rw (e, f) (rw f (λ i. record r { contact = none; lead = f i }))
    | inr (l, f) ↦
        ap update_request_data (updates l r e f)
        ∙ updates l (from_lead l r) e f
        ∙ lead_twice l r
        ∙ sym (updates l r e f)
  ]
  | inr (c, e) ↦ rw e refl
]

-- After `update_request_data`, a request that has not both a contact and a lead passes `clean`,
-- and a second call changes nothing.
pub update_request_data_lem :
    (r : Request)
    → is_some r.contact && is_some r.lead ≡ false
    → (clean (update_request_data r) ≡ (returned tt, update_request_data r))
      × (update_request_data (update_request_data r) ≡ update_request_data r)
update_request_data_lem r h = (update_request_data-clean r h, update_request_data_twice r)
