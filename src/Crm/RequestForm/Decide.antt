-- ===== src/Crm/RequestForm/Decide.antt =====
-- The links of a request that `save_model` writes.
use agamin_crm.Prelude.{
  Bool, Bool-cases, Option, Option-cases, ap, arith, false, inl, inr, is_some, none, refl, some,
  subst, sym, true, ℕ, ◌||◌, ◌∙◌, ◌≡◌,
}
use agamin_crm.Prelude.Action.{
  Outcome, returned, raised, Leaves, >>-Leaves, weak-Leaves, pick-Leaves, modify, ◌>>◌,
}
use agamin_crm.Crm.Records.{
  Company, Contact, Lead, Request, Person, of_contact, of_lead, same_company, Db,
}
use agamin_crm.Crm.Request.Search.{set_contact, find_contact_or_lead}
use agamin_crm.Crm.Request.Search.Result.{Ended, find_contact_or_lead_lem}
use agamin_crm.Crm.Request.Company.Decision.{find_company-SameBut}
use agamin_crm.Crm.Request.Create.Linked.{
  IsFresh, Settled, same_self, found-IsSound, get_or_create-IsSound,
}
use agamin_crm.Crm.Request.Create.Accepts.{linked, IsSound-linked}
use agamin_crm.Crm.RequestForm.{
  RequestEdit, get_or_create, take_owner, take_company, fill_company, process, find, match_company,
  await, decide,
}

-- What `clean` looks at, and whether the request waits.
pub record Linking : Type 0 where
  pub contact : Option Contact
  pub lead : Option Lead
  pub company : Option Company
  pub pending : Bool

unfoldable pub links : Request → Linking
links r = record { contact = r.contact; lead = r.lead; company = r.company; pending = r.pending }

abbrev IsLinked : Linking → Type 0
IsLinked v = linked v.contact v.lead v.company ≡ true

-- Someone is named by the request, or it came with the company `k`.
abbrev Names : Option Company → Linking → Type 0
Names k v = is_some v.contact || is_some v.lead || is_some k ≡ true

-- How `decide` leaves the request.
pub record Decided (k : Option Company) (v : Linking) : Type 0 where
  pub linked : IsLinked v
  pub named : v.pending ≡ false → Names k v

module _ (db : Db) (key : ℕ) where
  -- Nobody is named yet.
  nobody : (r : Request) → is_some r.contact || is_some r.lead ≡ false → IsFresh r
  nobody r h = elim (Option-cases r.contact) [
    | inl e ↦ elim (Option-cases r.lead) [
      | inl f ↦ record { contact = e; lead = f }
      | inr (l, f) ↦ absurd (ground arith)
    ]
    | inr (c, e) ↦ absurd (ground arith)
  ]

  settled :
      (r : Request) (out : Outcome (Unit {0}) × Request)
      → Settled r.company out
      → Leaves (λ s. IsLinked (links s) × Names r.company (links s)) (λ s. Unit {0}) out
  unfolding links
  settled r (returned u, s) h = IsSound-linked r.company s h
  settled r (raised e, s) h = tt

  get_or_create-links :
      (r : Request)
      → IsLinked (links r)
      → Leaves
          (λ s. IsLinked (links s) × Names r.company (links s))
          (λ s. Unit {0})
          (get_or_create db key r)
  unfolding links get_or_create
  get_or_create-links r h = elim (Bool-cases (is_some r.contact || is_some r.lead)) [
    | inl e ↦ rw e (h, ground arith)
    | inr e ↦ rw e (settled r _ (get_or_create-IsSound db key r (nobody r e)))
  ]

  found-pending : (p : Person) (r : Request) → (set_contact p r).pending ≡ r.pending
  unfolding set_contact
  found-pending (of_lead l) r = refl
  found-pending (of_contact c) r = elim (Bool-cases (is_some r.company)) [
    | inl e ↦ elim (Bool-cases (same_company r.company c.company)) [
      | inl f ↦ rw (e, f) refl
      | inr f ↦ rw (e, f) refl
    ]
    | inr e ↦ rw e refl
  ]

  -- What holds once a person was looked for.
  abbrev Waiting : Request → Type 0
  Waiting s = IsLinked (links s) × (s.pending ≡ true)

  fresh-linked : (t : Request) → IsFresh t → IsLinked (links t)
  unfolding links linked
  fresh-linked t g = rw (g.contact) refl

  searched :
      (r s : Request) (o : Outcome Bool)
      → IsFresh r
      → r.pending ≡ true
      → Ended db r (o, s)
      → Leaves Waiting
          (λ s. Unit {0})
          (elim o as (λ _. Outcome (Unit {0}) × Request) [
            | returned found ↦ (returned tt, s)
            | raised e ↦ (raised e, s)
          ])
  unfolding links
  searched r s (returned true) f p (q, row, name, e) =
      subst Waiting (sym e)
        ((IsSound-linked r.company _ (found-IsSound q r f)).0, found-pending q r ∙ p)
  searched r s (returned false) f p h = subst Waiting (sym h) (fresh-linked r f, p)
  searched r s (raised e) f p h = tt

  find-links : (r : Request) → Waiting r → Leaves Waiting (λ s. Unit {0}) (find db r)
  unfolding find links
  find-links r h = elim (Bool-cases (is_some r.contact || is_some r.lead)) [
    | inl e ↦ rw e h
    | inr e ↦ rw e (
        searched r (find_contact_or_lead db r).1 (find_contact_or_lead db r).0 (nobody r e) h.1
          (find_contact_or_lead_lem db r))
  ]

  -- A contact brings its own company.
  own_company :
      (c : Contact) (o : Option Contact) (l : Option Lead) (k : Option Company)
      → o ≡ some c
      → linked o l k ≡ true
      → linked o l (some c.company) ≡ true
  unfolding linked
  own_company c none l k e h = refl
  own_company c (some b) none k e h =
      subst (λ o. linked o none (some c.company) ≡ true) (sym e) (same_self c.company)
  own_company c (some b) (some m) none e h = h
  own_company c (some b) (some m) (some d) e h = h

  nobody_named :
      (c : Option Contact) (l : Option Lead) (k : Option Company) → c ≡ none → linked c l k ≡ true
  unfolding linked
  nobody_named c l k h = rw h refl

  match_company-Waiting : (r : Request) → Waiting r → Waiting (match_company db r)
  unfolding match_company links
  match_company-Waiting r h = elim (Option-cases r.contact) [
    | inl e ↦ elim (Bool-cases (is_some r.company)) [
      | inl f ↦ rw e (rw f h)
      | inr f ↦ rw e (
          rw f (
            nobody_named _ _ _ (ap (λ x. x.contact) (find_company-SameBut db r).same ∙ e),
            ap (λ x. x.pending) (find_company-SameBut db r).same ∙ h.1,
          ))
    ]
    | inr (c, e) ↦ rw e (own_company c r.contact r.lead r.company e h.0, h.1)
  ]

  -- What holds once somebody is named.
  abbrev Named : Option Company → Request → Type 0
  Named k s = IsLinked (links s) × Names k (links s)

  take_company-Named : (k : Option Company) (r : Request) → Named k r → Named k (take_company r)
  unfolding take_company links
  take_company-Named k r h = elim (Bool-cases (is_some r.company)) [
    | inl f ↦ rw f h
    | inr f ↦ elim (Option-cases r.contact) [
      | inl e ↦ rw (f, e) h
      | inr (c, e) ↦ rw (f, e) (own_company c r.contact r.lead r.company e h.0, h.1)
    ]
  ]

  fill_company-Named : (k d : Option Company) (r : Request) → Named k r → Named k (fill_company d r)
  unfolding fill_company links
  fill_company-Named k none r h = h
  fill_company-Named k (some c) r h = h

  take_owner-links : (f : RequestEdit) (r : Request) → links (take_owner f r) ≡ links r
  unfolding take_owner links
  take_owner-links f r = elim (Bool-cases (is_some r.owner)) [
    | inl e ↦ rw e refl
    | inr e ↦ rw e refl
  ]

  owned-links :
      (f : RequestEdit) (r : Request)
      → IsLinked (links r)
      → Leaves (Named r.company) (λ s. Unit {0}) (get_or_create db key (take_owner f r))
  unfolding links
  owned-links f r h =
      subst (λ k. Leaves (Named k) (λ s. Unit {0}) (get_or_create db key (take_owner f r)))
        (ap (λ v. v.company) (take_owner-links f r))
        (get_or_create-links (take_owner f r) (subst IsLinked (sym (take_owner-links f r)) h))

  process-links :
      (f : RequestEdit) (r : Request)
      → IsLinked (links r)
      → Leaves (Named r.company) (λ s. Unit {0}) (process db key f r)
  unfolding process
  process-links f r h =
      >>-Leaves (Named r.company) (Named r.company) (λ s. Unit {0}) (get_or_create db key)
        (modify take_company >> modify (λ s. fill_company s.company s)) (take_owner f r)
        (owned-links f r h)
        (λ s g.
          fill_company-Named r.company (take_company s).company (take_company s)
            (take_company-Named r.company s g))

  await-links : (r : Request) → Waiting r → Leaves Waiting (λ s. Unit {0}) (await db r)
  unfolding await
  await-links r h =
      >>-Leaves Waiting Waiting (λ s. Unit {0}) (find db) (modify (match_company db)) r
        (find-links r h) match_company-Waiting

  Waiting-Decided : (k : Option Company) (s : Request) → Waiting s → Decided k (links s)
  unfolding links
  Waiting-Decided k s g = record { linked = g.0; named = λ p. absurd (cc) }

  pub decide-links :
      (f : RequestEdit) (r : Request)
      → IsLinked (links r)
      → Leaves (λ s. Decided r.company (links s)) (λ s. Unit {0}) (decide db key f r)
  unfolding decide
  decide-links f r h =
      pick-Leaves (λ s. Decided r.company (links s)) (λ s. Unit {0}) r.pending (await db r)
        (process db key f r)
        (λ e.
          weak-Leaves Waiting (λ s. Decided r.company (links s)) (λ s. Unit {0}) (await db r)
            (Waiting-Decided r.company) (await-links r (h, e)))
        (λ e.
          weak-Leaves (Named r.company) (λ s. Decided r.company (links s)) (λ s. Unit {0})
            (process db key f r) (λ s g. record { linked = g.0; named = λ _. g.1 })
            (process-links f r h))
