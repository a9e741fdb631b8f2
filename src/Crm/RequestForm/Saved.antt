-- ===== src/Crm/RequestForm/Saved.antt =====
-- The request that `save_model` of the form writes.
use agamin_crm.Prelude.{
  List, Option, ap, false, is_some, refl, some, subst, sym, true, ℕ, ◌||◌, ◌∙◌, ◌≡◌,
}
use agamin_crm.Prelude.Action.{Action, Outcome, returned, raised, Leaves, >>-Leaves, modify, ◌>>◌}
use agamin_crm.Crm.Records.{Text, Company, Request, Db}
use agamin_crm.Crm.Request.Create.{clean}
use agamin_crm.Crm.Request.Create.Accepts.{linked, clean-linked, linked-clean}
use agamin_crm.Crm.RequestForm.{
  City, RequestEdit, RequestSaving, set_request, on_request, parse_contacts_name, set_request_owner,
  start_request, set_pending, decide, copy_from, check_city, notify_owner_change, save_request,
  save_model,
}
use agamin_crm.Crm.RequestForm.Decide.{links, Decided, decide-links}
use agamin_crm.Crm.RequestForm.Steps.{
  View, seen, Keeps, parse-Keeps, copy-Keeps, check_city-Keeps, notify-Keeps, start-links, Parties,
  set_pending-Parties,
}

-- A request as it was written: `clean` accepts it, it has an owner, and one that does not wait
-- names a contact or a lead, unless it came with the company `k`.
pub record IsSaved (k : Option Company) (w : RequestSaving) : Type 0 where
  pub in_row : w.row ≡ some w.obj
  pub accepted : clean w.obj ≡ (returned tt, w.obj)
  pub owned : is_some w.obj.owner ≡ true
  pub named :
      w.obj.pending ≡ false → is_some w.obj.contact || is_some w.obj.lead || is_some k ≡ true

-- The row is the old one.
abbrev pub Unwritten : Option Request → RequestSaving → Type 0
Unwritten row w = w.row ≡ row

-- Before the decision, and after it.
abbrev Before : Option Company → Option Request → View → Type 0
Before k row v = (linked v.0.contact v.0.lead v.0.company ≡ true) × (v.0.company ≡ k) × (v.1 ≡ row)

abbrev After : Option Company → Option Request → View → Type 0
After k row v = Decided k v.0 × (v.1 ≡ row)

pub kept-Leaves :
    (P : View → Type 0) (row : Option Request) (o : Outcome (Unit {0})) (v w : RequestSaving)
    → seen v ≡ seen w
    → P (seen w)
    → w.row ≡ row
    → Leaves (λ s. P (seen s)) (Unwritten row) (o, v)
kept-Leaves P row (returned u) v w e h g = subst P (sym e) h
kept-Leaves P row (raised x) v w e h g = ap (λ s. s.1) e ∙ g

pub on_request-Leaves :
    (P : Request → Type 0) (row : Option Request) (out : Outcome (Unit {0}) × Request)
    (w : RequestSaving)
    → Leaves P (λ r. Unit {0}) out
    → w.row ≡ row
    → Leaves (λ s. P s.obj × (s.row ≡ row)) (Unwritten row) (out.0, set_request out.1 w)
unfolding set_request
on_request-Leaves P row (returned u, r) w h g = (h, g)
on_request-Leaves P row (raised e, r) w h g = g

module _ (db : Db) (truncatechars : ℕ → Text → Text)
    (find_cities : Text → ℕ → List City → Outcome (List City)) (key new_id : ℕ) (f : RequestEdit)
    (k : Option Company) (row : Option Request) where
  start-Leaves :
      (w : RequestSaving)
      → Before k row (seen w)
      → Leaves
          (λ s. Before k row (seen s))
          (Unwritten row)
          (on_request (modify (λ r. set_pending f (start_request db f r))) w)
  unfolding on_request set_request links
  start-Leaves w h =
      let p : Parties (set_pending f (start_request db f w.obj)) k =
        set_pending-Parties f k (start_request db f w.obj) (
          subst (λ v. (linked v.contact v.lead v.company ≡ true) × (v.company ≡ k))
            (sym (start-links db f w.obj)) (h.0, h.1)) in
      (p.0, p.1, h.2)

  decide-Leaves :
      (w : RequestSaving)
      → Before k row (seen w)
      → Leaves (λ s. After k row (seen s)) (Unwritten row) (on_request (decide db key f) w)
  unfolding on_request links
  decide-Leaves w h =
      on_request-Leaves (λ r. Decided k (links r)) row (decide db key f w.obj) w
        (subst (λ j. Leaves (λ r. Decided j (links r)) (λ r. Unit {0}) (decide db key f w.obj)) h.1
          (decide-links db key f w.obj h.0))
        h.2

  -- The rest of `save_model`, from the last step backwards.
  abbrev ending : Action RequestSaving (Unit {0})
  ending = on_request (modify (set_request_owner db f)) >> modify save_request

  abbrev from_city : Action RequestSaving (Unit {0})
  from_city = check_city find_cities new_id f.changed_city_name >> ending

  abbrev from_copy : Action RequestSaving (Unit {0})
  from_copy = on_request (modify (λ r. copy_from f r.contact r.lead r)) >> from_city

  abbrev from_notice : Action RequestSaving (Unit {0})
  from_notice = notify_owner_change f >> from_copy

  abbrev from_decision : Action RequestSaving (Unit {0})
  from_decision = on_request (decide db key f) >> from_notice

  abbrev from_start : Action RequestSaving (Unit {0})
  from_start = on_request (modify (λ r. set_pending f (start_request db f r))) >> from_decision

  -- What a part of `save_model` leads to from states with a property.
  abbrev Goes : (View → Type 0) → Action RequestSaving (Unit {0}) → Type 0
  Goes P m = (w : RequestSaving) → P (seen w) → Leaves (IsSaved k) (Unwritten row) (m w)

  ending-Goes : Goes (After k row) ending
  unfolding on_request set_request save_request set_request_owner links
  ending-Goes w h = record {
    in_row = refl;
    accepted = linked-clean _ h.0.linked;
    owned = refl;
    named = h.0.named;
  }

  keep-Goes :
      (P : View → Type 0) (m rest : Action RequestSaving (Unit {0}))
      → ((v : View) → P v → v.1 ≡ row)
      → Keeps m
      → Goes P rest
      → Goes P (m >> rest)
  keep-Goes P m rest weak keep next w h =
      >>-Leaves (λ s. P (seen s)) (IsSaved k) (Unwritten row) m rest w
        (kept-Leaves P row (m w).0 (m w).1 w (keep w) h (weak (seen w) h)) next

  from_notice-Goes : Goes (After k row) from_notice
  from_notice-Goes =
      keep-Goes (After k row) (notify_owner_change f) from_copy (λ v h. h.1) (notify-Keeps f)
        (keep-Goes (After k row) (on_request (modify (λ r. copy_from f r.contact r.lead r)))
          from_city (λ v h. h.1) (copy-Keeps f)
          (keep-Goes (After k row) (check_city find_cities new_id f.changed_city_name) ending
            (λ v h. h.1) (check_city-Keeps find_cities new_id f.changed_city_name) ending-Goes))

  from_start-Goes : Goes (Before k row) from_start
  from_start-Goes w h =
      >>-Leaves (λ s. Before k row (seen s)) (IsSaved k) (Unwritten row)
        (on_request (modify (λ r. set_pending f (start_request db f r)))) from_decision w
        (start-Leaves w h)
        (λ s g.
          >>-Leaves (λ t. After k row (seen t)) (IsSaved k) (Unwritten row)
            (on_request (decide db key f)) from_notice s (decide-Leaves s g) from_notice-Goes)

module _ (db : Db) (truncatechars : ℕ → Text → Text)
    (find_cities : Text → ℕ → List City → Outcome (List City)) (key new_id : ℕ)
    (f : RequestEdit) where
  -- If the form's `clean` accepts a request, `save_model` either raises, and then the row is the
  -- old one, or writes the request: `clean` accepts what was written, and it has an owner. One that
  -- does not wait then names a contact or a lead, unless it came to the form with a company.
  pub save_model-IsSaved :
      (w : RequestSaving)
      → clean w.obj ≡ (returned tt, w.obj)
      → Leaves
          (IsSaved w.obj.company)
          (λ v. v.row ≡ w.row)
          (save_model db truncatechars find_cities key new_id f w)
  unfolding save_model links
  save_model-IsSaved w h =
      keep-Goes db truncatechars find_cities key new_id f w.obj.company w.row
        (Before w.obj.company w.row) (on_request (parse_contacts_name truncatechars))
        (from_start db truncatechars find_cities key new_id f w.obj.company w.row) (λ v g. g.2)
        (parse-Keeps truncatechars)
        (from_start-Goes db truncatechars find_cities key new_id f w.obj.company w.row) w
        (clean-linked w.obj h, refl, refl)
