-- ===== src/Crm/RequestForm/WebRequest/Entered.antt =====
-- The request that `create_form_request` stores.
use agamin_crm.Prelude.{
  Bool, List, Option, false, if◌then◌else◌, is_some, none, refl, some, subst, sym, true, ℕ, ◌&&◌,
  ◌∙◌, ◌≡◌,
}
use agamin_crm.Prelude.Action.{
  Action, Outcome, returned, raised, Leaves, >>-Leaves, pick-Leaves, if_at, >>-Preserves, modify,
  ◌>>◌,
}
use agamin_crm.Common.FullName.{FullName, parse_full_name}
use agamin_crm.Crm.Records.{Text, Contact, Lead, Company, Request, Db}
use agamin_crm.Crm.Request.Search.{find_contact_or_lead}
use agamin_crm.Crm.Request.Search.Result.{Ended, find_contact_or_lead_lem}
use agamin_crm.Crm.Request.Create.{clean, update_request_data}
use agamin_crm.Crm.Request.Create.Accepts.{linked, IsSound-linked}
use agamin_crm.Crm.Request.Create.Linked.{IsFresh, found-IsSound, update_request_data-clean}
use agamin_crm.Crm.RequestForm.{
  City, RequestSaving, set_request, on_request, check_city, tell, save_request,
}
use agamin_crm.Crm.RequestForm.Decide.{links}
use agamin_crm.Crm.RequestForm.Steps.{View, seen, Keeps, check_city-Keeps}
use agamin_crm.Crm.RequestForm.Saved.{Unwritten, kept-Leaves, on_request-Leaves}
use agamin_crm.Crm.RequestForm.WebRequest.{
  WebForm, LeadSource, web_request, put_request, create_request, is_missing, enter_country, place,
  locate, look_up, notify_request_owners, notify_if_owned, enter_request,
}

-- The row is the request, and `clean` accepts it.
pub record IsEntered (w : RequestSaving) : Type 0 where
  pub entered : w.row ≡ some w.obj
  pub fits : clean w.obj ≡ (returned tt, w.obj)

one_party :
    (c : Option Contact) (l : Option Lead) (k : Option Company)
    → linked c l k ≡ true
    → is_some c && is_some l ≡ false
unfolding linked
one_party none l k h = refl
one_party (some c) none k h = refl
one_party (some c) (some m) k h = absurd (cc)

-- A request without a contact and a lead has not both afterwards.
looked_up :
    (db : Db) (r s : Request) (o : Outcome Bool)
    → IsFresh r
    → Ended db r (o, s)
    → Leaves
        (λ s. is_some s.contact && is_some s.lead ≡ false)
        (λ s. Unit {0})
        (elim o as (λ _. Outcome (Unit {0}) × Request) [
          | returned found ↦ (returned tt, s)
          | raised e ↦ (raised e, s)
        ])
looked_up db r s (returned true) f (q, row, name, e) =
    subst (λ s. is_some s.contact && is_some s.lead ≡ false) (sym e)
      (one_party _ _ _ (IsSound-linked r.company _ (found-IsSound q r f)).0)
looked_up db r s (returned false) f h =
    subst (λ s. is_some s.contact && is_some s.lead ≡ false) (sym h) (rw (f.contact) refl)
looked_up db r s (raised e) f h = tt

look_up-Leaves :
    (db : Db) (r : Request)
    → IsFresh r
    → Leaves (λ s. is_some s.contact && is_some s.lead ≡ false) (λ s. Unit {0}) (look_up db r)
unfolding look_up
look_up-Leaves db r f =
    looked_up db r (find_contact_or_lead db r).1 (find_contact_or_lead db r).0 f
      (find_contact_or_lead_lem db r)

-- A notice to somebody is sent.
tell-Leaves :
    (U : RequestSaving → Type 0) (o : Option ℕ) (w : RequestSaving)
    → is_some o ≡ true
    → IsEntered w
    → Leaves IsEntered U (tell o w)
unfolding tell
tell-Leaves U none w e h = absurd (cc)
tell-Leaves U (some u) w e h = record { entered = h.entered; fits = h.fits }

-- The notices do not fail, since the owner is there.
notify_if_owned-Leaves :
    (U : RequestSaving → Type 0) (w : RequestSaving)
    → IsEntered w
    → Leaves IsEntered U (notify_if_owned w)
unfolding notify_if_owned notify_request_owners
notify_if_owned-Leaves U w h =
    pick-Leaves IsEntered U (is_some w.obj.owner) (notify_request_owners w) (returned tt, w)
      (λ e.
        >>-Leaves IsEntered IsEntered U (λ v. tell v.obj.owner v)
          (λ v. if is_some v.obj.co_owner then tell v.obj.co_owner v else (returned tt, v)) w
          (tell-Leaves U w.obj.owner w e h)
          (λ v g.
            pick-Leaves IsEntered U (is_some v.obj.co_owner) (tell v.obj.co_owner v)
              (returned tt, v) (λ e. tell-Leaves U v.obj.co_owner v e g) (λ e. g)))
      (λ e. h)

country-Keeps : (o : Outcome ℕ) → Keeps (enter_country o)
unfolding enter_country links
country-Keeps (returned k) w = refl
country-Keeps (raised e) w =
    if_at (λ v. seen v ≡ seen w) (is_missing e) (returned tt, w) (raised e, w) refl refl

-- A request without a contact and a lead, and with the old row.
abbrev Blank : Option Request → View → Type 0
Blank row v = (v.0.contact ≡ none) × (v.0.lead ≡ none) × (v.1 ≡ row)

module _ (find_country : Text → Outcome ℕ)
    (find_cities : Text → ℕ → List City → Outcome (List City)) (new_id : ℕ) where
  place-Keeps : (name : Text) → Keeps (place find_country find_cities new_id name)
  unfolding place
  place-Keeps name w =
      (>>-Preserves {P = λ v. seen v ≡ seen w} (enter_country (find_country name))
          (check_city find_cities new_id true)
          (record { at = λ v e. country-Keeps (find_country name) v ∙ e })
          (record { at = λ v e. check_city-Keeps find_cities new_id true v ∙ e })).at
        w refl

  locate-Keeps : (name : Text) → Keeps (locate find_country find_cities new_id name)
  unfolding locate
  locate-Keeps name w =
      if_at (λ v. seen v ≡ seen w) _ (place find_country find_cities new_id name w) (returned tt, w)
        (place-Keeps name w) refl

create_request-Leaves :
    (form : WebForm) (source : LeadSource) (ticket : Text) (today : ℕ) (o : Outcome FullName)
    (w : RequestSaving)
    → Leaves
        (λ s. Blank w.row (seen s))
        (Unwritten w.row)
        (put_request form source ticket today o w)
unfolding put_request web_request set_request links
create_request-Leaves form source ticket today (returned n) w = (refl, refl, refl)
create_request-Leaves form source ticket today (raised e) w = refl

-- One party at most, and the old row.
abbrev Single : Option Request → RequestSaving → Type 0
Single row w = (is_some w.obj.contact && is_some w.obj.lead ≡ false) × (w.row ≡ row)

look_up_step :
    (db : Db) (row : Option Request) (w : RequestSaving)
    → Blank row (seen w)
    → Leaves (Single row) (Unwritten row) (on_request (look_up db) w)
unfolding on_request links
look_up_step db row w h =
    on_request-Leaves (λ s. is_some s.contact && is_some s.lead ≡ false) row (look_up db w.obj) w
      (look_up-Leaves db w.obj (record { contact = h.0; lead = h.1 })) h.2

abbrev ending : Action RequestSaving (Unit {0})
ending = on_request (modify update_request_data) >> (modify save_request >> notify_if_owned)

ending-Leaves :
    (row : Option Request) (w : RequestSaving)
    → Single row w
    → Leaves IsEntered (Unwritten row) (ending w)
unfolding on_request set_request save_request
ending-Leaves row w h =
    notify_if_owned-Leaves (Unwritten row)
      (save_request (set_request (update_request_data w.obj) w))
      (record { entered = refl; fits = update_request_data-clean w.obj h.0 })

-- The entry of a request raises with the old row, or the row is the request and `clean` accepts it.
pub enter_request-IsEntered :
    (db : Db) (truncatechars : ℕ → Text → Text) (find_country : Text → Outcome ℕ)
    (find_cities : Text → ℕ → List City → Outcome (List City)) (new_id today : ℕ) (ticket : Text)
    (form : WebForm) (source : LeadSource) (w : RequestSaving)
    → Leaves IsEntered
        (λ v. v.row ≡ w.row)
        (enter_request db truncatechars find_country find_cities new_id today ticket form source w)
unfolding enter_request create_request
enter_request-IsEntered db truncatechars find_country find_cities new_id today ticket form source
      w =
    let place_it = locate find_country find_cities new_id form.country in
    >>-Leaves (λ s. Blank w.row (seen s)) IsEntered (Unwritten w.row)
      (create_request form source ticket today truncatechars)
      (place_it >> (on_request (look_up db) >> ending)) w
      (create_request-Leaves form source ticket today (parse_full_name truncatechars form.name) w)
      (λ s g.
        >>-Leaves (λ t. Blank w.row (seen t)) IsEntered (Unwritten w.row) place_it
          (on_request (look_up db) >> ending) s
          (kept-Leaves (Blank w.row) w.row (place_it s).0 (place_it s).1 s
            (locate-Keeps find_country find_cities new_id form.country s) g g.2)
          (λ t k.
            >>-Leaves (Single w.row) IsEntered (Unwritten w.row) (on_request (look_up db)) ending t
              (look_up_step db w.row t k) (ending-Leaves w.row)))
