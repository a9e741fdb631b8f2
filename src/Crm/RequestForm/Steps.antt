-- ===== src/Crm/RequestForm/Steps.antt =====
-- The steps of `save_model` that leave the links of a request and its row alone.
use agamin_crm.Prelude.{
  Bool, Bool-cases, List, Option, Option-cases, [], arith, first, inl, inr, is_some, none, not,
  opt_eq, refl, select, some, true, ℕ, ◌&&◌, ◌==◌, ◌||◌, ◌∙◌, ◌∷◌, ◌≡◌,
}
use agamin_crm.Prelude.Action.{
  Action, Outcome, returned, raised, Preserves, if_at, >>-Preserves, modify,
}
use agamin_crm.Common.FullName.{FullName}
use agamin_crm.Crm.Records.{Text, given, Company, Contact, Lead, Request, Db}
use agamin_crm.Crm.Request.Create.Accepts.{linked}
use agamin_crm.Crm.RequestForm.{
  City, RequestEdit, RequestDeal, RequestSaving, set_request, on_request, put_name,
  parse_contacts_name, set_request_owner, start_request, set_pending, copy_contact, copy_lead,
  copy_from, use_city, found_city, find_city, name_city, check_in, check_city, tell, tell_owner,
  tell_co_owner, notify_deal_owners, deal_of, notify_owner_change,
}
use agamin_crm.Crm.RequestForm.Decide.{Linking, links}

-- What the steps before and after the decision leave alone.
abbrev pub View : Type 0
View = Linking × Option Request

abbrev pub seen : RequestSaving → View
seen w = (links w.obj, w.row)

abbrev pub Keeps : Action RequestSaving (Unit {0}) → Type 0
Keeps m = (w : RequestSaving) → seen (m w).1 ≡ seen w

Keeps-Preserves :
    (m : Action RequestSaving (Unit {0})) (v : View) → Keeps m → Preserves (λ w. seen w ≡ v) m
Keeps-Preserves m v h = record { at = λ w e. h w ∙ e }

put_name-links : (o : Outcome FullName) (r : Request) → links (put_name o r).1 ≡ links r
unfolding put_name links
put_name-links (returned n) r = refl
put_name-links (raised e) r = refl

parse-links : (t : ℕ → Text → Text) (r : Request) → links (parse_contacts_name t r).1 ≡ links r
unfolding parse_contacts_name
parse-links t r = put_name-links _ r

pub parse-Keeps : (t : ℕ → Text → Text) → Keeps (on_request (parse_contacts_name t))
unfolding on_request set_request
parse-Keeps t w = λ i. (parse-links t w.obj i, w.row)

copy_from-links :
    (f : RequestEdit) (c : Option Contact) (l : Option Lead) (r : Request)
    → links (copy_from f c l r) ≡ links r
unfolding copy_from copy_contact copy_lead links
copy_from-links f (some c) none r = ground arith
copy_from-links f (some c) (some m) r = ground arith
copy_from-links f none none r = refl
copy_from-links f none (some m) r = ground arith

pub copy-Keeps :
    (f : RequestEdit) → Keeps (on_request (modify (λ r. copy_from f r.contact r.lead r)))
unfolding on_request set_request
copy-Keeps f w = λ i. (copy_from-links f w.obj.contact w.obj.lead w.obj i, w.row)

name_city-seen : (w : RequestSaving) → seen (name_city w) ≡ seen w
unfolding name_city links
name_city-seen w = elim (Option-cases w.obj.city) [
  | inl e ↦ rw e refl
  | inr (k, e) ↦ elim (Bool-cases (given w.obj.city_name)) [
    | inl g ↦ rw e (rw g refl)
    | inr g ↦ elim (Option-cases (first (select (λ c. c.id == k) w.cities))) [
      | inl h ↦ rw e (rw g (rw h refl))
      | inr (c, h) ↦ rw e (rw g (rw h refl))
    ]
  ]
]

found_city-seen :
    (new_id k : ℕ) (name : Text) (o : Outcome (List City)) (w : RequestSaving)
    → seen (found_city new_id k name o w).1 ≡ seen w
unfolding found_city use_city links
found_city-seen new_id k name (returned []) w = refl
found_city-seen new_id k name (returned (c ∷ cs)) w = refl
found_city-seen new_id k name (raised e) w = refl

tell-Keeps : (o : Option ℕ) → Keeps (tell o)
unfolding tell
tell-Keeps none w = refl
tell-Keeps (some u) w = refl

module _ (find_cities : Text → ℕ → List City → Outcome (List City)) (new_id : ℕ) where
  find_city-seen : (k : ℕ) (w : RequestSaving) → seen (find_city find_cities new_id k w).1 ≡ seen w
  unfolding find_city links
  find_city-seen k w = found_city-seen new_id k _ _ _

  check_in-seen :
      (changed : Bool) (o : Option ℕ) (w : RequestSaving)
      → seen (check_in find_cities new_id changed o w).1 ≡ seen w
  unfolding check_in
  check_in-seen changed none w = name_city-seen w
  check_in-seen changed (some k) w =
      if_at (λ v. seen v ≡ seen w) (changed && given w.obj.city_name)
        (find_city find_cities new_id k w) (returned tt, w) (find_city-seen k w) refl

  pub check_city-Keeps : (changed : Bool) → Keeps (check_city find_cities new_id changed)
  unfolding check_city
  check_city-Keeps changed w = check_in-seen changed w.obj.country w

tell_owner-Keeps : (u : ℕ) (d : RequestDeal) → Keeps (tell_owner u d)
unfolding tell_owner
tell_owner-Keeps u d w =
    if_at (λ v. seen v ≡ seen w) (opt_eq d.owner (some u)) (returned tt, w) (tell d.owner w) refl
      (tell-Keeps d.owner w)

tell_co_owner-Keeps : (u : ℕ) (d : RequestDeal) → Keeps (tell_co_owner u d)
unfolding tell_co_owner
tell_co_owner-Keeps u d w =
    if_at (λ v. seen v ≡ seen w) (is_some d.co_owner && not (opt_eq d.co_owner (some u)))
      (tell d.co_owner w) (returned tt, w) (tell-Keeps d.co_owner w) refl

notify_deal_owners-Keeps : (u : ℕ) (d : RequestDeal) → Keeps (notify_deal_owners u d)
unfolding notify_deal_owners
notify_deal_owners-Keeps u d w =
    (>>-Preserves (tell_owner u d) (tell_co_owner u d)
        (Keeps-Preserves (tell_owner u d) (seen w) (tell_owner-Keeps u d))
        (Keeps-Preserves (tell_co_owner u d) (seen w) (tell_co_owner-Keeps u d))).at
      w refl

pub notify-Keeps : (f : RequestEdit) → Keeps (notify_owner_change f)
unfolding notify_owner_change
notify-Keeps f w = elim (Option-cases (deal_of w.obj.deal w.deals)) [
  | inl e ↦ if_at (λ v. seen v ≡ seen w) f.changed_owner _ (returned tt, w) (rw e refl) refl
  | inr (d, e) ↦
      if_at (λ v. seen v ≡ seen w) f.changed_owner _ (returned tt, w)
        (rw e (notify_deal_owners-Keeps f.user d w)) refl
]

pub set_owner-links :
    (db : Db) (f : RequestEdit) (r : Request) → links (set_request_owner db f r) ≡ links r
unfolding set_request_owner links
set_owner-links db f r = refl

pub start-links : (db : Db) (f : RequestEdit) (r : Request) → links (start_request db f r) ≡ links r
unfolding start_request links
start-links db f r = elim (Bool-cases f.change) [
  | inl e ↦ rw e refl
  | inr e ↦ rw e (set_owner-links db f r)
]

-- What `set_pending` leaves alone.
abbrev pub Parties : Request → Option Company → Type 0
Parties r k = (linked r.contact r.lead r.company ≡ true) × (r.company ≡ k)

pub set_pending-Parties :
    (f : RequestEdit) (k : Option Company) (r : Request) → Parties r k → Parties (set_pending f r) k
unfolding set_pending
set_pending-Parties f k r h =
    elim (Bool-cases (f.deal_button || (f.changed_duplicate && r.duplicate))) [
      | inl e ↦ rw e h
      | inr e ↦ rw e h
    ]
