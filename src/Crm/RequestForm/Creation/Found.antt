-- ===== src/Crm/RequestForm/Creation/Found.antt =====
-- What the look-up of the deal of a request gives, or its creation.
use agamin_crm.Prelude.{
  List, Option, [], arith, length, none, refl, select-append, some, subst, sym, true, ℕ, ◌∙◌, ◌∷◌,
  ◌≡◌, ◌≤◌,
}
use agamin_crm.Prelude.Action.{Outcome, returned, raised}
use agamin_crm.Common.RemindMe.{same_text}
use agamin_crm.Crm.Records.{Text, Contact, Lead, Request, Db}
use agamin_crm.Crm.Request.Create.{get_department_id}
use agamin_crm.Crm.RequestForm.{RequestDeal, RequestSaving, set_request, on_request}
use agamin_crm.Crm.RequestForm.Creation.{
  Settings, currency_of, is_deal_of, deals_of, bare_deal, enter_parties, new_deal, store_deal,
  finish_deal, make_deal, choose_deal, get_or_create_deal,
}

same_text_refl : (t : Text) → same_text t t ≡ true
unfolding same_text
same_text_refl [] = refl
same_text_refl (c ∷ t) = rw (same_text_refl t) (ground arith)

-- One deal of the request at most.
abbrev pub AtMostOne : RequestSaving → Type 0
AtMostOne w = length (deals_of w) ≤ 1

module _ (t : Settings) (key id : ℕ) (dep c : Option ℕ) (r : Request) where
  entered :
      (o : Option Contact) (l : Option Lead) (d : RequestDeal)
      → is_deal_of id r.ticket (enter_parties o l d) ≡ is_deal_of id r.ticket d
  unfolding enter_parties is_deal_of
  entered (some k) l d = refl
  entered none (some m) d = refl
  entered none none d = refl

  -- The new deal is one of the request.
  new_deal-fits : is_deal_of id r.ticket (new_deal t key id dep c r) ≡ true
  unfolding new_deal is_deal_of bare_deal
  new_deal-fits = entered r.contact r.lead (bare_deal t key id dep c r) ∙ bare
    where
      bare : is_deal_of id r.ticket (bare_deal t key id dep c r) ≡ true
      bare = rw (same_text_refl r.ticket) (ground arith)

-- What a look-up or a creation gives: the deal alone.
abbrev pub Got : Outcome RequestDeal × RequestSaving → Type 0
Got (returned d, v) = deals_of v ≡ d ∷ []
Got (raised e, v) = AtMostOne v

module _ (db : Db) (t : Settings) (key : ℕ) (w : RequestSaving) where
  none_yet : deals_of w ≡ [] → AtMostOne w
  none_yet h = subst (λ ds. length ds ≤ 1) (sym h) (omega arith)

  finished :
      (dep : Option ℕ) (o : Outcome (Option ℕ))
      → deals_of w ≡ []
      → Got (finish_deal db t key dep o w)
  unfolding finish_deal store_deal
  finished dep (raised e) h = none_yet h
  finished dep (returned c) h =
      select-append (is_deal_of w.id w.obj.ticket) w.deals (new_deal t key w.id dep c w.obj ∷ [])
      ∙ rw (h, new_deal-fits t key w.id dep c w.obj) refl

  after_department :
      (q : Outcome (Option ℕ) × RequestSaving)
      → q.1 ≡ w
      → deals_of w ≡ []
      → Got (elim q.0 as (λ _. Outcome RequestDeal × RequestSaving) [
        | returned dep ↦ finish_deal db t key dep (currency_of t) q.1
        | raised e ↦ (raised e, q.1)
      ])
  after_department (returned dep, v) e h =
      subst (λ v. Got (finish_deal db t key dep (currency_of t) v)) (sym e)
        (finished dep (currency_of t) h)
  after_department (raised x, v) e h = subst AtMostOne (sym e) (none_yet h)

  pub same_request : (o : Option ℕ) (r : Request) → (get_department_id db o r).1 ≡ r
  unfolding get_department_id
  same_request none r = refl
  same_request (some u) r = refl

  make_deal-Got : deals_of w ≡ [] → Got (make_deal db t key w)
  unfolding make_deal on_request set_request
  make_deal-Got h =
      after_department (on_request (λ r. get_department_id db r.owner r) w)
        (λ i. set_request (same_request w.obj.owner w.obj i) w) h

  choose_deal-Got :
      (ds : List RequestDeal) → deals_of w ≡ ds → AtMostOne w → Got (choose_deal db t key ds w)
  unfolding choose_deal
  choose_deal-Got [] h one = make_deal-Got h
  choose_deal-Got (d ∷ []) h one = h
  choose_deal-Got (d ∷ e ∷ ds) h one = one

  pub get_or_create_deal-Got : AtMostOne w → Got (get_or_create_deal db t key w)
  unfolding get_or_create_deal
  get_or_create_deal-Got one = choose_deal-Got (deals_of w) refl one
