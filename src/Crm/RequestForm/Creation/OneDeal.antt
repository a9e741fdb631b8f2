-- ===== src/Crm/RequestForm/Creation/OneDeal.antt =====
-- The button for a deal leaves one deal of the request.
use agamin_crm.Prelude.{
  Bool, List, Option, [], ap, arith, false, if◌then◌else◌, is_some, length, map, none, not, opt_eq,
  refl, select, some, subst, sym, true, ℕ, ◌&&◌, ◌||◌, ◌∙◌, ◌∷◌, ◌≡◌, ◌≤◌,
}
use agamin_crm.Prelude.Action.{
  Outcome, returned, raised, Leaves, Preserves, if_at, >>-Preserves, ◌>>=◌,
}
use agamin_crm.Crm.Records.{Text, Request, Db}
use agamin_crm.Crm.RequestForm.{
  RequestEdit, RequestDeal, RequestEmail, RequestSaving, tell, tell_owner, tell_co_owner,
  notify_deal_owners,
}
use agamin_crm.Crm.RequestForm.Creation.{
  Settings, is_deal_of, deals_of, get_or_create_deal, take_deal, is_unlinked, give_deal, link_deal,
  enter_deal, is_wanted, create_deal,
}
use agamin_crm.Crm.RequestForm.Creation.Found.{AtMostOne, Got, get_or_create_deal-Got}

-- The table has the deal alone for the request; the request and all letters of its ticket have it.
pub record HasDeal (w : RequestSaving) : Type 0 where
  pub deal : RequestDeal
  pub alone : deals_of w ≡ deal ∷ []
  pub taken : w.obj.deal ≡ some deal.id
  pub settled : select (is_unlinked w.obj.ticket) w.emails ≡ []

closed_letter :
    (ticket : Text) (d : RequestDeal) (e : RequestEmail) (b : Bool)
    → is_unlinked ticket e ≡ b
    → is_unlinked ticket (if b then record e { deal = some d.id } else e) ≡ false
unfolding is_unlinked
closed_letter ticket d e true h = ground arith
closed_letter ticket d e false h = h

-- No letter of the ticket is left without a deal.
give_deal-settled :
    (ticket : Text) (d : RequestDeal) (es : List RequestEmail)
    → select (is_unlinked ticket) (map (give_deal ticket d) es) ≡ []
unfolding give_deal
give_deal-settled ticket d [] = refl
give_deal-settled ticket d (e ∷ es) =
    rw (closed_letter ticket d e (is_unlinked ticket e) refl) (give_deal-settled ticket d es)

tell-HasDeal : (o : Option ℕ) → Preserves HasDeal (tell o)
unfolding tell
tell-HasDeal none = record { at = λ w h. h }
tell-HasDeal (some u) = record {
  at = λ w h. record { deal = h.deal; alone = h.alone; taken = h.taken; settled = h.settled };
}

tell_owner-HasDeal : (user : ℕ) (d : RequestDeal) → Preserves HasDeal (tell_owner user d)
unfolding tell_owner
tell_owner-HasDeal user d = record {
  at = λ w h.
      if_at HasDeal (opt_eq d.owner (some user)) (returned tt, w) (tell d.owner w) h
        ((tell-HasDeal d.owner).at w h);
}

tell_co_owner-HasDeal : (user : ℕ) (d : RequestDeal) → Preserves HasDeal (tell_co_owner user d)
unfolding tell_co_owner
tell_co_owner-HasDeal user d = record {
  at = λ w h.
      if_at HasDeal (is_some d.co_owner && not (opt_eq d.co_owner (some user))) (tell d.co_owner w)
        (returned tt, w) ((tell-HasDeal d.co_owner).at w h) h;
}

-- The notices leave the deal as it is, also where they fail.
notified : (q : Outcome (Unit {0}) × RequestSaving) → HasDeal q.1 → Leaves HasDeal AtMostOne q
notified (returned u, v) h = h
notified (raised e, v) h = subst (λ ds. length ds ≤ 1) (sym h.alone) (omega arith)

notify-Leaves :
    (user : ℕ) (d : RequestDeal) (w : RequestSaving)
    → HasDeal w
    → Leaves HasDeal AtMostOne (notify_deal_owners user d w)
unfolding notify_deal_owners
notify-Leaves user d w h = notified (notify_deal_owners user d w) (
    (>>-Preserves (tell_owner user d) (tell_co_owner user d) (tell_owner-HasDeal user d)
        (tell_co_owner-HasDeal user d)).at
      w h)

same_ticket : (d : RequestDeal) (r : Request) → (take_deal d r).ticket ≡ r.ticket
unfolding take_deal
same_ticket d r = refl

takes : (d : RequestDeal) (r : Request) → (take_deal d r).deal ≡ some d.id
unfolding take_deal
takes d r = refl

link_deal-HasDeal :
    (d : RequestDeal) (w : RequestSaving) → deals_of w ≡ d ∷ [] → HasDeal (link_deal d w)
unfolding link_deal
link_deal-HasDeal d w h = record {
  deal = d;
  alone = ap (λ t. select (is_deal_of w.id t) w.deals) (same_ticket d w.obj) ∙ h;
  taken = takes d w.obj;
  settled =
      ap (λ t. select (is_unlinked t) (map (give_deal w.obj.ticket d) w.emails))
        (same_ticket d w.obj)
      ∙ give_deal-settled w.obj.ticket d w.emails;
}

entered-Leaves :
    (user : ℕ) (q : Outcome RequestDeal × RequestSaving)
    → Got q
    → Leaves HasDeal AtMostOne (elim q.0 as (λ _. Outcome (Unit {0}) × RequestSaving) [
      | returned d ↦ enter_deal user d q.1
      | raised e ↦ (raised e, q.1)
    ])
unfolding enter_deal
entered-Leaves user (returned d, v) h =
    notify-Leaves user d (link_deal d v) (link_deal-HasDeal d v h)
entered-Leaves user (raised e, v) h = h

-- If the table has one deal of the request with its ticket at most, and the button for a deal is
-- pressed on a request that does not wait, has no deal and is no duplicate, the table has then one
-- at most again, also where an exception ends it. If it returns, the table has one, which is the
-- deal of the request, and no letter with the ticket is without a deal.
pub create_deal-HasDeal :
    (db : Db) (t : Settings) (key : ℕ) (f : RequestEdit) (w : RequestSaving)
    → AtMostOne w
    → f.deal_button ≡ true
    → w.obj.pending ≡ false
    → w.obj.deal ≡ none
    → w.obj.duplicate ≡ false
    → Leaves HasDeal AtMostOne (create_deal db t key f w)
unfolding create_deal is_wanted
create_deal-HasDeal db t key f w one b p n u =
    subst
      (λ x.
        Leaves HasDeal AtMostOne
          (if x then (get_or_create_deal db t key >>= enter_deal f.user) w else (returned tt, w)))
      (sym (wanted b p n u))
      (entered-Leaves f.user (get_or_create_deal db t key w)
        (get_or_create_deal-Got db t key w one))
  where
    wanted :
        f.deal_button ≡ true
        → w.obj.pending ≡ false
        → w.obj.deal ≡ none
        → w.obj.duplicate ≡ false
        → f.deal_button && not (w.obj.pending || is_some w.obj.deal || w.obj.duplicate) ≡ true
    wanted b p n u = rw (b, p, n, u) refl
