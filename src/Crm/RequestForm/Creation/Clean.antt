-- ===== src/Crm/RequestForm/Creation/Clean.antt =====
-- The button for a deal and the request that `save_model` wrote.
use agamin_crm.Prelude.{
  List, Option, [], ap, if◌then◌else◌, is_some, none, not, opt_eq, refl, some, subst, sym, true, ℕ,
  ◌&&◌, ◌∙◌, ◌∷◌, ◌≡◌,
}
use agamin_crm.Prelude.Action.{
  Outcome, returned, raised, Preserves, >>-Preserves, >>=-Preserves, if_at, modify, ◌>>=◌,
}
use agamin_crm.Crm.Records.{Company, Contact, Lead, Request, Db}
use agamin_crm.Crm.Request.Create.{get_department_id}
use agamin_crm.Crm.Request.Create.Accepts.{linked, clean-linked, linked-clean}
use agamin_crm.Crm.Request.Create.Linked.{same_self}
use agamin_crm.Crm.RequestForm.{
  RequestEdit, RequestDeal, RequestSaving, set_request, on_request, tell, tell_owner, tell_co_owner,
  notify_deal_owners,
}
use agamin_crm.Crm.RequestForm.Saved.{IsSaved}
use agamin_crm.Crm.RequestForm.Creation.{
  Settings, currency_of, store_deal, finish_deal, make_deal, choose_deal, get_or_create_deal,
  company_with, take_deal, write_deal, link_deal, enter_deal, is_wanted, create_deal, deals_of,
}
use agamin_crm.Crm.RequestForm.Creation.Found.{same_request}

company_with-linked :
    (o : Option Contact) (l : Option Lead) (k : Option Company)
    → linked o l k ≡ true
    → linked o l (company_with o k) ≡ true
unfolding linked company_with
company_with-linked none l k h = refl
company_with-linked (some c) none none h = same_self c.company
company_with-linked (some c) (some m) none h = h
company_with-linked (some c) none (some x) h = h
company_with-linked (some c) (some m) (some x) h = h

-- The two fields that are written bring the row up to the request.
brought_up :
    (r : Request) (d : Option ℕ) (o : Option Contact) (k : Option Company)
    → r.company ≡ k
    → (if is_some o && not (is_some k)
        then some (record r { deal = d; company = company_with o k })
        else some (record r { deal = d }))
      ≡ some (record r { deal = d; company = company_with o k })
unfolding company_with
brought_up r d none k e = λ i. some (record r { deal = d; company = e i })
brought_up r d (some c) none e = refl
brought_up r d (some c) (some x) e = λ i. some (record r { deal = d; company = e i })

module _ (k : Option Company) where
  link_deal-IsSaved :
      (d : RequestDeal) (w : RequestSaving) → IsSaved k w → IsSaved k (link_deal d w)
  unfolding link_deal take_deal write_deal
  link_deal-IsSaved d w h = record {
    in_row =
        ap (write_deal w.obj (take_deal d w.obj)) h.in_row
        ∙ brought_up w.obj (some d.id) w.obj.contact w.obj.company refl;
    accepted = linked-clean (take_deal d w.obj) (
        company_with-linked w.obj.contact w.obj.lead w.obj.company (clean-linked w.obj h.accepted));
    owned = h.owned;
    named = h.named;
  }

  tell-IsSaved : (o : Option ℕ) → Preserves (IsSaved k) (tell o)
  unfolding tell
  tell-IsSaved none = record { at = λ w h. h }
  tell-IsSaved (some u) = record {
    at = λ w h. record {
      in_row = h.in_row;
      accepted = h.accepted;
      owned = h.owned;
      named = h.named;
    };
  }

  notify-IsSaved : (user : ℕ) (d : RequestDeal) → Preserves (IsSaved k) (notify_deal_owners user d)
  unfolding notify_deal_owners tell_owner tell_co_owner
  notify-IsSaved user d =
      >>-Preserves (tell_owner user d) (tell_co_owner user d)
        (record {
          at = λ w h.
              if_at (IsSaved k) (opt_eq d.owner (some user)) (returned tt, w) (tell d.owner w) h
                ((tell-IsSaved d.owner).at w h);
        })
        (record {
          at = λ w h.
              if_at (IsSaved k) (is_some d.co_owner && not (opt_eq d.co_owner (some user)))
                (tell d.co_owner w) (returned tt, w) ((tell-IsSaved d.co_owner).at w h) h;
        })

  module _ (db : Db) (t : Settings) (key : ℕ) where
    finish_deal-IsSaved :
        (dep : Option ℕ) (o : Outcome (Option ℕ))
        → Preserves (IsSaved k) (finish_deal db t key dep o)
    unfolding finish_deal store_deal
    finish_deal-IsSaved dep (raised e) = record { at = λ w h. h }
    finish_deal-IsSaved dep (returned c) = record {
      at = λ w h. record {
        in_row = h.in_row;
        accepted = h.accepted;
        owned = h.owned;
        named = h.named;
      };
    }

    make_deal-IsSaved : Preserves (IsSaved k) (make_deal db t key)
    unfolding make_deal on_request set_request
    make_deal-IsSaved =
        >>=-Preserves (on_request (λ r. get_department_id db r.owner r))
          (λ dep. finish_deal db t key dep (currency_of t))
          (record {
            at = λ w h.
                subst (λ r. IsSaved k (set_request r w))
                  (sym (same_request db t key w w.obj.owner w.obj)) h;
          })
          (λ dep. finish_deal-IsSaved dep (currency_of t))

    choose_deal-IsSaved : (ds : List RequestDeal) → Preserves (IsSaved k) (choose_deal db t key ds)
    unfolding choose_deal
    choose_deal-IsSaved [] = record { at = λ w h. make_deal-IsSaved.at w h }
    choose_deal-IsSaved (d ∷ []) = record { at = λ w h. h }
    choose_deal-IsSaved (d ∷ e ∷ ds) = record { at = λ w h. h }

    get_or_create_deal-IsSaved : Preserves (IsSaved k) (get_or_create_deal db t key)
    unfolding get_or_create_deal
    get_or_create_deal-IsSaved = record { at = λ w h. (choose_deal-IsSaved (deals_of w)).at w h }

    enter_deal-IsSaved : (user : ℕ) (d : RequestDeal) → Preserves (IsSaved k) (enter_deal user d)
    unfolding enter_deal
    enter_deal-IsSaved user d =
        >>-Preserves (modify (link_deal d)) (notify_deal_owners user d)
          (record { at = link_deal-IsSaved d }) (notify-IsSaved user d)

    -- The button for a deal keeps a request as `save_model` wrote it: the row is the request, which
    -- `clean` accepts, with its owner and those whom it names; also where an exception ends it.
    pub create_deal-IsSaved :
        (f : RequestEdit) (w : RequestSaving) → IsSaved k w → IsSaved k (create_deal db t key f w).1
    unfolding create_deal
    create_deal-IsSaved f w h =
        if_at (IsSaved k) (f.deal_button && is_wanted w.obj)
          ((get_or_create_deal db t key >>= enter_deal f.user) w) (returned tt, w)
          ((>>=-Preserves (get_or_create_deal db t key) (enter_deal f.user)
              get_or_create_deal-IsSaved (enter_deal-IsSaved f.user)).at
            w h)
          h
