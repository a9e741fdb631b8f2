-- ===== src/Massmail/Send/Contacts/Frame.antt =====
-- What the repair of the contacts leaves alone.
use agamin_crm.Prelude.{List, Option, arith, none, select, some, ℕ, ◌≡◌}
use agamin_crm.Prelude.Action.{Preserves, for_each-Preserves, keeps_rules, ◌>>=◌}
use agamin_crm.Massmail.MailingOut.{MailingOut}
use agamin_crm.Massmail.World.{World, MassContact}
use agamin_crm.Massmail.Send.Contacts.{
  next_account, set_account, create_contact, fix_wrong, add_missing, fix_masscontacts, is_wrong,
  without_contact,
}

pub accounts-next_account : (o : Option ℕ) (w : World) → (next_account o w).1.accounts ≡ w.accounts
unfolding next_account
accounts-next_account o w = ground arith

pub accounts-set_account :
    (c : MassContact) (k : Option ℕ) (w : World) → (set_account c k w).1.accounts ≡ w.accounts
unfolding set_account
accounts-set_account c k w = ground arith

pub accounts-create_contact :
    (t : Option ℕ) (i : ℕ) (k : Option ℕ) (w : World)
    → (create_contact t i k w).1.accounts ≡ w.accounts
unfolding create_contact
accounts-create_contact none i k w = ground arith
accounts-create_contact (some t) i k w = ground arith

pub held-next_account : (o : Option ℕ) (w : World) → (next_account o w).1.held ≡ w.held
unfolding next_account
held-next_account o w = ground arith

pub held-set_account :
    (c : MassContact) (k : Option ℕ) (w : World) → (set_account c k w).1.held ≡ w.held
unfolding set_account
held-set_account c k w = ground arith

pub held-create_contact :
    (t : Option ℕ) (i : ℕ) (k : Option ℕ) (w : World) → (create_contact t i k w).1.held ≡ w.held
unfolding create_contact
held-create_contact none i k w = ground arith
held-create_contact (some t) i k w = ground arith

pub mailings-next_account : (o : Option ℕ) (w : World) → (next_account o w).1.mailings ≡ w.mailings
unfolding next_account
mailings-next_account o w = ground arith

pub mailings-set_account :
    (c : MassContact) (k : Option ℕ) (w : World) → (set_account c k w).1.mailings ≡ w.mailings
unfolding set_account
mailings-set_account c k w = ground arith

pub mailings-create_contact :
    (t : Option ℕ) (i : ℕ) (k : Option ℕ) (w : World)
    → (create_contact t i k w).1.mailings ≡ w.mailings
unfolding create_contact
mailings-create_contact none i k w = ground arith
mailings-create_contact (some t) i k w = ground arith

-- The repair keeps what its three steps keep.
module _ {P : World → Type 0} (step : (o : Option ℕ) → Preserves P (next_account o))
    (set_ : (c : MassContact) (k : Option ℕ) → Preserves P (set_account c k))
    (create : (t : Option ℕ) (i : ℕ) (k : Option ℕ) → Preserves P (create_contact t i k)) where
  fix_wrong-Preserves : (o : MailingOut) (ids : List ℕ) → Preserves P (fix_wrong o ids)
  unfolding fix_wrong
  fix_wrong-Preserves o ids = record {
    at = λ w h.
        (for_each-Preserves {P = P} (select (is_wrong o ids w.accounts) w.contacts)
            (λ c. do k ← next_account o.owner; set_account c k)
            (λ c. search (keeps_rules, step, set_))).at
          w h;
  }

  add_missing-Preserves :
      (walk : List ℕ → List ℕ) (o : MailingOut) (ids : List ℕ)
      → Preserves P (add_missing walk o ids)
  unfolding add_missing
  add_missing-Preserves walk o ids = record {
    at = λ w h.
        (for_each-Preserves {P = P} (walk (without_contact o ids w.contacts))
            (λ i. do k ← next_account o.owner; create_contact o.content_type i k)
            (λ i. search (keeps_rules, step, create))).at
          w h;
  }

  pub fix_masscontacts-Preserves :
      (walk : List ℕ → List ℕ) (o : MailingOut) (ids : List ℕ)
      → Preserves P (fix_masscontacts walk o ids)
  unfolding fix_masscontacts
  fix_masscontacts-Preserves walk o ids =
      search (keeps_rules, fix_wrong-Preserves, add_missing-Preserves)
