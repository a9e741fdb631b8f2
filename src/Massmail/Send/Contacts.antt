-- ===== src/Massmail/Send/Contacts.antt =====
-- `fix_masscontacts` and `_get_masscontact` of massmail/utils/sendmassmail.py: which account writes to
-- which recipient.
pub mod Frame
use agamin_crm.Prelude.{
  Bool, List, Option, [], contains, false, first, if◌then◌else◌, map, none, not, opt_eq, select,
  some, true, ℕ, ◌&&◌, ◌++◌, ◌+◌, ◌==◌, ◌∷◌,
}
use agamin_crm.Prelude.Action.{
  Action, returned, raised, integrity_error, raise, pure, modify, for_each, ◌>>=◌, ◌>>◌,
}
use agamin_crm.Massmail.Queue.{get_next}
use agamin_crm.Massmail.MailingOut.{MailingOut}
use agamin_crm.Massmail.Account.{EmailAccount, owned_by, the_one, update_queue}
use agamin_crm.Massmail.World.{World, MassContact}

-- The owner of a contact's account, as the join of the tables gives it.
pub account_owner : List EmailAccount → Option ℕ → Option ℕ
account_owner [] k = none
account_owner (a ∷ as_) none = none
account_owner (a ∷ as_) (some k) = if a.pk == k then a.owner else account_owner as_ (some k)

-- The contacts of the mailing's recipients.
pub is_recipient : MailingOut → List ℕ → MassContact → Bool
is_recipient o ids c = opt_eq o.content_type (some c.content_type) && contains c.object_id ids

pub is_wrong : MailingOut → List ℕ → List EmailAccount → MassContact → Bool
unfolding is_recipient account_owner
is_wrong o ids accounts c =
    is_recipient o ids c && not (opt_eq (account_owner accounts c.email_account) o.owner)

-- `queue_obj.get_next()` saves the queue.
pub next_account : Option ℕ → Action World (Option ℕ)
unfolding owned_by the_one update_queue
next_account owner w = elim (the_one (owned_by owner w.queues)) [
  | raised e ↦ (raised e, w)
  | returned q ↦ (
    returned (get_next q).0,
    record w { queues = update_queue owner (λ p. (get_next p).1) w.queues },
  )
]

-- The truth value of an id: `None` and 0 are false.
pub is_id : Option ℕ → Bool
is_id none = false
is_id (some k) = not (k == 0)

pub set_account : MassContact → Option ℕ → Action World (Unit {0})
unfolding is_id
set_account c k = modify (λ w.
    if is_id k
    then record w {
      contacts = map (λ d. if d.id == c.id then record d { email_account = k } else d) w.contacts;
    }
    else w)

-- A mailing without a content type has none to give; the database refuses the row.
pub create_contact : Option ℕ → ℕ → Option ℕ → Action World (Unit {0})
unfolding is_id
create_contact none object_id k = if is_id k then raise integrity_error else pure tt
create_contact (some content_type) object_id k = modify (λ w.
    if is_id k
    then record w {
      contacts =
          w.contacts
          ++ record {
            id = w.next_id;
            content_type = content_type;
            object_id = object_id;
            email_account = k;
            massmail = true;
          }
            ∷ [];
      next_id = w.next_id + 1;
    }
    else w)

-- The set difference of the ids in line and the ids that have a contact.
pub without_contact : MailingOut → List ℕ → List MassContact → List ℕ
unfolding is_recipient
without_contact o ids contacts =
    let have = map (λ c. c.object_id) (select (is_recipient o ids) contacts) in
    select (λ i. not (contains i have)) ids

pub fix_wrong : MailingOut → List ℕ → Action World (Unit {0})
unfolding is_wrong next_account set_account
fix_wrong o ids w =
    for_each (select (is_wrong o ids w.accounts) w.contacts)
      (λ c. do k ← next_account o.owner; set_account c k) w

pub add_missing : (List ℕ → List ℕ) → MailingOut → List ℕ → Action World (Unit {0})
unfolding without_contact next_account create_contact
add_missing walk o ids w =
    for_each (walk (without_contact o ids w.contacts))
      (λ i. do k ← next_account o.owner; create_contact o.content_type i k) w

pub fix_masscontacts : (List ℕ → List ℕ) → MailingOut → List ℕ → Action World (Unit {0})
unfolding fix_wrong add_missing
fix_masscontacts walk o ids = do fix_wrong o ids; add_missing walk o ids

pub get_masscontact : MailingOut → List ℕ → EmailAccount → World → Option MassContact
unfolding is_recipient
get_masscontact o ids ea w = first (
    select (λ c. is_recipient o ids c && opt_eq c.email_account (some ea.pk) && c.massmail)
      w.contacts)
