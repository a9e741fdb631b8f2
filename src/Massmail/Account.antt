-- ===== src/Massmail/Account.antt =====
-- massmail/models/email_account.py: the account that a mailing is sent from.
pub mod Deletion
use agamin_crm.Prelude.{
  Bool, List, Option, String, [], if◌then◌else◌, map, not, opt_eq, select, str_eq, ℕ, ◌&&◌, ◌==◌,
  ◌∷◌,
}
use agamin_crm.Prelude.Action.{
  Action, Outcome, returned, raised, validation_error, does_not_exist, multiple_objects_returned,
}
use agamin_crm.Common.Base.{base1_clean}
use agamin_crm.Massmail.Queue.{EmlAccountsQueue, remove_id}

-- The fields that the modelled code reads or writes; the others are only stored.
pub record EmailAccount : Type 0 where
  pub pk : ℕ
  pub owner : Option ℕ
  pub department : Option ℕ
  pub co_owner : Option ℕ
  pub main : Bool
  pub massmail : Bool
  pub do_import : Bool
  pub imap_host : String
  pub email_host_user : String
  pub report : List String
  pub today_date : Option ℕ
  pub today_count : ℕ

-- `EmailAccount.clean`
pub clean : (ℕ → List ℕ) → EmailAccount → Outcome (Unit {0})
unfolding base1_clean
clean departments a =
    if a.do_import && str_eq a.imap_host ""
    then raised validation_error
    else base1_clean departments a.owner a.department

-- The accounts and the queues of the database.
pub record Tables : Type 0 where
  pub accounts : List EmailAccount
  pub queues : List EmlAccountsQueue

unfoldable pub owned_by : Option ℕ → List EmlAccountsQueue → List EmlAccountsQueue
owned_by owner = select (λ q. opt_eq q.owner owner)

-- `EmlAccountsQueue.objects.get(owner=...)` on the queues that the filter found.
unfoldable pub the_one : List EmlAccountsQueue → Outcome EmlAccountsQueue
the_one [] = raised does_not_exist
the_one (q ∷ []) = returned q
the_one (q ∷ r ∷ qs) = raised multiple_objects_returned

unfoldable pub update_queue :
    Option ℕ → (EmlAccountsQueue → EmlAccountsQueue) → List EmlAccountsQueue → List EmlAccountsQueue
update_queue owner f = map (λ q. if opt_eq q.owner owner then f q else q)

drop_account : ℕ → List EmailAccount → List EmailAccount
drop_account pk = select (λ a. not (a.pk == pk))

-- The `try` of `delete`: a missing queue is passed over, any other exception ends the call.
delete_with : EmailAccount → Outcome EmlAccountsQueue → Action Tables (Unit {0})
unfolding update_queue drop_account
delete_with a (raised does_not_exist) t =
    (returned tt, record t { accounts = drop_account a.pk t.accounts })
delete_with a (raised e) t = (raised e, t)
delete_with a (returned q) t = (
  returned tt,
  record t {
    accounts = drop_account a.pk t.accounts;
    queues = update_queue a.owner (remove_id a.pk) t.queues;
  },
)

-- `EmailAccount.delete`
pub delete : EmailAccount → Action Tables (Unit {0})
unfolding delete_with the_one owned_by
delete a t = delete_with a (the_one (owned_by a.owner t.queues)) t
