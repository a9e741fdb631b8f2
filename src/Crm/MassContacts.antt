-- ===== src/Crm/MassContacts.antt =====
-- The mass contacts of a company that gets another owner: crm/utils/change_massconts.py.
pub mod Assigned
use agamin_crm.Prelude.{
  Bool, List, Option, [], contains, if◌then◌else◌, none, not, select, some, ℕ, ◌&&◌, ◌==◌, ◌||◌,
  ◌∷◌,
}
use agamin_crm.Prelude.Action.{Action, Outcome, returned, raised, does_not_exist}
use agamin_crm.Massmail.Queue.{EmlAccountsQueue, get_next}
use agamin_crm.Massmail.World.{MassContact}

-- The queue of the new owner, where he has one, and the table of the mass contacts.
pub record Handover : Type 0 where
  pub queue : Option EmlAccountsQueue
  pub contacts : List MassContact

-- The company, its contacts, the content types of both, and the keys of the accounts in the table.
pub record Of : Type 0 where
  pub company_type : ℕ
  pub contact_type : ℕ
  pub company : ℕ
  pub contacts : List ℕ
  pub accounts : List ℕ

module _ (of : Of) where
  -- `account_mc` and `mcs`.
  pub is_company : MassContact → Bool
  is_company mc = mc.content_type == of.company_type && mc.object_id == of.company

  pub is_contact : MassContact → Bool
  is_contact mc = mc.content_type == of.contact_type && contains mc.object_id of.contacts

  -- `account_mc.update(email_account=email_account)`
  pub update_company : ℕ → List MassContact → List MassContact
  unfolding is_company
  update_company a [] = []
  update_company a (mc ∷ mcs) =
      (if is_company mc then record mc { email_account = some a } else mc) ∷ update_company a mcs

  -- `account_mc.delete()` and `mcs.delete()`
  pub delete_all : List MassContact → List MassContact
  unfolding is_company is_contact
  delete_all mcs = select (λ mc. not (is_company mc || is_contact mc)) mcs

  -- The loop over the mass contacts, in the order of the table: each takes the account that the
  -- queue gives next. What was saved before an exception stays saved.
  pub give_accounts :
      List MassContact → EmlAccountsQueue → Outcome (Unit {0}) × List MassContact × EmlAccountsQueue
  unfolding is_contact
  give_accounts [] q = (returned tt, [], q)
  give_accounts (mc ∷ mcs) q =
      let p = (get_next q).1 in
      let (r, given, used) = give_accounts mcs p in
      let (kept_r, kept, kept_q) = give_accounts mcs q in
      if is_contact mc
      then elim (get_next q).0 [
        | none ↦ (raised does_not_exist, mc ∷ mcs, p)
        | some a ↦
            if contains a of.accounts
            then (r, record mc { email_account = some a } ∷ given, used)
            else (raised does_not_exist, mc ∷ mcs, p)
      ]
      else (kept_r, mc ∷ kept, kept_q)

  -- With the first account of a queue, or with none.
  pub with_next : EmlAccountsQueue → Option ℕ → Action Handover (Unit {0})
  unfolding update_company delete_all give_accounts
  with_next q none w = (returned tt, record { queue = some q; contacts = delete_all w.contacts })
  with_next q (some a) w =
      if contains a of.accounts
      then (let (r, mcs, p) = give_accounts (update_company a w.contacts) q in
          (r, record { queue = some p; contacts = mcs }))
      else (raised does_not_exist, record w { queue = some q })

  -- With the queue of the new owner, or without one.
  pub for_queue : Option EmlAccountsQueue → Action Handover (Unit {0})
  unfolding with_next delete_all
  for_queue none w = (returned tt, record w { contacts = delete_all w.contacts })
  for_queue (some q) w = let (a, p) = get_next q in with_next p a w

  pub change_massconts : Action Handover (Unit {0})
  unfolding for_queue
  change_massconts w = for_queue w.queue w
