-- ===== src/Massmail/Send.antt =====
-- massmail/utils/sendmassmail.py: one pass over the active mailings.
pub mod Contacts
pub mod Walk
pub mod Limit
pub mod Messages
pub mod Numbers
pub mod Owners
pub mod Outcomes
use agamin_crm.Prelude.{
  Bool, List, Option, [], false, if◌then◌else◌, ltb, map, none, not, opt_eq, select, some, true, ℕ,
  ◌&&◌, ◌+◌, ◌-◌, ◌==◌, ◌||◌, ◌∷◌,
}
use agamin_crm.Prelude.Action.{
  Action, Outcome, returned, raised, key_error, integrity_error, attribute_error, pure, raise,
  modify, focus, for_each, ◌>>=◌, ◌>>◌,
}
use agamin_crm.Massmail.MailingOut.{
  MailingOut, Held, Status, save, remove_recipient_ids, move_to_successful_ids, move_to_failed_ids,
  get_recipient_ids,
}
use agamin_crm.Massmail.Account.{EmailAccount}
use agamin_crm.Massmail.World.{World, MassContact, Env, Kind, Trouble, refused, failed}
use agamin_crm.Massmail.Send.Contacts.{fix_masscontacts, get_masscontact}

-- An action on the mailing in hand.
abbrev pub on_held : {A : Type 0} → Action Held A → Action World A
on_held = focus (λ w. w.held) (λ h w. record w { held = h })

abbrev pub set_obj : (MailingOut → MailingOut) → Action World (Unit {0})
set_obj f = modify (λ w. record w { held = record w.held { obj = f w.held.obj } })

-- `owner in owner_list`
pub holds : Option ℕ → List (Option ℕ) → Bool
holds k [] = false
holds k (x ∷ xs) = opt_eq k x || holds k xs

-- `status__in=['A', 'E']`
is_open : Status → Bool
is_open Status.active = true
is_open Status.active_but_error = true
is_open _ = false

-- `email_account.save()`
pub save_account : EmailAccount → Action World (Unit {0})
save_account ea =
    modify (λ w. record w { accounts = map (λ b. if b.pk == ea.pk then ea else b) w.accounts })

pub mail_admins : Action World (Unit {0})
mail_admins = modify (λ w. record w { mails_to_admins = w.mails_to_admins + 1 })

module _ (env : Env) where
  -- The test at the head of the loop over the accounts; `none` is its `continue`.
  pub daily : EmailAccount → Option EmailAccount
  daily ea =
      if opt_eq ea.today_date (some env.today)
      then (if ltb env.emails_per_day ea.today_count then none else some ea)
      else some (record ea { today_count = 0 })

  pub counter_increment : EmailAccount → Action World (Unit {0})
  counter_increment ea = do
    save_account (record ea { today_count = ea.today_count + 1; today_date = some env.today })
    set_obj (λ o. record o { today_count = o.today_count + 1; sending_date = some env.today })
    on_held save

  -- `recipients_number -= 1`; the database refuses to store a negative number.
  drop_one : Action World (Unit {0})
  drop_one w =
      if w.held.obj.recipients_number == 0
      then (raised integrity_error, w)
      else set_obj (λ o. record o { recipients_number = o.recipients_number - 1 }) w

  pub delete_contact : MassContact → Action World (Unit {0})
  delete_contact mc =
      modify (λ w. record w { contacts = select (λ c. not (c.id == mc.id)) w.contacts })

  pub drop_recipient : MassContact → Action World Bool
  unfolding drop_one delete_contact
  drop_recipient mc = do
    on_held (remove_recipient_ids mc.object_id)
    drop_one
    on_held save
    delete_contact mc
    pure false

  -- A recipient that is gone leaves the mailing; the result is the truth value of the recipient.
  pub get_recipient : MassContact → Action World Bool
  unfolding drop_recipient
  get_recipient mc =
      if env.object_exists mc.content_type mc.object_id then pure true else drop_recipient mc

  -- `report` with `off`: the account is switched off, and the recipient stays in line.
  pub report_off : EmailAccount → MassContact → Action World (Unit {0})
  unfolding mail_admins
  report_off ea mc = do
    save_account (record ea {
      massmail = false;
      report = "\nAccount OFF!\n" ∷ env.report_text ea mc ∷ ea.report;
    })
    set_obj (λ o. record o {
      report = "\nAccount OFF!\n" ∷ env.report_text ea mc ∷ o.report;
      status = Status.active_but_error;
    })
    on_held save
    mail_admins

  -- `report` without `off`: the recipient is moved to the failed ones.
  pub report_failed : EmailAccount → MassContact → Action World (Unit {0})
  report_failed ea mc = do
    set_obj (λ o. record o {
      report = env.report_text ea mc ∷ o.report;
      status = Status.active_but_error;
    })
    on_held (move_to_failed_ids mc.object_id)

  -- The first exception of `email_creator` and `msg.send`.
  pub trouble : EmailAccount → MassContact → Option Trouble
  trouble ea mc = elim (env.compose ea mc) [
    | some t ↦ some t
    | none ↦ if env.mailing || env.testing then env.send ea mc else none
  ]

  pub log_sent : EmailAccount → MassContact → Action World (Unit {0})
  log_sent ea mc = modify (λ w. record w {
    sent = if env.mailing || env.testing then (ea.pk, mc.object_id) ∷ w.sent else w.sent;
  })

  -- The end of the `try`: an exception of `move_to_successful_ids` is handled there too.
  settle : EmailAccount → MassContact → Outcome (Unit {0}) → Action World (Unit {0})
  unfolding counter_increment report_failed
  settle ea mc (returned _) = counter_increment ea
  settle ea mc (raised e) = report_failed ea mc

  conclude : EmailAccount → MassContact → Action World (Unit {0})
  unfolding settle
  conclude ea mc w =
      let (r, v) = on_held (move_to_successful_ids mc.object_id) w in settle ea mc r v

  -- The `try` of the loop and what follows it.
  pub attempt : EmailAccount → MassContact → Option Trouble → Action World (Unit {0})
  unfolding conclude log_sent report_off report_failed
  attempt ea mc (some refused) = report_off ea mc
  attempt ea mc (some failed) = report_failed ea mc
  attempt ea mc none = do log_sent ea mc; conclude ea mc

  -- `get_extra_context` has a table of the three models, and raises `KeyError` for any other.
  pub get_extra_context : Kind → Action World (Unit {0})
  get_extra_context Kind.other = raise key_error
  get_extra_context _ = pure tt

  -- What follows the test of the recipient.
  approach : EmailAccount → MassContact → Bool → Action World (Unit {0})
  unfolding get_extra_context attempt
  approach ea mc true = do
    get_extra_context (env.kind_of mc.content_type)
    attempt ea mc (trouble ea mc)
  approach ea mc false = pure tt

  pub with_contact : EmailAccount → Option MassContact → Action World (Unit {0})
  unfolding get_recipient approach
  with_contact ea none = pure tt
  with_contact ea (some mc) = do recipient ← get_recipient mc; approach ea mc recipient

  with_account : List ℕ → Option EmailAccount → Action World (Unit {0})
  unfolding with_contact
  with_account ids none w = (returned tt, w)
  with_account ids (some ea) w = with_contact ea (get_masscontact w.held.obj ids ea w) w

  -- One round of the loop over the accounts.
  pub visit : List ℕ → EmailAccount → Action World (Unit {0})
  unfolding with_account daily
  visit ids ea = with_account ids (daily ea)

  -- `_success_report`; without an owner, the language of the text cannot be looked up.
  pub report_done : Option ℕ → Action World (Unit {0})
  report_done none = raise attribute_error
  report_done (some owner) = do
    set_obj (λ o. record o { report = env.done_text ∷ o.report; status = Status.done })
    on_held save

  pub success_report : Action World (Unit {0})
  unfolding report_done
  success_report w = report_done w.held.obj.owner w

  -- The accounts that may send for the mailing.
  pub senders : MailingOut → List EmailAccount → List EmailAccount
  senders o = select (λ a. opt_eq a.owner o.owner && a.massmail)

  pub prepare : List ℕ → Action World (Unit {0})
  prepare ids w = fix_masscontacts env.walk w.held.obj ids w

  write_all : List ℕ → Action World (Unit {0})
  unfolding visit senders
  write_all ids w = for_each (senders w.held.obj w.accounts) (visit ids) w

  rounds : List ℕ → Action World (Unit {0})
  unfolding success_report prepare write_all
  rounds [] = success_report
  rounds (i ∷ ids) = do prepare (i ∷ ids); write_all (i ∷ ids)

  -- The counter of a mailing that was last sent on another day.
  pub reset_count : Action World (Unit {0})
  reset_count =
      set_obj
        (λ o. if opt_eq o.sending_date (some env.today) then o else record o { today_count = 0 })

  -- One round of the loop over the mailings, on the mailing in hand.
  pub process : Action World (Unit {0})
  unfolding rounds reset_count
  process = do reset_count; recipient_ids ← on_held get_recipient_ids; rounds recipient_ids

  -- Takes a mailing in hand, and keeps its row in the table.
  pub take_up : MailingOut → Action World (Unit {0})
  unfolding process
  take_up o w =
      let (r, v) = process (record w { held = record { obj = o; row = o } }) in
      (r, record v { mailings = map (λ p. if p.id == o.id then v.held.row else p) v.mailings })

-- `check_owners`: one mailing for each owner, the first.
pub check_from : List (Option ℕ) → List MailingOut → List MailingOut
check_from owner_list [] = []
check_from owner_list (o ∷ os) =
    let kept = o ∷ check_from (o.owner ∷ owner_list) os in
    let skipped = check_from owner_list os in if holds o.owner owner_list then skipped else kept

pub check_owners : List MailingOut → List MailingOut
unfolding check_from holds
check_owners = check_from []

pub is_active : MailingOut → Bool
unfolding is_open
is_active o = is_open o.status

-- The outer `try`: any exception ends the pass and is mailed to the admins.
pub caught : Outcome (Unit {0}) → World → World
caught (returned _) w = w
caught (raised e) w = record w { mails_to_admins = w.mails_to_admins + 1 }

-- `shuffle` is the random order of the database.
pub send_massmail : Env → (List MailingOut → List MailingOut) → World → World
unfolding caught take_up check_owners is_active is_open
send_massmail env shuffle w =
    let (r, v) = for_each (check_owners (shuffle (select is_active w.mailings))) (take_up env) w in
    caught r v
