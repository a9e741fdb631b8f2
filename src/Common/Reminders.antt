-- ===== src/Common/Reminders.antt =====
-- `send_remainders` of common/utils/reminders_sender.py: the reminders that are due are shown to
-- their owners, mailed if wanted, and put out of action.
pub mod Once
use agamin_crm.Prelude.{
  Bool, List, Option, contains, [], false, if◌then◌else◌, leb, map, none, not, select, some, ℕ,
  ◌&&◌, ◌++◌, ◌==◌, ◌∷◌,
}
use agamin_crm.Prelude.Action.{Action, returned, raised, attribute_error}

-- `content_object` is the key of the object that it is about.
pub record Reminder : Type 0 where
  pub id : ℕ
  pub owner : Option ℕ
  pub content_object : ℕ
  pub subject : List ℕ
  pub description : List ℕ
  pub active : Bool
  pub reminder_date : ℕ
  pub send_notification_email : Bool

pub data Sent : Type 0 where
  message : ℕ → ℕ → Sent
  mail : ℕ → ℕ → Sent
  no_address : ℕ → Sent

-- The table, the keys of the objects that are there, those whose `remind_me` is set, and what was sent, the newest last.
pub record Board : Type 0 where
  pub reminders : List Reminder
  pub objects : List ℕ
  pub remind_me : List ℕ
  pub sent : List Sent

pub is_due : ℕ → Reminder → Bool
is_due now r = r.active && leb r.reminder_date now

-- `r.save(update_fields=['send_notification_email', 'active'])`
pub store_flags : Reminder → List Reminder → List Reminder
store_flags r = map (λ s.
    if s.id == r.id
    then record s { send_notification_email = r.send_notification_email; active = r.active }
    else s)

module _ (has_email : ℕ → Bool) where
  -- What is sent for one reminder, whose owner is given.
  sent_for : ℕ → Reminder → List Sent
  sent_for owner r =
      message owner r.id
      ∷ (if r.send_notification_email
          then (if has_email owner then mail owner r.id ∷ [] else no_address owner ∷ [])
          else [])

  -- The reminder after it was sent: the wish for an e-mail stays where there was no address.
  handled : ℕ → Reminder → Reminder
  handled owner r = record r {
    active = false;
    send_notification_email = r.send_notification_email && not (has_email owner);
  }

  -- One round of the loop.
  pub remind : ℕ → Reminder → Board → Board
  unfolding sent_for handled store_flags
  remind owner r d = record {
    reminders = store_flags (handled owner r) d.reminders;
    objects = d.objects;
    remind_me = select (λ k. not (k == r.content_object)) d.remind_me;
    sent = d.sent ++ sent_for owner r;
  }

  -- `content_obj` is `None` where the object was deleted, and has no `_meta`; without an owner, the
  -- language of the message cannot be looked up (`USE_I18N` is set).
  pub remind_all : List Reminder → Action Board (Unit {0})
  unfolding remind
  remind_all [] d = (returned tt, d)
  remind_all (r ∷ rs) d = elim r.owner [
    | none ↦ (raised attribute_error, d)
    | some owner ↦
        let rest = remind_all rs (remind owner r d) in
        if contains r.content_object d.objects then rest else (raised attribute_error, d)
  ]

  -- The query is evaluated before the loop.
  pub send_remainders : ℕ → Action Board (Unit {0})
  unfolding remind_all is_due
  send_remainders now d = remind_all (select (is_due now) d.reminders) d
