-- ===== src/Common/RemindMe.antt =====
-- `remind_me` of common/utils/remind_me.py, which keeps the reminder of an object in step with the
-- form of the object. Times are in minutes.
mod Rows
pub mod Branches
pub mod InStep
use agamin_crm.Prelude.{
  Bool, List, Option, [], false, if◌then◌else◌, leb, none, not, opt_eq, select, some, true, ℕ, ◌&&◌,
  ◌*◌, ◌++◌, ◌+◌, ◌==◌, ◌||◌, ◌∷◌,
}
use agamin_crm.Prelude.Action.{
  Action, Outcome, returned, raised, value_error, type_error, does_not_exist,
}
use agamin_crm.Common.Reminders.{Reminder}

unfoldable pub same_text : List ℕ → List ℕ → Bool
same_text [] [] = true
same_text (a ∷ s) (b ∷ t) = a == b && same_text s t
same_text _ _ = false

-- What a form of a deal, a task or a project says. `is_change` is the parameter `change`, `user`
-- the user of the request, and the last three fields are what `changed_data` tells.
pub record ReminderForm : Type 0 where
  pub is_change : Bool
  pub user : ℕ
  pub content_object : ℕ
  pub remind_me : Bool
  pub next_step : List ℕ
  pub next_step_date : Option ℕ
  pub changed_remind_me : Bool
  pub changed_next_step : Bool
  pub changed_next_step_date : Bool

-- `params` without the description.
unfoldable pub is_own : ReminderForm → Reminder → Bool
is_own f r = r.content_object == f.content_object && (opt_eq r.owner (some f.user) && r.active)

-- `Reminder.objects.filter(**params)`
pub is_own_step : ReminderForm → Reminder → Bool
unfolding is_own same_text
is_own_step f r = is_own f r && same_text r.description f.next_step

pub is_own_at : ReminderForm → ℕ → Reminder → Bool
unfolding is_own
is_own_at f t r = is_own f r && r.reminder_date == t

pub new_reminder : ℕ → ReminderForm → ℕ → Reminder
new_reminder key f t = record {
  id = key;
  owner = some f.user;
  content_object = f.content_object;
  subject = f.next_step;
  description = f.next_step;
  active = true;
  reminder_date = t;
  send_notification_email = true;
}

-- A query set's `update`.
pub update_where : (Reminder → Bool) → (Reminder → Reminder) → List Reminder → List Reminder
update_where p g [] = []
update_where p g (r ∷ rs) = (if p r then g r else r) ∷ update_where p g rs

pub set_date : ℕ → Reminder → Reminder
set_date t r = record r { reminder_date = t }

pub set_step : List ℕ → Reminder → Reminder
set_step s r = record r { subject = s; description = s }

-- The branches for an object that wants a reminder, at the time `t`.
pub keep_reminder : ℕ → ReminderForm → ℕ → List Reminder → List Reminder
unfolding new_reminder update_where set_date set_step is_own_step is_own_at is_own
keep_reminder key f t rs =
    if not f.is_change || f.changed_remind_me
    then rs ++ (new_reminder key f t ∷ [])
    else if f.changed_next_step_date && not f.changed_next_step
    then update_where (is_own_step f) (set_date t) rs
    else if f.changed_next_step && not f.changed_next_step_date
    then update_where (is_own_at f t) (set_step f.next_step) rs
    else if f.changed_next_step && f.changed_next_step_date
    then update_where (is_own f) (λ r. set_date t (set_step f.next_step r)) rs
    else rs

-- The branch for an object that wants none.
pub drop_reminder : ReminderForm → List Reminder → List Reminder
unfolding is_own_step
drop_reminder f rs = if f.changed_remind_me then select (λ r. not (is_own_step f r)) rs else rs

-- `start` is the hour and the minute of `business_time_start` in the settings, if there are any, and
-- `aware` is `make_aware`, or nothing where `USE_TZ` is not set.
module _ (aware : ℕ → ℕ) (start : Option (ℕ × ℕ)) where
  unfoldable pub date_at : ℕ × ℕ → Option ℕ → Outcome ℕ
  date_at (hour, minute) day = if leb 60 (minute + 10) then raised value_error else elim day [
    | none ↦ raised type_error
    | some d ↦ returned (aware (1440 * d + 60 * hour + (minute + 10)))
  ]

  unfoldable pub reminder_time : Option ℕ → Outcome ℕ
  unfolding date_at
  reminder_time day = elim start [ none ↦ raised does_not_exist | some t ↦ date_at t day ]

  -- `key` is the key that the table gives a new row.
  pub remind_me : ℕ → ReminderForm → Action (List Reminder) (Unit {0})
  unfolding reminder_time keep_reminder drop_reminder
  remind_me key f rs =
      if f.remind_me
      then elim (reminder_time f.next_step_date) [
        | returned t ↦ (returned tt, keep_reminder key f t rs)
        | raised e ↦ (raised e, rs)
      ]
      else (returned tt, drop_reminder f rs)
