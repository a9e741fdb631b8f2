-- ===== src/Tasks/Participants.antt =====
-- Who is told of a task: `exclude_some_users`, `notify_participants` and
-- `notify_task_or_project_closed` of tasks/site/tasksbasemodeladmin.py, for a task.
pub mod Twice
use agamin_crm.Prelude.{
  Bool, List, Option, [], contains, false, first, if◌then◌else◌, is_some, map, none, not, opt_eq,
  select, some, ℕ, ◌&&◌, ◌++◌, ◌==◌, ◌||◌, ◌∷◌,
}
use agamin_crm.Tasks.Models.{Task, is_subtask}

-- What is sent: a message in the CRM, an e-mail, or a word to the admins on a user without address.
pub data Notice : Type 0 where
  message : ℕ → Notice
  mail : ℕ → Notice
  no_address : ℕ → Notice

pub data Field : Type 0 where
  responsible subscribers : Field

-- A task and what has been sent so far, the newest last.
pub record Desk : Type 0 where
  pub obj : Task
  pub sent : List Notice

unfoldable pub users_of : Field → Task → List ℕ
users_of responsible t = t.responsible
users_of subscribers t = t.subscribers

unfoldable pub notified_of : Field → Task → List ℕ
notified_of responsible t = t.notified_responsible
notified_of subscribers t = t.notified_subscribers

unfoldable pub set_notified : Field → List ℕ → Task → Task
set_notified responsible us t = record t { notified_responsible = us }
set_notified subscribers us t = record t { notified_subscribers = us }

-- Whether a user is responsible for a subtask, of the same main task, that hides the main task.
unfoldable pub hides : List Task → Option ℕ → ℕ → Bool
unfolding is_subtask
hides rows main u =
    is_some (
      first
        (select (λ s. is_subtask main s && (s.hide_main_task && contains u s.responsible)) rows))

-- `exclude_some_users`
unfoldable pub exclude_some_users : List Task → Task → List ℕ → List ℕ
unfolding hides
exclude_some_users rows t users =
    if is_some t.task then select (λ u. not (hides rows t.task u)) users else users

-- The owner is not told that he is responsible.
is_owner : Field → Task → ℕ → Bool
is_owner responsible t u = opt_eq t.owner (some u)
is_owner subscribers t u = false

-- `difference`, the users who have not been told yet.
pub difference : Field → Task → List ℕ
unfolding users_of notified_of is_owner
difference field t =
    select (λ u. not (contains u (notified_of field t)) && not (is_owner field t u))
      (users_of field t)

-- Those who get an e-mail count as notified.
reached : (ℕ → Bool) → Field → List ℕ → List ℕ
reached has_email responsible us = us
reached has_email subscribers us = select has_email us

notices : (ℕ → Bool) → Field → List ℕ → List Notice
notices has_email responsible [] = []
notices has_email responsible (u ∷ us) = message u ∷ mail u ∷ notices has_email responsible us
notices has_email subscribers [] = []
notices has_email subscribers (u ∷ us) =
    message u
    ∷ (if has_email u
        then notices has_email subscribers us
        else no_address u ∷ notices has_email subscribers us)

-- `email_to_participants`, once for all subscribers.
mails : (ℕ → Bool) → Field → List ℕ → List Notice
mails has_email responsible us = []
mails has_email subscribers us = map mail (select has_email us)

module _ (rows : List Task) (has_email : ℕ → Bool) where
  -- The users that `difference` leaves once some are excluded.
  pub told : Field → Task → List ℕ
  unfolding difference exclude_some_users
  told field t = exclude_some_users rows t (difference field t)

  -- The field of the notified users, and whether it was changed.
  pub notify_participants : Field → Desk → Bool × Desk
  unfolding told reached notices mails users_of notified_of set_notified
  notify_participants field d =
      let users = users_of field d.obj in
      let kept = select (λ u. contains u users) (notified_of field d.obj) in
      let removed = select (λ u. not (contains u users)) (notified_of field d.obj) in
      let new = told field d.obj in
      let notified = reached has_email field new in
      (
        is_some (first removed) || is_some (first notified),
        record {
          obj = set_notified field (kept ++ notified) d.obj;
          sent = d.sent ++ (notices has_email field new ++ mails has_email field new);
        },
      )

-- `users` of `notify_task_or_project_closed`: the subscribers, the owner and the co-owner, but not
-- the user who closes the task.
add_other : Option ℕ → ℕ → List ℕ → List ℕ
add_other none user us = us
add_other (some o) user us = if o == user then us else us ++ (o ∷ [])

pub closing_users : List Task → ℕ → Task → List ℕ
unfolding exclude_some_users add_other
closing_users rows user t =
    add_other t.co_owner user (add_other t.owner user (exclude_some_users rows t t.subscribers))

pub notify_task_or_project_closed : List Task → (ℕ → Bool) → ℕ → Desk → Desk
unfolding closing_users notices mails
notify_task_or_project_closed rows has_email user d =
    let users = closing_users rows user d.obj in
    record d {
      sent = d.sent ++ (notices has_email subscribers users ++ mails has_email subscribers users);
    }
