-- ===== src/Tasks/Memos.antt =====
-- Office memos: tasks/models/memo.py, the parts of tasks/site/memoadmin.py that decide who may do
-- what and that save a memo, and what `TasksBaseModelAdmin.save_model` of
-- tasks/site/tasksbasemodeladmin.py does to the memo of a task. A user or a group is its key, a date
-- the day's ordinal; a text that is put together is the list of its pieces.
pub mod Access
pub mod Lifecycle
use agamin_crm.Prelude.{
  Bool, List, Option, String, [], contains, false, first, if◌then◌else◌, is_some, map, not, select,
  some, true, ℕ, ◌&&◌, ◌++◌, ◌-◌, ◌==◌, ◌||◌, ◌∷◌,
}
use agamin_crm.Common.Base.{add_to_workflow}
use agamin_crm.Tasks.Permissions.{User}
use agamin_crm.Tasks.Participants.{Notice, message, mail, no_address}

pub data Stage : Type 0 where
  pending postponed reviewed : Stage

-- `memo.stage != memo.REVIEWED` is `not (is_reviewed memo.stage)`.
unfoldable pub is_reviewed : Stage → Bool
is_reviewed reviewed = true
is_reviewed _ = false

pub record Memo : Type 0 where
  pub id : ℕ
  pub owner : ℕ
  pub name : String
  pub to : ℕ
  pub task : Option ℕ
  pub project : Option ℕ
  pub deal : Option ℕ
  pub description : String
  pub note : List String
  pub draft : Bool
  pub notified : Bool
  pub review_date : Option ℕ
  pub stage : Stage
  pub subscribers : List ℕ
  pub notified_subscribers : List ℕ

-- A memo, what has been sent, the newest last, and the workflow of its deal.
pub record Office : Type 0 where
  pub memo : Memo
  pub sent : List Notice
  pub deal_workflow : List String

-- `email_to_participants`: who gets an e-mail.
unfoldable pub email_to : List ℕ → List Notice
email_to us = map mail us

-- `Memo.send_review_notification`
unfoldable pub send_review_notification : Office → Office
unfolding email_to
send_review_notification o = record o {
  sent = o.sent ++ email_to (o.memo.owner ∷ o.memo.subscribers);
}

-- What the form says: the fields that were changed, and the button that was pressed.
pub record MemoForm : Type 0 where
  pub user : User
  pub stage_changed : Bool
  pub subscribers_changed : Bool
  pub draft_changed : Bool
  pub create_task : Bool
  pub change : Bool

-- What is created from a memo.
pub data Created : Type 0 where
  task_created project_created : ℕ → Created

set_created : String → Created → List String → Memo → Memo
set_created f_date (task_created k) note m = record m {
  task = some k;
  note = f_date ∷ " - " ∷ "The task was created" ∷ "\n\n" ∷ note;
}
set_created f_date (project_created k) note m = record m {
  project = some k;
  note = f_date ∷ " - " ∷ "The Project was created" ∷ "\n\n" ∷ note;
}

module _ (today : ℕ) where
  -- `MemoAdmin.save_model`
  unfoldable pub save_model : MemoForm → Memo → Memo
  unfolding is_reviewed
  save_model r m =
      if r.stage_changed && is_reviewed m.stage
      then (if r.create_task
          then record m { stage = postponed }
          else if is_some m.review_date
          then m
          else record m { review_date = some today })
      else m

  -- The part of `TasksBaseModelAdmin.save_model` for a task or project that was created from a memo;
  -- `note` is the note of what was created.
  pub take_up_memo : String → Created → List String → Office → Office
  unfolding is_reviewed set_created send_review_notification
  take_up_memo f_date created note o =
      if not (is_reviewed o.memo.stage)
      then send_review_notification (record o {
        memo = record (set_created f_date created note o.memo) {
          stage = reviewed;
          review_date = some today;
        };
      })
      else o

review_notice : MemoForm → Office → Office
unfolding send_review_notification is_reviewed
review_notice r o =
    if r.stage_changed && is_reviewed o.memo.stage then send_review_notification o else o

deal_notice : String → MemoForm → Office → Office
unfolding add_to_workflow
deal_notice f_date r o =
    if not r.change && is_some o.memo.deal
    then record o {
      deal_workflow =
          add_to_workflow f_date ("The office memo was written - " ∷ o.memo.name ∷ [])
            o.deal_workflow;
    }
    else o

-- The addressee is told once, when the owner saves a memo that is not a draft.
addressee_notice : MemoForm → Office → Office
unfolding email_to
addressee_notice r o =
    if not o.memo.draft && (not o.memo.notified && (r.user.id == o.memo.owner))
    then record {
      memo = record o.memo { notified = true };
      sent = o.sent ++ (message o.memo.to ∷ email_to (o.memo.to ∷ []));
      deal_workflow = o.deal_workflow;
    }
    else o

-- `difference` and its loop.
pub new_subscribers : Memo → List ℕ
new_subscribers m = select (λ u. not (contains u m.notified_subscribers)) m.subscribers

module _ (has_email : ℕ → Bool) where
  notice : List ℕ → List Notice
  notice [] = []
  notice (u ∷ us) = message u ∷ (if has_email u then notice us else no_address u ∷ notice us)

  subscriber_notice : MemoForm → Office → Office
  unfolding email_to new_subscribers notice
  subscriber_notice r o =
      if (not o.memo.draft && is_some (first o.memo.subscribers))
        && (r.subscribers_changed || r.draft_changed)
      then (let new = new_subscribers o.memo in
          record {
            memo = record o.memo {
              notified_subscribers = o.memo.notified_subscribers ++ select has_email new;
            };
            sent = o.sent ++ (notice new ++ email_to (select has_email new));
            deal_workflow = o.deal_workflow;
          })
      else o

  -- `MemoAdmin.save_related`, after the many-to-many fields of the form are saved.
  pub save_related : String → MemoForm → Office → Office
  unfolding review_notice deal_notice addressee_notice subscriber_notice
  save_related f_date r o =
      subscriber_notice r (addressee_notice r (deal_notice f_date r (review_notice r o)))
