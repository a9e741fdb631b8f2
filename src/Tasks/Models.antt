-- ===== src/Tasks/Models.antt =====
-- Stages and tasks: tasks/models/stagebase.py, taskstage.py, taskbase.py and task.py. A user, a
-- group or a file is its key, a date the day's ordinal (`date.toordinal`), a duration a number of
-- seconds; a many-to-many field is the list of the keys.
use agamin_crm.Prelude.{
  Bool, List, Option, String, false, first, if◌then◌else◌, is_some, none, not, opt_eq, select, some,
  ℕ, ◌%◌, ◌&&◌, ◌+◌, ◌-◌, ◌==◌, ◌||◌,
}
use agamin_crm.Prelude.Action.{Action, returned, raised, validation_error}

pub record TaskStage : Type 0 where
  pub id : ℕ
  pub name : String
  pub default : Bool
  pub done : Bool
  pub in_progress : Bool
  pub index_number : ℕ
  pub active : Bool

pub data Priority : Type 0 where
  low middle high : Priority

-- `task` is the main task of a subtask. An id is `none` until the task is saved.
pub record Task : Type 0 where
  pub id : Option ℕ
  pub owner : Option ℕ
  pub priority : Priority
  pub name : String
  pub description : String
  pub note : String
  pub due_date : Option ℕ
  pub start_date : Option ℕ
  pub closing_date : Option ℕ
  pub responsible : List ℕ
  pub notified_responsible : List ℕ
  pub subscribers : List ℕ
  pub notified_subscribers : List ℕ
  pub workflow : List String
  pub next_step : String
  pub next_step_date : Option ℕ
  pub active : Bool
  pub remind_me : Bool
  pub co_owner : Option ℕ
  pub tags : List ℕ
  pub token : String
  pub files : List ℕ
  pub task : Option ℕ
  pub project : Option ℕ
  pub stage : TaskStage
  pub hide_main_task : Bool
  pub lead_time : Option ℕ

-- The subtasks that the database has of the task with this id.
unfoldable pub is_subtask : Option ℕ → Task → Bool
is_subtask none t = false
is_subtask (some k) t = opt_eq t.task (some k)

unfoldable pub has_active_subtask : List Task → Task → Bool
unfolding is_subtask
has_active_subtask rows t = is_some (first (select (λ s. is_subtask t.id s && s.stage.active) rows))

-- `Task.clean`
unfoldable pub clean_task : List Task → Action Task (Unit {0})
unfolding has_active_subtask
clean_task rows t =
    if is_some t.id && (not (is_some t.task) && (not t.stage.active && has_active_subtask rows t))
    then (raised validation_error, t)
    else (returned tt, t)

-- `date.weekday()`, 0 for Monday.
unfoldable pub weekday : ℕ → ℕ
weekday day = (day + 6) % 7

-- `get_delta_date` of common/utils/helpers.py.
unfoldable pub get_delta_date : ℕ → ℕ → ℕ
unfolding weekday
get_delta_date today delta =
    let n = weekday today in if n == 4 || n == 5 then today + (delta + 6 - n) else today + delta

-- What `Task.save` and `TaskBase.save` set before the row is written.
unfoldable pub save_task : ℕ → Task → Task
unfolding get_delta_date
save_task today t = record t {
  active = t.stage.active;
  lead_time = if is_some t.lead_time then t.lead_time else some 0;
  next_step_date =
      if is_some t.next_step_date then t.next_step_date else some (get_delta_date today 1);
}
