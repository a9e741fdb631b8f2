-- ===== src/Tasks/Saving.antt =====
-- What the form of a task does when it is saved: `save_model` and `save_related` of
-- tasks/site/taskadmin.py with those of tasks/site/tasksbasemodeladmin.py that they call. The
-- main task of a subtask is one object that both methods change in memory and write to its row,
-- whole or some fields only; `rows` is the table of the tasks.
pub mod Model
pub mod Related
pub mod Returns
use agamin_crm.Prelude.{
  Bool, List, Option, String, [], if◌then◌else◌, none, opt_eq, some, suc, ℕ, ◌++◌, ◌∷◌,
}
use agamin_crm.Prelude.Action.{Action, returned, raised, does_not_exist}
use agamin_crm.Tasks.Models.{TaskStage, Task, save_task}
use agamin_crm.Tasks.Permissions.{User}
use agamin_crm.Tasks.Participants.{Notice}

-- The request and the form: which fields were changed, the many-to-many fields as they were sent,
-- and the buttons and parameters; `memos` and `projects` are the keys that those tables have.
pub record Form : Type 0 where
  pub user : User
  pub username : String
  pub change : Bool
  pub next_step_changed : Bool
  pub next_step_date_changed : Bool
  pub stage_changed : Bool
  pub responsible_changed : Bool
  pub subscribers_changed : Bool
  pub responsible : List ℕ
  pub subscribers : List ℕ
  pub attach_files : List ℕ
  pub completed : Bool
  pub parent_memo : Option ℕ
  pub parent_project : Option ℕ
  pub memos : List ℕ
  pub projects : List ℕ

-- `stage` is that of the object in hand, `none` where reading it raises; `main` is `obj.task`;
-- `workflow` is that of the project a task is created for; `warnings` counts the messages for the
-- user, `sent` is what others are told.
pub record Saving : Type 0 where
  pub obj : Task
  pub stage : Option TaskStage
  pub main : Option Task
  pub rows : List Task
  pub next_id : ℕ
  pub warnings : ℕ
  pub project_workflow : List String
  pub sent : List Notice

unfoldable pub change_obj : (Task → Task) → Saving → Saving
change_obj f w = record w { obj = f w.obj }

unfoldable pub set_main : (Task → Task) → Saving → Saving
set_main f w = record w { main = elim w.main [ none ↦ none | some m ↦ some (f m) ] }

-- The object with the stage that it has been given.
unfoldable pub with_stage : TaskStage → Task → Task
with_stage s t = record t { stage = s }

-- Writing a row, by a function of what the table has under the key: `UPDATE … SET`.
unfoldable pub update_row : Option ℕ → (Task → Task) → List Task → List Task
update_row k f [] = []
update_row k f (t ∷ ts) = (if opt_eq t.id k then f t else t) ∷ update_row k f ts

-- A change of the participants or files, which have tables of their own: the object reads them
-- from there, so both the object and its row have them.
unfoldable pub set_related : (Task → Task) → Saving → Saving
unfolding update_row
set_related f w = record w { obj = f w.obj; rows = update_row w.obj.id f w.rows }

-- `obj.save()`: a new task gets a key.
unfoldable pub insert_or_update : Task → Saving → Saving
unfolding update_row
insert_or_update t w = elim t.id [
  | none ↦ record w {
    obj = record t { id = some w.next_id };
    rows = w.rows ++ (record t { id = some w.next_id } ∷ []);
    next_id = suc w.next_id;
  }
  | some k ↦ record w { obj = t; rows = update_row (some k) (λ _. t) w.rows }
]

unfoldable pub save_obj : ℕ → Action Saving (Unit {0})
unfolding insert_or_update with_stage
save_obj today w = elim w.stage [
  | none ↦ (raised does_not_exist, w)
  | some s ↦ (returned tt, insert_or_update (save_task today (with_stage s w.obj)) w)
]
