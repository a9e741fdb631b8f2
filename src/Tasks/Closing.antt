-- ===== src/Tasks/Closing.antt =====
-- `Task.check_and_deacte_main_task` and `copy_files_to_maintask` of tasks/models/task.py, and
-- `check_subtasks` of tasks/views/create_completed_subtask.py.
pub mod MainTask
use agamin_crm.Prelude.{
  Bool, List, Option, String, [], contains, first, if◌then◌else◌, is_some, map, none, not, select,
  some, true, ℕ, ◌&&◌, ◌++◌, ◌||◌, ◌∷◌,
}
use agamin_crm.Prelude.Action.{Outcome, returned, raised, does_not_exist}
use agamin_crm.Common.Base.{add_to_workflow}
use agamin_crm.Tasks.Models.{TaskStage, Task, is_subtask, save_task}

pub subtasks_of : Task → List Task → List Task
unfolding is_subtask
subtasks_of main rows = select (is_subtask main.id) rows

concat : List (List ℕ) → List ℕ
concat [] = []
concat (xs ∷ xss) = xs ++ concat xss

pub subset : List ℕ → List ℕ → Bool
subset [] ys = true
subset (x ∷ xs) ys = contains x ys && subset xs ys

-- Those responsible for a subtask that is done.
pub done_responsible : Task → List Task → List ℕ
unfolding subtasks_of concat
done_responsible main rows =
    concat (
      map (λ s. s.responsible) (select (λ s. s.stage.done && not s.active) (subtasks_of main rows)))

-- Whether the main task is to be closed.
pub is_finished : Task → List Task → Bool
unfolding done_responsible subset
is_finished main rows =
    not (is_some (first (select (λ s. s.active) (subtasks_of main rows))))
    && (subset main.responsible (done_responsible main rows)
        && subset (done_responsible main rows) main.responsible)

-- The main task in memory: `stage` is `none` once it was set to `None`, and what `task` says of the
-- stage is then the old one.
pub record HeldMain : Type 0 where
  pub task : Task
  pub stage : Option TaskStage

pub loaded : Task → HeldMain
loaded main = record { task = main; stage = some main.stage }

-- What is assigned besides the stage.
pub marked : ℕ → String → Task → Task
marked today f_date main = record main {
  workflow = add_to_workflow f_date ("The main task is closed automatically." ∷ []) main.workflow;
  next_step = "Done";
  next_step_date = some today;
  closing_date = some today;
}

pub closed : ℕ → String → TaskStage → Task → Task
unfolding marked
closed today f_date stage main =
    save_task today (record (marked today f_date main) { stage = stage })

-- Without a stage that is done, `save` raises where it reads the stage, before the row is written.
pub close : ℕ → String → Option TaskStage → Task → Outcome (Unit {0}) × HeldMain
unfolding closed marked
close today f_date none main =
    (raised does_not_exist, record { task = marked today f_date main; stage = none })
close today f_date (some stage) main =
    (returned tt, record { task = closed today f_date stage main; stage = some stage })

-- `rows` is the table of the tasks, `stages` that of the stages.
pub check_and_deacte_main_task :
    ℕ → String → List TaskStage → List Task → Task → Outcome (Unit {0}) × HeldMain
unfolding close is_finished loaded
check_and_deacte_main_task today f_date stages rows main =
    if main.stage.default || main.stage.in_progress
    then (if is_finished main rows
        then close today f_date (first (select (λ s. s.done) stages)) main
        else (returned tt, loaded main))
    else (returned tt, loaded main)

-- `copy_files_to_maintask`: the files that the main task has not got.
pub copy_files_to_maintask : Task → Task → Task
copy_files_to_maintask sub main = record main {
  files = main.files ++ select (λ f. not (contains f main.files)) sub.files;
}

-- `check_subtasks` for a user: no redirect, a redirect to the list, or a warning with it.
pub data Redirect : Type 0 where
  no_redirect to_list to_active_subtask : Redirect

pub check_subtasks : ℕ → Option ℕ → List Task → Redirect
unfolding is_subtask
check_subtasks main none rows = no_redirect
check_subtasks main (some user) rows =
    let own = select (λ s. is_subtask (some main) s && contains user s.responsible) rows in
    if is_some (first (select (λ s. s.stage.active) own))
    then to_active_subtask
    else if is_some (first (select (λ s. not s.stage.active && s.hide_main_task) own))
    then to_list
    else no_redirect
