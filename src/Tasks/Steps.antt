-- ===== src/Tasks/Steps.antt =====
-- The next step of a task: tasks/site/taskadmin.py and the date that a step gets.
use agamin_crm.Prelude.{
  Bool, Bool-cases, inl, inr, refl, ◌≡◌, String, arith, if◌then◌else◌, not, str_eq, ℕ, ◌+◌, ◌<◌,
  ◌||◌, ◌∷◌, ◌≤◌, [],
}
use agamin_crm.Common.Base.{add_to_workflow}
use agamin_crm.Tasks.Models.{TaskStage, Task, weekday, get_delta_date}

abbrev pub acquainted : String
acquainted = "Acquainted with the task"

-- What a stage is called in the next step.
pub step_name : TaskStage → String
step_name s = if s.in_progress then "In progress" else if s.done then "Done" else s.name

-- `update_next_step_and_workflow`; `changed` is whether the form changed the next step.
pub update_next_step_and_workflow : String → String → Bool → Task → Task
unfolding step_name add_to_workflow
update_next_step_and_workflow f_date user changed t =
    if not changed || str_eq t.next_step acquainted
    then record t {
      next_step = step_name t.stage;
      workflow = add_to_workflow f_date (step_name t.stage ∷ ". (" ∷ user ∷ ")" ∷ []) t.workflow;
    }
    else t

-- The date that a task gets for its next step is later than today, by three days at most, and
-- neither a Saturday nor a Sunday.
pub get_delta_date_lem :
    (today : ℕ)
    → (today < get_delta_date today 1)
      × (get_delta_date today 1 ≤ today + 3)
      × (weekday (get_delta_date today 1) ≤ 4)
unfolding get_delta_date weekday
get_delta_date_lem today = (ground arith, ground arith, ground arith)

pub date_of_next_step :
    (f_date user : String) (changed : Bool) (t : Task)
    → (update_next_step_and_workflow f_date user changed t).next_step_date ≡ t.next_step_date
unfolding update_next_step_and_workflow
date_of_next_step f_date user changed t =
    elim (Bool-cases (not changed || str_eq t.next_step acquainted)) [
      | inl e ↦ rw e refl
      | inr e ↦ rw e refl
    ]
