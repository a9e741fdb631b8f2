-- ===== src/Tasks/Saving/Related.antt =====
-- `save_related` of a task.
pub mod MainStage
use agamin_crm.Prelude.{
  is_some, Bool, List, String, [], false, first, if◌then◌else◌, none, not, select, some, str_eq,
  true, ℕ, ◌&&◌, ◌++◌, ◌||◌, ◌∷◌,
}
use agamin_crm.Prelude.Action.{Action, returned, raised, modify, attribute_error, ◌>>◌}
use agamin_crm.Tasks.Models.{TaskStage, Task, save_task}
use agamin_crm.Tasks.Steps.{acquainted}
use agamin_crm.Tasks.Closing.{is_finished, check_and_deacte_main_task, copy_files_to_maintask}
use agamin_crm.Tasks.Participants.{
  message, mail, Field, Desk, responsible, subscribers, set_notified, notified_of,
  notify_participants, notify_task_or_project_closed,
}
use agamin_crm.Tasks.Saving.{Form, Saving, set_main, with_stage, update_row, set_related, save_obj}
use agamin_crm.Tasks.Saving.Model.{enter}

-- `form.save_m2m()`
save_m2m : Form → Saving → Saving
unfolding set_related
save_m2m f w =
    set_related (λ t. record t { responsible = f.responsible; subscribers = f.subscribers }) w

-- `notify_participants`, where the form changed the field; whether it changed the task.
notify : (ℕ → Bool) → Field → Bool → Saving → Bool × Saving
unfolding set_related
notify has_email field false w = (false, w)
notify has_email field true w =
    let (b, d) =
      notify_participants w.rows has_email field (record { obj = w.obj; sent = w.sent }) in
    (
      b,
      record (set_related (λ t. set_notified field (notified_of field d.obj) t) w) {
        sent = d.sent;
      },
    )

notify_both : ℕ → (ℕ → Bool) → Form → Action Saving (Unit {0})
unfolding notify
notify_both today has_email f w =
    let (b, v) = notify has_email responsible f.responsible_changed w in
    let (c, u) = notify has_email subscribers f.subscribers_changed v in
    if c || b then save_obj today u else (returned tt, u)

notify_co_owner : Form → Saving → Saving
notify_co_owner f w = elim w.obj.co_owner [
  | none ↦ w
  | some u ↦ if f.change then w else record w { sent = w.sent ++ (message u ∷ mail u ∷ []) }
]

-- `"stage" in form.changed_data and not obj.active or "_completed" in request.POST`
is_closed : Form → Task → Bool
is_closed f t = (f.stage_changed && not t.active) || f.completed

notify_closed : (ℕ → Bool) → Form → Task → Saving → Saving
notify_closed has_email f t w =
    let d : Desk = record { obj = t; sent = w.sent } in
    record w { sent = (notify_task_or_project_closed w.rows has_email f.user.id d).sent }

-- `TasksBaseModelAdmin.save_related`, less `remind_me`, which changes no task.
base_save_related : ℕ → (ℕ → Bool) → Form → Action Saving (Unit {0})
unfolding save_m2m notify_both notify_co_owner notify_closed is_closed
base_save_related today has_email f =
    modify (save_m2m f)
    >> notify_both today has_email f
    >> modify (λ w.
      let v = notify_co_owner f w in
      if is_closed f v.obj then notify_closed has_email f v.obj v else v)

-- Whether the main task goes back to a stage in progress.
pub reopens : Task → Task → Bool
reopens t m = (m.stage.default && t.stage.in_progress) || (not m.stage.active && t.stage.active)

-- Whether the next step of the subtask is entered in the main task.
pub logs_step : Form → Task → Bool
logs_step f t =
    (f.completed || f.stage_changed) && (not f.next_step_changed || str_eq t.next_step acquainted)

module _ (today : ℕ) (f_date : String) (stages : List TaskStage) (f : Form) where
  pub log_created : Task → Task → Task
  unfolding enter
  log_created t m =
      if f.change
      then m
      else enter f_date ("The subtask was created: " ∷ t.name ∷ " (" ∷ f.username ∷ ")" ∷ []) m

  pub log_step : Task → Task → Task
  unfolding enter logs_step
  log_step t m =
      if logs_step f t
      then enter f_date
          (t.next_step ∷ ". " ∷ "The subtask" ∷ ": " ∷ t.name ∷ " (" ∷ f.username ∷ ")" ∷ []) m
      else m

  -- `main_task.save(update_fields=…)`: what the row takes over of the main task in memory.
  pub written : Bool → Task → Task → Task → Task
  unfolding logs_step
  written reopened t m row = record row {
    workflow = if not f.change || logs_step f t then m.workflow else row.workflow;
    stage = if reopened then m.stage else row.stage;
  }

  -- `Task.save` sets the fields in memory that the row does not take over.
  pub write_main : Bool → Task → Saving → Saving
  unfolding written log_step update_row
  write_main reopened m w =
      let n = save_task today (log_step w.obj m) in
      record w { main = some n; rows = update_row n.id (written reopened w.obj n) w.rows }

  pub update_main : Action Saving (Unit {0})
  unfolding log_created reopens write_main with_stage
  update_main w = elim w.main [
    | none ↦ (returned tt, w)
    | some m ↦
        let n = log_created w.obj m in
        if reopens w.obj m
        then elim (first (select (λ s. s.in_progress) stages)) [
          | none ↦ (raised attribute_error, record w { main = some n })
          | some s ↦ (returned tt, write_main true (with_stage s n) w)
        ]
        else (returned tt, write_main false n w)
  ]

  -- `obj.check_and_deacte_main_task()`, which saves the main task where it closes it; the exception
  -- where it has no stage to close it with ends the method.
  deacte : Task → Action Saving (Unit {0})
  unfolding update_row
  deacte m w =
      let (r, n) = check_and_deacte_main_task today f_date stages w.rows m in
      let v = record w { main = some n.task } in
      if (m.stage.default || m.stage.in_progress) && (is_finished m w.rows && is_some n.stage)
      then (r, record v { rows = update_row m.id (λ _. n.task) v.rows })
      else (r, v)

  -- `obj.copy_files_to_maintask()`
  copy_files : Saving → Saving
  unfolding set_main update_row
  copy_files w = elim w.main [
    | none ↦ w
    | some m ↦ record (set_main (copy_files_to_maintask w.obj) w) {
      rows = update_row m.id (copy_files_to_maintask w.obj) w.rows;
    }
  ]

  tell_closed : (ℕ → Bool) → Saving → Saving
  unfolding notify_closed
  tell_closed has_email w = elim w.main [
    | none ↦ w
    | some m ↦ if m.active then w else notify_closed has_email f m w
  ]

  close_main : (ℕ → Bool) → Action Saving (Unit {0})
  unfolding is_closed deacte copy_files tell_closed
  close_main has_email w = elim w.main [
    | none ↦ (returned tt, w)
    | some m ↦
        if is_closed f w.obj
        then (deacte m >> modify (λ v. tell_closed has_email (copy_files v))) w
        else if not w.obj.active && (not f.stage_changed && not f.completed)
        then (returned tt, copy_files w)
        else (returned tt, w)
  ]

  -- `TaskAdmin.save_related`
  pub save_related : (ℕ → Bool) → Action Saving (Unit {0})
  unfolding base_save_related close_main
  save_related has_email =
      base_save_related today has_email f >> update_main >> close_main has_email
