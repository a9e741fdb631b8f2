-- ===== src/Tasks/Saving/Model.antt =====
-- `save_model` of a task.
pub mod Returns
use Prim.Native.String.{◌++◌ as str_append}
use agamin_crm.Prelude.{
  Bool, List, Option, String, [], contains, false, first, if◌then◌else◌, is_some, ltb, none, not,
  opt_eq, select, some, str_eq, suc, true, ℕ, ◌&&◌, ◌++◌, ◌==◌, ◌||◌, ◌∷◌,
}
use agamin_crm.Prelude.Action.{Action, returned, raised, modify, does_not_exist, type_error, ◌>>◌}
use agamin_crm.Common.Base.{add_to_workflow}
use agamin_crm.Tasks.Models.{TaskStage, Task, save_task}
use agamin_crm.Tasks.Steps.{acquainted, update_next_step_and_workflow}
use agamin_crm.Tasks.Saving.{
  Form, Saving, change_obj, with_stage, update_row, set_related, save_obj,
}

-- `obj.add_to_workflow`
unfoldable pub enter : String → List String → Task → Task
unfolding add_to_workflow
enter f_date msg t = record t { workflow = add_to_workflow f_date msg t.workflow }

-- `a > b` on dates; `none` is the `TypeError` of a date that is missing.
unfoldable pub later : Option ℕ → Option ℕ → Option Bool
later (some a) (some b) = some (ltb b a)
later _ _ = none

-- `a and b and a > b`
pub is_past : Option ℕ → Option ℕ → Bool
is_past (some a) (some b) = ltb b a
is_past _ _ = false

pub co_owner_from : Option Task → Action Saving (Unit {0})
unfolding change_obj
co_owner_from none w = (raised does_not_exist, w)
co_owner_from (some g) w = (returned tt, change_obj (λ t. record t { co_owner = g.owner }) w)

-- `main_task.task.owner if main_task.task else main_task.owner`, where `key` is that of
-- `main_task.task`.
pub set_co_owner : Option ℕ → Task → Action Saving (Unit {0})
unfolding co_owner_from
set_co_owner none m w = co_owner_from (some m) w
set_co_owner (some k) m w = co_owner_from (first (select (λ t. opt_eq t.id (some k)) w.rows)) w

pub set_stage : Option TaskStage → Saving → Saving
set_stage s w = record w { stage = s }

module _ (today : ℕ) (f_date : String) (stages : List TaskStage) (f : Form) where
  pub in_progress_stage : Option TaskStage
  in_progress_stage = first (select (λ s. s.in_progress) stages)

  -- Who makes a subtask for himself has begun it.
  pub begin_own : Action Saving (Unit {0})
  unfolding set_stage in_progress_stage
  begin_own w =
      if contains f.user.id f.responsible
      then elim w.stage [
        | none ↦ (raised does_not_exist, w)
        | some s ↦ (returned tt, if s.active then set_stage in_progress_stage w else w)
      ]
      else (returned tt, w)

  pub created : String → Action Saving (Unit {0})
  unfolding enter change_obj
  created msg = modify (change_obj (enter f_date (msg ∷ ". (" ∷ f.username ∷ ")" ∷ [])))

  pub start_of : Option Task → Action Saving (Unit {0})
  unfolding created begin_own set_co_owner
  start_of none = created "The task was created"
  start_of (some m) = set_co_owner m.task m >> (begin_own >> created "The subtask was created")

  -- `if not change`
  pub start : Action Saving (Unit {0})
  unfolding start_of
  start w = if f.change then (returned tt, w) else start_of w.main w

  -- The warning of a date later than that of the main task.
  pub warn : Saving → Saving
  unfolding is_past
  warn w = elim w.main [
    | none ↦ w
    | some m ↦
        if is_past w.obj.next_step_date m.due_date || is_past w.obj.due_date m.due_date
        then record w { warnings = suc w.warnings }
        else w
  ]

  -- The main task takes the next step of the subtask.
  pub take_step : Task → Task → Task
  take_step t m = record m { next_step = t.next_step; next_step_date = t.next_step_date }

  pub main_step : Task → Action Saving (Unit {0})
  unfolding enter later take_step
  main_step m w =
      let m1 = enter f_date (w.obj.next_step ∷ ". (" ∷ f.username ∷ ")" ∷ []) m in
      if str_eq m1.next_step acquainted && not (str_eq w.obj.next_step acquainted)
      then (returned tt, record w { main = some (take_step w.obj m1) })
      else elim (later m1.next_step_date w.obj.next_step_date) [
        | none ↦ (raised type_error, record w { main = some m1 })
        | some true ↦ (returned tt, record w { main = some (take_step w.obj m1) })
        | some false ↦ (returned tt, record w { main = some m1 })
      ]

  pub next_step : Action Saving (Unit {0})
  unfolding main_step change_obj
  next_step w =
      if f.next_step_changed
      then elim w.main [ none ↦ (returned tt, w) | some m ↦ main_step m w ]
      else if str_eq w.obj.next_step ""
      then (returned tt, change_obj (λ t. record t { next_step = acquainted }) w)
      else (returned tt, w)

  -- `update_next_step_and_workflow`, which reads the stage only where it changes the step.
  pub update_step : Action Saving (Unit {0})
  unfolding change_obj with_stage
  update_step w = elim w.stage [
    | none ↦
        if not f.next_step_changed || str_eq w.obj.next_step acquainted
        then (raised does_not_exist, w)
        else (returned tt, w)
    | some s ↦ (
      returned tt,
      change_obj
          (λ t.
            update_next_step_and_workflow f_date f.username f.next_step_changed (with_stage s t))
          w,
    )
  ]

  pub close_obj : Saving → Saving
  unfolding change_obj
  close_obj w = change_obj (λ t. record t { closing_date = some today }) w

  pub complete : Action Saving (Unit {0})
  unfolding set_stage close_obj update_step
  complete w =
      if f.completed
      then update_step (close_obj (set_stage (first (select (λ s. s.done) stages)) w))
      else (returned tt, w)

  pub change_stage_of : Option TaskStage → Action Saving (Unit {0})
  unfolding set_stage close_obj update_step
  change_stage_of none w =
      if f.stage_changed
      then (raised does_not_exist, w)
      else (returned tt, set_stage (first (select (λ s. s.default) stages)) w)
  change_stage_of (some s) w =
      if f.stage_changed
      then update_step (if s.active then w else close_obj w)
      else (returned tt, w)

  pub change_stage : Action Saving (Unit {0})
  unfolding change_stage_of
  change_stage w = change_stage_of w.stage w

  -- The next step of a task that another user changes names him.
  pub sign_step : Task → Task
  sign_step t = elim t.responsible [
    | u ∷ [] ↦ if u == f.user.id then t else record t {
      next_step = str_append t.next_step (str_append " (" (str_append f.username ")"));
    }
    | _ ↦ t
  ]

  pub log_step : Task → Task
  unfolding enter
  log_step t = enter f_date (t.next_step ∷ "." ∷ []) t

  pub set_owner : Task → Task
  set_owner t = if is_some t.owner then t else record t { owner = some f.user.id }

  -- `subscribers.remove(responsible.first())`, before the form has stored who is responsible.
  pub unsubscribe : Task → Task
  unsubscribe t = elim t.responsible [
    | [] ↦ t
    | u ∷ us ↦ record t { subscribers = select (λ v. not (v == u)) t.subscribers }
  ]

  -- What `TasksBaseModelAdmin.save_model` does before the row is written.
  pub prepare_obj : Saving → Saving
  unfolding sign_step log_step set_owner change_obj is_past
  prepare_obj w =
      let t = if f.next_step_changed && f.change then log_step (sign_step w.obj) else w.obj in
      record w {
        obj = set_owner t;
        warnings =
            if f.next_step_date_changed && is_past t.next_step_date t.due_date
            then suc w.warnings
            else w.warnings;
      }

  -- What it does afterwards.
  pub attach : Saving → Saving
  unfolding set_related unsubscribe
  attach w =
      set_related
        (λ t. (record (if not f.change && is_some w.main then unsubscribe t else t) {
          files = t.files ++ f.attach_files;
        }))
        w

  -- `main_task.save()`, where the next step was changed.
  pub save_main : Saving → Saving
  unfolding update_row
  save_main w = elim w.main [
    | none ↦ w
    | some m ↦
        if f.next_step_changed
        then record w {
          main = some (save_task today m);
          rows = update_row m.id (λ _. save_task today m) w.rows;
        }
        else w
  ]

  -- `Memo.objects.get(id=parent_memo_id)`; what is done to the memo is `take_up_memo` of Memos.
  pub find_memo : Action Saving (Unit {0})
  find_memo w = elim f.parent_memo [
    | none ↦ (returned tt, w)
    | some k ↦ if contains k f.memos then (returned tt, w) else (raised does_not_exist, w)
  ]

  -- `obj.project_id = …`; reading `obj.project` raises where the table has no such row.
  pub enter_project : ℕ → Action Saving (Unit {0})
  unfolding change_obj add_to_workflow
  enter_project p w =
      let v = change_obj (λ t. record t { project = some p }) w in
      if contains p f.projects
      then (
        returned tt,
        record v {
          project_workflow =
              add_to_workflow f_date ("The task was created" ∷ " (" ∷ f.username ∷ ")" ∷ [])
                w.project_workflow;
        },
      )
      else (raised does_not_exist, v)

  pub join_project : Action Saving (Unit {0})
  unfolding enter_project
  join_project w =
      if f.change
      then (returned tt, w)
      else elim f.parent_project [ none ↦ (returned tt, w) | some p ↦ enter_project p w ]

  -- `TaskAdmin.save_model`
  pub save_model : Action Saving (Unit {0})
  unfolding start warn next_step complete change_stage prepare_obj attach find_memo save_main
      join_project
  save_model =
      start
      >> modify warn
      >> next_step
      >> complete
      >> change_stage
      >> modify prepare_obj
      >> save_obj today
      >> modify attach
      >> find_memo
      >> modify save_main
      >> join_project
