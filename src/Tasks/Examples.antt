-- ===== src/Tasks/Examples.antt =====
-- A main task with a subtask, and what the theorems say of them.
use agamin_crm.Prelude.{List, [], contains, false, none, refl, select, some, true, ℕ, ◌∷◌, ◌≡◌, ◌⊎◌}
use agamin_crm.Prelude.Action.{returned}
use agamin_crm.Tasks.Models.{clean_task, has_active_subtask, TaskStage, Priority, Task}
use agamin_crm.Tasks.Closing.{subtasks_of, done_responsible, loaded, check_and_deacte_main_task}
use agamin_crm.Tasks.Closing.MainTask.{
  Closed, Clean, check_and_deacte_main_task_lem, check_and_deacte_main_task-clean_task,
}
use agamin_crm.Tasks.Participants.{responsible, Desk, notify_participants}
use agamin_crm.Tasks.Participants.Twice.{notify_responsible_twice}

abbrev pub started : TaskStage
started = record {
  id = 1;
  name = "work";
  default = false;
  done = false;
  in_progress = true;
  index_number = 1;
  active = true;
}

abbrev pub finished : TaskStage
finished = record {
  id = 2;
  name = "ready";
  default = false;
  done = true;
  in_progress = false;
  index_number = 2;
  active = false;
}

abbrev pub main_task : Task
main_task = record {
  id = some 1;
  owner = some 5;
  priority = Priority.middle;
  name = "main";
  description = "";
  note = "";
  due_date = none;
  start_date = none;
  closing_date = none;
  responsible = 7 ∷ [];
  notified_responsible = 7 ∷ 8 ∷ [];
  subscribers = [];
  notified_subscribers = [];
  workflow = [];
  next_step = "begin";
  next_step_date = none;
  active = true;
  remind_me = false;
  co_owner = none;
  tags = [];
  token = "t";
  files = [];
  task = none;
  project = none;
  stage = started;
  hide_main_task = false;
  lead_time = none;
}

abbrev pub subtask : Task
subtask = record main_task {
  id = some 2;
  task = some 1;
  stage = finished;
  active = false;
  responsible = 5 ∷ 7 ∷ 9 ∷ [];
  notified_responsible = 9 ∷ [];
}

abbrev rows : List Task
rows = main_task ∷ subtask ∷ []

check_and_deacte_main_task_lem_example :
    (check_and_deacte_main_task 739000 "day" (started ∷ finished ∷ []) rows main_task
      ≡ (returned tt, loaded main_task))
    ⊎ ((select (λ s. s.active) (subtasks_of main_task rows) ≡ [])
        × ((u : ℕ)
            → contains u main_task.responsible ≡ true
            → contains u (done_responsible main_task rows) ≡ true)
        × ((u : ℕ)
            → contains u (done_responsible main_task rows) ≡ true
            → contains u main_task.responsible ≡ true)
        × Closed 739000
            (started ∷ finished ∷ [])
            (check_and_deacte_main_task 739000 "day" (started ∷ finished ∷ []) rows main_task))
check_and_deacte_main_task_lem_example =
    check_and_deacte_main_task_lem 739000 "day" (started ∷ finished ∷ []) rows main_task

main_task-clean : clean_task rows main_task ≡ (returned tt, main_task)
unfolding clean_task has_active_subtask
main_task-clean = refl

check_and_deacte_main_task-clean_task_example :
    Clean rows (check_and_deacte_main_task 739000 "day" (started ∷ finished ∷ []) rows main_task)
check_and_deacte_main_task-clean_task_example =
    check_and_deacte_main_task-clean_task 739000 "day" (started ∷ finished ∷ []) rows main_task
      (refl, (refl, tt)) main_task-clean

abbrev desk : Desk
desk = record { obj = subtask; sent = [] }

notify_responsible_twice_example :
    (notify_participants rows
        (λ u. true)
        responsible
        (notify_participants rows (λ u. true) responsible desk).1).0
      ≡ false
    × ((notify_participants rows
          (λ u. true)
          responsible
          (notify_participants rows (λ u. true) responsible desk).1).1.sent
        ≡ (notify_participants rows (λ u. true) responsible desk).1.sent)
notify_responsible_twice_example = notify_responsible_twice rows (λ u. true) desk
