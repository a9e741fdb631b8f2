-- ===== src/Tasks/FormExamples.antt =====
-- A memo, and a subtask whose form is saved, and what the theorems say of them.
use mathlib.Core.List.Memᴰ.{head}
use agamin_crm.Prelude.{
  List, Option, [], ap, contains, false, none, refl, some, true, ℕ, ◌++◌, ◌∙◌, ◌∷◌, ◌≡◌, ◌⊎◌,
}
use agamin_crm.Prelude.Action.{returned}
use agamin_crm.Tasks.Models.{TaskStage, Task}
use agamin_crm.Tasks.Examples.{started, finished, main_task, subtask}
use agamin_crm.Tasks.Permissions.{
  User, has_change_permission, has_delete_permission, has_view_permission, is_listed,
}
use agamin_crm.Tasks.Permissions.Listed.{permissions_ordered}
use agamin_crm.Tasks.Saving.{Form, Saving}
use agamin_crm.Tasks.Saving.Model.{save_model}
use agamin_crm.Tasks.Saving.Model.Returns.{IsReady, is_ready, dated, HasParent, save_model_returns}
use agamin_crm.Tasks.Saving.Related.{update_main}
use agamin_crm.Tasks.Saving.Related.MainStage.{HasProgress, row_of, update_main-keeps_up}
use agamin_crm.Tasks.Memos.{
  pending, reviewed, is_reviewed, Memo, Office, MemoForm, task_created, take_up_memo, email_to,
}
use agamin_crm.Tasks.Memos.Access as Access
use agamin_crm.Tasks.Memos.Access.{is_listed_or_subscribed}
use agamin_crm.Tasks.Memos.Lifecycle.{
  IsDated, Fits, saved, by_form, by_creation, here, next, Reach-IsDated, create_task_reviews,
}

abbrev stages : List TaskStage
stages = started ∷ finished ∷ []

abbrev clerk : User
clerk = record { id = 7; is_superuser = false; is_chief = false; is_task_operator = false }

abbrev rows : List Task
rows = main_task ∷ subtask ∷ []

permissions_ordered_example :
    (is_listed rows clerk main_task ≡ true
      → has_view_permission rows true clerk (some main_task) ≡ true)
    × (has_delete_permission true clerk (some main_task) ≡ true
        → has_change_permission true clerk (some main_task) ≡ true)
    × (has_change_permission true clerk (some main_task) ≡ true
        → has_view_permission rows true clerk (some main_task) ≡ true)
permissions_ordered_example = permissions_ordered rows true clerk main_task (head refl)

abbrev form : Form
form = record {
  user = clerk;
  username = "ann";
  change = false;
  next_step_changed = true;
  next_step_date_changed = true;
  stage_changed = false;
  responsible_changed = true;
  subscribers_changed = false;
  responsible = 7 ∷ [];
  subscribers = [];
  attach_files = 4 ∷ [];
  completed = false;
  parent_memo = some 1;
  parent_project = some 3;
  memos = 1 ∷ [];
  projects = 3 ∷ [];
}

-- The main task is closed, and a new subtask of it is in progress.
abbrev closed_main : Task
closed_main = record main_task { stage = finished; active = false; next_step_date = some 739000 }

abbrev new_task : Task
new_task = record subtask { id = none; stage = started; next_step_date = some 739004 }

abbrev saving : Saving
saving = record {
  obj = new_task;
  stage = some started;
  main = some closed_main;
  rows = closed_main ∷ [];
  next_id = 2;
  warnings = 0;
  project_workflow = [];
  sent = [];
}

progress : HasProgress stages
progress = record { stage = started; is_first = refl; stage_active = refl; not_default = refl }

row_found : row_of (some 1) (closed_main ∷ []) ≡ some closed_main
unfolding row_of
row_found = refl

saving-IsReady : IsReady saving
unfolding is_ready dated
saving-IsReady = refl

saving-HasParent : HasParent 739000 "day" stages form saving
unfolding HasParent
saving-HasParent m k e key =
    let no_main : none ≡ some k =
      ap (λ (o : Option Task). elim o as (λ _. Option ℕ) [ none ↦ none | some t ↦ t.task ]) e
      ∙ key in
    cc

save_model_returns_example :
    ((save_model 739000 "day" stages form saving).0 ≡ returned tt)
    × IsReady (save_model 739000 "day" stages form saving).1
save_model_returns_example =
    save_model_returns 739000 "day" stages form saving refl refl saving-IsReady saving-HasParent
      refl refl

update_main-keeps_up_example :
    (p : Task) × (q : Task) × ((update_main 739000 "day" stages form saving).0 ≡ returned tt)
    × ((update_main 739000 "day" stages form saving).1.main ≡ some p)
    × (row_of (some 1) (update_main 739000 "day" stages form saving).1.rows ≡ some q)
    × (q.stage ≡ p.stage)
    × (true ≡ true → p.stage.default ≡ false)
    × (true ≡ true → p.stage.active ≡ true)
update_main-keeps_up_example =
    update_main-keeps_up 739000 "day" stages form saving closed_main closed_main progress refl
      row_found refl

abbrev memo : Memo
memo = record {
  id = 1;
  owner = 5;
  name = "a desk";
  to = 6;
  task = none;
  project = none;
  deal = none;
  description = "";
  note = [];
  draft = false;
  notified = true;
  review_date = none;
  stage = pending;
  subscribers = 7 ∷ [];
  notified_subscribers = [];
}

is_listed_or_subscribed_example :
    (Access.has_view_permission true clerk (some memo) ≡ true → Access.is_listed clerk memo ≡ true)
    × (Access.is_listed clerk memo ≡ true
        → (Access.has_view_permission true clerk (some memo) ≡ true)
          ⊎ (contains 7 memo.subscribers ≡ true))
is_listed_or_subscribed_example = is_listed_or_subscribed clerk memo refl

abbrev office : Office
office = record { memo = memo; sent = []; deal_workflow = [] }

-- The chief marks the memo as reviewed by the button for a task.
abbrev review : MemoForm
review = record {
  user = record { id = 6; is_superuser = false; is_chief = true; is_task_operator = false };
  stage_changed = true;
  subscribers_changed = false;
  draft_changed = false;
  create_task = true;
  change = true;
}

abbrev marked : Memo
marked = record memo { stage = reviewed }

abbrev after_form : Office
after_form = saved 739000 (λ u. true) "day" review marked office

marked-Fits : Fits review memo marked
marked-Fits = record { review_date = refl; notified = refl; stage = λ e. cc }

memo-IsDated : IsDated memo
unfolding IsDated is_reviewed
memo-IsDated e = cc

create_task_reviews_example :
    (is_reviewed after_form.memo.stage ≡ false)
    × ((take_up_memo 739000 "day" (task_created 8) [] after_form).memo.stage ≡ reviewed)
    × ((take_up_memo 739000 "day" (task_created 8) [] after_form).memo.task ≡ some 8)
    × ((take_up_memo 739000 "day" (task_created 8) [] after_form).memo.review_date ≡ some 739000)
    × ((take_up_memo 739000 "day" (task_created 8) [] after_form).sent
        ≡ after_form.sent ++ email_to (after_form.memo.owner ∷ after_form.memo.subscribers))
create_task_reviews_example =
    create_task_reviews 739000 (λ u. true) "day" review marked office 8 [] refl (λ e. refl)

Reach-IsDated_example : IsDated (take_up_memo 739000 "day" (task_created 8) [] after_form).memo
Reach-IsDated_example =
    Reach-IsDated 739000 (λ u. true) "day"
      (next office after_form (take_up_memo 739000 "day" (task_created 8) [] after_form)
        (by_form review marked office marked-Fits)
        (next after_form (take_up_memo 739000 "day" (task_created 8) [] after_form)
          (take_up_memo 739000 "day" (task_created 8) [] after_form)
          (by_creation (task_created 8) [] after_form)
          (here (take_up_memo 739000 "day" (task_created 8) [] after_form))))
      memo-IsDated
