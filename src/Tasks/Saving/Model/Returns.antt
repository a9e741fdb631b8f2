-- ===== src/Tasks/Saving/Model/Returns.antt =====
-- Saving the form of a task does not fail.
use agamin_crm.Prelude.{
  Bool, Bool-cases, List, Option, Option-cases, String, arith, contains, first, if◌then◌else◌, inl,
  inr, is_some, none, opt_eq, refl, select, some, subst, true, ℕ, ◌&&◌, ◌≡◌,
}
use agamin_crm.Prelude.Action.{returned, modify}
use agamin_crm.Tasks.Models.{TaskStage, Task, save_task}
use agamin_crm.Tasks.Steps.{date_of_next_step}
use agamin_crm.Tasks.Saving.{Form, Saving, with_stage, set_related, insert_or_update, save_obj}
use agamin_crm.Tasks.Saving.Returns.{Returns, >>-Returns, if_at, if_keeps}
use agamin_crm.Tasks.Saving.Model.{
  start, warn, next_step, complete, change_stage, change_stage_of, co_owner_from, start_of,
  prepare_obj, attach, save_main, find_memo, enter_project, join_project, main_step, take_step,
  log_step, sign_step, set_owner, unsubscribe, update_step, close_obj, set_co_owner, begin_own,
  created, in_progress_stage, set_stage, enter, later, save_model,
}

unfoldable pub dated : Option Task → Bool
dated none = true
dated (some m) = is_some m.next_step_date

-- The object in hand has a stage and a date for its next step, and its main task has a date.
unfoldable pub is_ready : Saving → Bool
unfolding dated
is_ready w = is_some w.stage && (is_some w.obj.next_step_date && dated w.main)

abbrev pub IsReady : Saving → Type 0
IsReady w = is_ready w ≡ true

-- A step that leaves alone what makes a form ready.
same_ready :
    (v w : Saving)
    → is_some v.stage ≡ is_some w.stage
    → is_some v.obj.next_step_date ≡ is_some w.obj.next_step_date
    → dated v.main ≡ dated w.main
    → is_ready v ≡ is_ready w
unfolding is_ready
same_ready v w a b c = rw (a, b, c) refl

module _ (today : ℕ) (f_date : String) (stages : List TaskStage) (f : Form) where
  warn-Returns : Returns IsReady IsReady (modify (warn today f_date stages f))
  unfolding warn is_ready
  warn-Returns = record { at = λ w h. refl; keeps = λ w h. ground (arith, h) }

  prepare_obj-Returns : Returns IsReady IsReady (modify (prepare_obj today f_date stages f))
  unfolding prepare_obj is_ready sign_step log_step enter set_owner
  prepare_obj-Returns = record { at = λ w h. refl; keeps = λ w h. ground (arith, h) }

  save_obj-Returns : Returns IsReady IsReady (save_obj today)
  unfolding save_obj is_ready insert_or_update save_task
  save_obj-Returns = record { at = λ w h. ground (arith, h); keeps = λ w h. ground (arith, h) }

  attach-Returns : Returns IsReady IsReady (modify (attach today f_date stages f))
  unfolding attach is_ready unsubscribe set_related
  attach-Returns = record { at = λ w h. refl; keeps = λ w h. ground (arith, h) }

  save_main-Returns : Returns IsReady IsReady (modify (save_main today f_date stages f))
  unfolding save_main is_ready save_task
  save_main-Returns = record { at = λ w h. refl; keeps = λ w h. ground (arith, h) }

  -- The memo and the project that the parameters of the request name are there.
  abbrev pub IsFound : Option ℕ → List ℕ → Type 0
  IsFound none keys = Unit
  IsFound (some k) keys = contains k keys ≡ true

  find_memo-Returns :
      IsFound f.parent_memo f.memos → Returns IsReady IsReady (find_memo today f_date stages f)
  unfolding find_memo
  find_memo-Returns there = elim (Option-cases f.parent_memo) [
    | inl e ↦ record { at = λ w h. rw e refl; keeps = λ w h. rw e h }
    | inr (k, e) ↦
        let is_there : contains k f.memos ≡ true = subst (λ o. IsFound o f.memos) e there in
        record { at = λ w h. rw (e, is_there) refl; keeps = λ w h. rw (e, is_there) h }
  ]

  enter_project-Returns :
      (p : ℕ)
      → contains p f.projects ≡ true
      → Returns IsReady IsReady (enter_project today f_date stages f p)
  unfolding enter_project is_ready
  enter_project-Returns p there = record { at = λ w h. rw there refl; keeps = λ w h. rw there h }

  join_project-Returns :
      IsFound f.parent_project f.projects
      → Returns IsReady IsReady (join_project today f_date stages f)
  unfolding join_project
  join_project-Returns there = elim (Bool-cases f.change) [
    | inl c ↦ record { at = λ w h. rw c refl; keeps = λ w h. rw c h }
    | inr c ↦ elim (Option-cases f.parent_project) [
      | inl e ↦ record { at = λ w h. rw (c, e) refl; keeps = λ w h. rw (c, e) h }
      | inr (p, e) ↦
          let is_there : contains p f.projects ≡ true = subst (λ o. IsFound o f.projects) e there in
          record {
            at = λ w h. rw (c, e) ((enter_project-Returns p is_there).at w h);
            keeps = λ w h. rw (c, e) ((enter_project-Returns p is_there).keeps w h);
          }
    ]
  ]

  next_step-Returns : Returns IsReady IsReady (next_step today f_date stages f)
  unfolding next_step is_ready main_step enter later take_step
  next_step-Returns = record { at = λ w h. ground (arith, h); keeps = λ w h. ground (arith, h) }

  update_step-Returns : Returns IsReady IsReady (update_step today f_date stages f)
  unfolding update_step is_ready with_stage
  update_step-Returns = record {
    at = λ w h. ground (arith, h);
    keeps = λ w h. elim (Option-cases w.stage) [
      | inl e ↦ ground (arith, e, h)
      | inr (s, e) ↦
          rw (e, date_of_next_step f_date f.username f.next_step_changed (with_stage s w.obj))
            (ground (arith, h))
    ];
  }

  closed-IsReady : (w : Saving) → IsReady w → IsReady (close_obj today f_date stages f w)
  unfolding close_obj is_ready
  closed-IsReady w h = h

  complete-Returns :
      is_some (first (select (λ s. s.done) stages)) ≡ true
      → Returns IsReady IsReady (complete today f_date stages f)
  unfolding complete is_ready close_obj set_stage
  complete-Returns has = record {
    at = λ w h. elim (Bool-cases f.completed) [
      | inl e ↦ rw e (update_step-Returns.at _ (ground (arith, has, h)))
      | inr e ↦ rw e refl
    ];
    keeps = λ w h. elim (Bool-cases f.completed) [
      | inl e ↦ rw e (update_step-Returns.keeps _ (ground (arith, has, h)))
      | inr e ↦ rw e h
    ];
  }

  -- The object of a stage that is not active any more is closed first.
  perhaps_closed-IsReady :
      (s : TaskStage) (w : Saving)
      → IsReady w
      → IsReady (if s.active then w else close_obj today f_date stages f w)
  perhaps_closed-IsReady s w h = elim (Bool-cases s.active) [
    | inl e ↦ rw e h
    | inr e ↦ rw e (closed-IsReady w h)
  ]

  change_stage_of-at :
      (o : Option TaskStage) (w : Saving)
      → is_some o ≡ true
      → IsReady w
      → (change_stage_of today f_date stages f o w).0 ≡ returned tt
  unfolding change_stage_of
  change_stage_of-at none w has h = cc
  change_stage_of-at (some s) w has h =
      if_at f.stage_changed _ _ (update_step-Returns.at _ (perhaps_closed-IsReady s w h)) refl

  change_stage_of-IsReady :
      (o : Option TaskStage) (w : Saving)
      → is_some o ≡ true
      → IsReady w
      → IsReady (change_stage_of today f_date stages f o w).1
  unfolding change_stage_of
  change_stage_of-IsReady none w has h = cc
  change_stage_of-IsReady (some s) w has h =
      if_keeps IsReady f.stage_changed _ _
        (update_step-Returns.keeps _ (perhaps_closed-IsReady s w h)) h

  ready_stage : (w : Saving) → IsReady w → is_some w.stage ≡ true
  unfolding is_ready
  ready_stage w h = ground (arith, h)

  change_stage-Returns : Returns IsReady IsReady (change_stage today f_date stages f)
  unfolding change_stage
  change_stage-Returns = record {
    at = λ w h. change_stage_of-at w.stage w (ready_stage w h) h;
    keeps = λ w h. change_stage_of-IsReady w.stage w (ready_stage w h) h;
  }

  begin_own-Returns :
      is_some (first (select (λ s. s.in_progress) stages)) ≡ true
      → Returns IsReady IsReady (begin_own today f_date stages f)
  unfolding begin_own is_ready in_progress_stage set_stage
  begin_own-Returns has = record {
    at = λ w h. ground (arith, has, h);
    keeps = λ w h. ground (arith, has, h);
  }

  created-Returns : (msg : String) → Returns IsReady IsReady (created today f_date stages f msg)
  unfolding created is_ready enter
  created-Returns msg = record { at = λ w h. refl; keeps = λ w h. h }

  -- The row of the main task's own main task is there.
  unfoldable pub HasParent : Saving → Type 0
  HasParent w =
      (m : Task) (k : ℕ)
      → w.main ≡ some m
      → m.task ≡ some k
      → is_some (first (select (λ t. opt_eq t.id (some k)) w.rows)) ≡ true

  set_co_owner-at :
      (o : Option ℕ) (w : Saving) (m : Task)
      → m.task ≡ o
      → w.main ≡ some m
      → HasParent w
      → (set_co_owner o m w).0 ≡ returned tt
  unfolding set_co_owner HasParent co_owner_from
  set_co_owner-at none w m key e has = refl
  set_co_owner-at (some k) w m key e has = ground (arith, has m k e key)

  set_co_owner-IsReady :
      (o : Option ℕ) (w : Saving) (m : Task) → IsReady w → IsReady (set_co_owner o m w).1
  unfolding set_co_owner is_ready co_owner_from
  set_co_owner-IsReady none w m h = h
  set_co_owner-IsReady (some k) w m h = ground (arith, h)

  -- What a new task needs to be started.
  Startable : Saving → Type 0
  Startable w = IsReady w × HasParent w

  start_of-Returns :
      is_some (first (select (λ s. s.in_progress) stages)) ≡ true
      → (o : Option Task)
      → Returns (λ w. Startable w × (w.main ≡ o)) IsReady (start_of today f_date stages f o)
  unfolding start_of Startable
  start_of-Returns has none = record {
    at = λ w h. (created-Returns "The task was created").at w h.0.0;
    keeps = λ w h. (created-Returns "The task was created").keeps w h.0.0;
  }
  start_of-Returns has (some m) =
      >>-Returns _ _
        (record {
          at = λ w h. set_co_owner-at m.task w m refl h.1 h.0.1;
          keeps = λ w h. set_co_owner-IsReady m.task w m h.0.0;
        })
        (>>-Returns _ _ (begin_own-Returns has) (created-Returns "The subtask was created"))

  start-Returns :
      is_some (first (select (λ s. s.in_progress) stages)) ≡ true
      → Returns Startable IsReady (start today f_date stages f)
  unfolding start Startable
  start-Returns has = record {
    at = λ w h. if_at f.change _ _ refl ((start_of-Returns has w.main).at w (h, refl));
    keeps =
        λ w h. if_keeps IsReady f.change _ _ h.0 ((start_of-Returns has w.main).keeps w (h, refl));
  }

  -- If there are a stage in progress and a stage that is done, and the form comes with a stage and
  -- a date for the next step, the main task has such a date too and its own main task is in the
  -- table, and so are the memo and the project that the request names, `save_model` raises nothing.
  pub save_model_returns :
      (w : Saving)
      → is_some (first (select (λ s. s.in_progress) stages)) ≡ true
      → is_some (first (select (λ s. s.done) stages)) ≡ true
      → IsReady w
      → HasParent w
      → IsFound f.parent_memo f.memos
      → IsFound f.parent_project f.projects
      → ((save_model today f_date stages f w).0 ≡ returned tt)
        × IsReady (save_model today f_date stages f w).1
  unfolding save_model Startable
  save_model_returns w has done h parent memo project =
      let all : Returns Startable IsReady (save_model today f_date stages f) =
        >>-Returns _ _
          (>>-Returns _ _
            (>>-Returns _ _
              (>>-Returns _ _
                (>>-Returns _ _
                  (>>-Returns _ _
                    (>>-Returns _ _
                      (>>-Returns _ _
                        (>>-Returns _ _ (>>-Returns _ _ (start-Returns has) warn-Returns)
                          next_step-Returns)
                        (complete-Returns done))
                      change_stage-Returns)
                    prepare_obj-Returns)
                  save_obj-Returns)
                attach-Returns)
              (find_memo-Returns memo))
            save_main-Returns)
          (join_project-Returns project) in
      (all.at w (h, parent), all.keeps w (h, parent))
