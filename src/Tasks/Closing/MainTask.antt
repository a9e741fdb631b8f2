-- ===== src/Tasks/Closing/MainTask.antt =====
-- When a main task is closed together with its last subtask.
use agamin_crm.Prelude.{
  ==_iff, All, Bool-cases, List, Option, String, [], ap, arith, contains, false, first,
  if◌then◌else◌, inl, inr, is_some, none, refl, select, some, subst, sym, true, ℕ, ◌&&◌, ◌==◌, ◌||◌,
  ◌∙◌, ◌∷◌, ◌≡◌, ◌⊎◌,
}
use agamin_crm.Prelude.Action.{Outcome, returned, raised, does_not_exist}
use agamin_crm.Tasks.Models.{TaskStage, Task, is_subtask, has_active_subtask, clean_task, save_task}
use agamin_crm.Tasks.Closing.{
  subtasks_of, subset, done_responsible, is_finished, HeldMain, loaded, marked, closed, close,
  check_and_deacte_main_task,
}

-- The same users, whatever their order.
subset-contains :
    (xs ys : List ℕ) (u : ℕ) → subset xs ys ≡ true → contains u xs ≡ true → contains u ys ≡ true
unfolding subset
subset-contains [] ys u h e = absurd (cc)
subset-contains (x ∷ xs) ys u h e = elim (Bool-cases (u == x)) [
  | inl same ↦ subst (λ v. contains v ys ≡ true) (sym ((==_iff u x).0 same)) (ground (arith, h))
  | inr differ ↦ subset-contains xs ys u (ground (arith, h)) (ground (arith, e, differ))
]

first-done :
    (stages : List TaskStage) (s : TaskStage)
    → first (select (λ s. s.done) stages) ≡ some s
    → s.done ≡ true
first-done [] s e = absurd (cc)
first-done (t ∷ stages) s e = elim (Bool-cases t.done) [
  | inl fits ↦
      let same : some t ≡ some s =
        subst
          (λ b.
            first (if b then t ∷ select (λ s. s.done) stages else select (λ s. s.done) stages)
            ≡ some s)
          fits e in
      let here : t ≡ s = cc in sym (ap (λ x. x.done) here) ∙ fits
  | inr other ↦ first-done stages s (
      subst
        (λ b.
          first (if b then t ∷ select (λ s. s.done) stages else select (λ s. s.done) stages)
          ≡ some s)
        other e)
]

nothing : {A : Type 0} (xs : List A) → is_some (first xs) ≡ false → xs ≡ []
nothing [] e = refl
nothing (x ∷ xs) e = absurd (cc)

is_finished_lem :
    (rows : List Task) (main : Task)
    → is_finished main rows ≡ true
    → (select (λ s. s.active) (subtasks_of main rows) ≡ [])
      × (subset main.responsible (done_responsible main rows) ≡ true)
      × (subset (done_responsible main rows) main.responsible ≡ true)
unfolding is_finished
is_finished_lem rows main h = (nothing _ (ground (arith, h)), ground (arith, h), ground (arith, h))

-- Closed: a stage that is done, and today as the closing date; or there is no such stage, and the
-- exception leaves the object in memory without a stage.
abbrev pub Closed : ℕ → List TaskStage → Outcome (Unit {0}) × HeldMain → Type 0
Closed today stages (returned u, m) =
    (m.stage ≡ some m.task.stage)
    × (m.task.stage.done ≡ true)
    × (m.task.active ≡ m.task.stage.active)
    × (m.task.closing_date ≡ some today)
Closed today stages (raised e, m) =
    (e ≡ does_not_exist) × (first (select (λ s. s.done) stages) ≡ none) × (m.stage ≡ none)

close_lem :
    (today : ℕ) (f_date : String) (stages : List TaskStage) (o : Option TaskStage) (main : Task)
    → first (select (λ s. s.done) stages) ≡ o
    → ((s : TaskStage) → o ≡ some s → s.done ≡ true)
    → Closed today stages (close today f_date o main)
unfolding close closed marked save_task
close_lem today f_date stages none main e h = (refl, e, refl)
close_lem today f_date stages (some s) main e h = (refl, h s refl, refl, refl)

-- `check_and_deacte_main_task` returns and leaves the main task as it was, or no subtask of it is
-- active and those responsible for it are just those responsible for its subtasks that are done. In
-- the second case it gets a stage that is done, and today as its closing date; but if no stage of
-- the table is done, it raises, and the main task in memory is left without a stage.
pub check_and_deacte_main_task_lem :
    (today : ℕ) (f_date : String) (stages : List TaskStage) (rows : List Task) (main : Task)
    → (check_and_deacte_main_task today f_date stages rows main ≡ (returned tt, loaded main))
      ⊎ ((select (λ s. s.active) (subtasks_of main rows) ≡ [])
          × ((u : ℕ)
              → contains u main.responsible ≡ true
              → contains u (done_responsible main rows) ≡ true)
          × ((u : ℕ)
              → contains u (done_responsible main rows) ≡ true
              → contains u main.responsible ≡ true)
          × Closed today stages (check_and_deacte_main_task today f_date stages rows main))
unfolding check_and_deacte_main_task
check_and_deacte_main_task_lem today f_date stages rows main =
    elim (Bool-cases (main.stage.default || main.stage.in_progress)) [
      | inl begun ↦ elim (Bool-cases (is_finished main rows)) [
        | inl finished ↦
            rw (begun, finished)
              (let (nobody, all_done, all_asked) = is_finished_lem rows main finished in
                inr (
                  nobody,
                  λ u. subset-contains _ _ u all_done,
                  λ u. subset-contains _ _ u all_asked,
                  close_lem today f_date stages (first (select (λ s. s.done) stages)) main refl
                      (first-done stages),
                ))
        | inr unfinished ↦ rw (begun, unfinished) (inl refl)
      ]
      | inr shut ↦ rw shut (inl refl)
    ]

-- The field `active` is that of the stage, as `save` leaves it.
abbrev pub InStep : List Task → Type 0
InStep = All (λ s. s.active ≡ s.stage.active)

none_active :
    (k : Option ℕ) (rows : List Task)
    → InStep rows
    → select (λ s. s.active) (select (is_subtask k) rows) ≡ []
    → select (λ s. is_subtask k s && s.stage.active) rows ≡ []
none_active k [] h e = refl
none_active k (t ∷ rows) h e = elim (Bool-cases (is_subtask k t)) [
  | inl sub ↦
      let f : select (λ s. s.active) (t ∷ select (is_subtask k) rows) ≡ [] =
        subst
          (λ b.
            select (λ s. s.active)
              (if b then t ∷ select (is_subtask k) rows else select (is_subtask k) rows)
            ≡ [])
          sub e in
      elim (Bool-cases t.active) [
        | inl active ↦
            let g : t ∷ select (λ s. s.active) (select (is_subtask k) rows) ≡ [] =
              subst
                (λ b.
                  (if b
                    then t ∷ select (λ s. s.active) (select (is_subtask k) rows)
                    else select (λ s. s.active) (select (is_subtask k) rows))
                  ≡ [])
                active f in
            absurd (cc)
        | inr idle ↦
            let g =
              subst
                (λ b.
                  (if b
                    then t ∷ select (λ s. s.active) (select (is_subtask k) rows)
                    else select (λ s. s.active) (select (is_subtask k) rows))
                  ≡ [])
                idle f in
            rw (sub, sym h.0 ∙ idle) (none_active k rows h.1 g)
      ]
  | inr other ↦
      let f =
        subst
          (λ b.
            select (λ s. s.active)
              (if b then t ∷ select (is_subtask k) rows else select (is_subtask k) rows)
            ≡ [])
          other e in
      rw other (none_active k rows h.1 f)
]

-- The object that a call leaves, which is `clean` if the call returns.
abbrev pub Clean : List Task → Outcome (Unit {0}) × HeldMain → Type 0
Clean rows (returned u, m) =
    (m.stage ≡ some m.task.stage) × (clean_task rows m.task ≡ (returned tt, m.task))
Clean rows (raised e, m) = e ≡ does_not_exist

close-Clean :
    (today : ℕ) (f_date : String) (o : Option TaskStage) (rows : List Task) (main : Task)
    → select (λ s. is_subtask main.id s && s.stage.active) rows ≡ []
    → Clean rows (close today f_date o main)
unfolding close closed marked save_task
close-Clean today f_date none rows main n = refl
close-Clean today f_date (some s) rows main n =
    (refl, unfold clean_task has_active_subtask in rw n (ground arith))

-- If the field `active` of every row is that of its stage, and a main task passes `clean` before
-- `check_and_deacte_main_task`, it passes it afterwards if the call returns; the call raises nothing
-- but a DoesNotExist.
pub check_and_deacte_main_task-clean_task :
    (today : ℕ) (f_date : String) (stages : List TaskStage) (rows : List Task) (main : Task)
    → InStep rows
    → clean_task rows main ≡ (returned tt, main)
    → Clean rows (check_and_deacte_main_task today f_date stages rows main)
unfolding check_and_deacte_main_task loaded
check_and_deacte_main_task-clean_task today f_date stages rows main step h =
    elim (Bool-cases (main.stage.default || main.stage.in_progress)) [
      | inl begun ↦ elim (Bool-cases (is_finished main rows)) [
        | inl finished ↦
            let nobody =
              none_active main.id rows step
                (unfold subtasks_of in (is_finished_lem rows main finished).0) in
            rw (begun, finished)
              (close-Clean today f_date (first (select (λ s. s.done) stages)) rows main nobody)
        | inr unfinished ↦ rw (begun, unfinished) (refl, h)
      ]
      | inr shut ↦ rw shut (refl, h)
    ]
