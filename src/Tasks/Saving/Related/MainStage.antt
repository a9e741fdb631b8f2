-- ===== src/Tasks/Saving/Related/MainStage.antt =====
-- The stage of the main task keeps up with its subtasks.
use agamin_crm.Prelude.{
  Bool, Bool-cases, List, Option, String, [], ap, arith, false, first, if◌then◌else◌, inl, inr,
  none, opt_eq, refl, select, some, subst, sym, true, ℕ, ◌∙◌, ◌∷◌, ◌≡◌,
}
use agamin_crm.Prelude.Action.{returned}
use agamin_crm.Tasks.Models.{TaskStage, Task, save_task}
use agamin_crm.Tasks.Saving.{Form, Saving, with_stage, update_row}
use agamin_crm.Tasks.Saving.Related.{
  reopens, logs_step, log_step, log_created, written, write_main, update_main,
}

-- The row that the table has under a key.
unfoldable pub row_of : Option ℕ → List Task → Option Task
row_of k rows = first (select (λ t. opt_eq t.id k) rows)

row_of-update_row :
    (k : Option ℕ) (f : Task → Task) (rows : List Task) (row : Task)
    → ((t : Task) → (f t).id ≡ t.id)
    → row_of k rows ≡ some row
    → row_of k (update_row k f rows) ≡ some (f row)
unfolding row_of update_row
row_of-update_row k f [] row keeps h = cc
row_of-update_row k f (t ∷ ts) row keeps h =
    let pick : List Task → List Task = λ us. select (λ u. opt_eq u.id k) us in
    elim (Bool-cases (opt_eq t.id k)) [
      | inl e ↦
          rw (e, ap (λ i. opt_eq i k) (keeps t) ∙ e)
            (ap
              (λ (o : Option Task). elim o as (λ _. Option Task) [
                | none ↦ none
                | some x ↦ some (f x)
              ])
              (subst (λ b. first (if b then t ∷ pick ts else pick ts) ≡ some row) e h))
      | inr e ↦
          rw (e, e)
            (row_of-update_row k f ts row keeps
              (subst (λ b. first (if b then t ∷ pick ts else pick ts) ≡ some row) e h))
    ]

-- Neither entries of the workflow nor a save touch the stage of a main task in memory.
log_created_same :
    (today : ℕ) (f_date : String) (stages : List TaskStage) (f : Form) (t m : Task)
    → ((log_created today f_date stages f t m).stage ≡ m.stage)
      × ((log_created today f_date stages f t m).id ≡ m.id)
unfolding log_created
log_created_same today f_date stages f t m = elim (Bool-cases f.change) [
  | inl e ↦ rw e (refl, refl)
  | inr e ↦ rw e (refl, refl)
]

log_step_same :
    (today : ℕ) (f_date : String) (stages : List TaskStage) (f : Form) (t m : Task)
    → ((log_step today f_date stages f t m).stage ≡ m.stage)
      × ((log_step today f_date stages f t m).id ≡ m.id)
unfolding log_step
log_step_same today f_date stages f t m = elim (Bool-cases (logs_step f t)) [
  | inl e ↦ rw e (refl, refl)
  | inr e ↦ rw e (refl, refl)
]

-- What `write_main` leaves, of the object in memory and of its row.
write_main_lem :
    (today : ℕ) (f_date : String) (stages : List TaskStage) (f : Form) (b : Bool) (n row : Task)
    (w : Saving) (k : Option ℕ)
    → n.id ≡ k
    → row_of k w.rows ≡ some row
    → let v = write_main today f_date stages f b n w in
      (p : Task) × (q : Task) × (v.main ≡ some p)
      × (row_of k v.rows ≡ some q)
      × (p.stage ≡ n.stage)
      × (p.active ≡ n.stage.active)
      × (q.stage ≡ (if b then n.stage else row.stage))
      × (q.active ≡ row.active)
unfolding write_main written save_task
write_main_lem today f_date stages f b n row w k key h =
    let p = save_task today (log_step today f_date stages f w.obj n) in
    let same = log_step_same today f_date stages f w.obj n in
    let q = written today f_date stages f b w.obj p row in
    let change = written today f_date stages f b w.obj p in
    (
      p,
      q,
      refl,
      subst (λ i. row_of k (update_row i change w.rows) ≡ some q) (sym (same.1 ∙ key))
          (row_of-update_row k change w.rows row (λ t. refl) h),
      same.0,
      ap (λ s. s.active) same.0,
      ap (λ s. if b then s else row.stage) same.0,
      refl,
    )

not_reopened :
    (t m : Task)
    → reopens t m ≡ false
    → (t.stage.in_progress ≡ true → m.stage.default ≡ false)
      × (t.stage.active ≡ true → m.stage.active ≡ true)
unfolding reopens
not_reopened t m h = (λ d. ground (arith, h, d), λ a. ground (arith, h, a))

reopened : (t m : Task) → m.stage.active ≡ false → t.stage.active ≡ true → reopens t m ≡ true
unfolding reopens
reopened t m closed active = ground (arith, closed, active)

-- The stages that the form finds: one in progress, which is active and not the default.
pub record HasProgress (stages : List TaskStage) : Type 0 where
  pub stage : TaskStage
  pub is_first : first (select (λ s. s.in_progress) stages) ≡ some stage
  pub stage_active : stage.active ≡ true
  pub not_default : stage.default ≡ false

module _ (today : ℕ) (f_date : String) (stages : List TaskStage) (f : Form) where
  -- If the first stage in progress is active and not the default one, and the object in memory and
  -- the row of the main task have one stage, they have one stage afterwards: not the default one if
  -- the subtask is in progress, and an active one if the subtask is in an active stage.
  pub update_main-keeps_up :
      (w : Saving) (m row : Task)
      → HasProgress stages
      → w.main ≡ some m
      → row_of m.id w.rows ≡ some row
      → row.stage ≡ m.stage
      → let (r, v) = update_main today f_date stages f w in
        (p : Task) × (q : Task) × (r ≡ returned tt)
        × (v.main ≡ some p)
        × (row_of m.id v.rows ≡ some q)
        × (q.stage ≡ p.stage)
        × (w.obj.stage.in_progress ≡ true → p.stage.default ≡ false)
        × (w.obj.stage.active ≡ true → p.stage.active ≡ true)
  unfolding update_main with_stage
  update_main-keeps_up w m row has e at same = elim (Bool-cases (reopens w.obj m)) [
    | inl again ↦
        let n = log_created today f_date stages f w.obj m in
        let l =
          write_main_lem today f_date stages f true (with_stage has.stage n) row w m.id
            (log_created_same today f_date stages f w.obj m).1 at in
        let (p, q, main, found, st, act, qst, qact) = l in
        rw (e, again, has.is_first)
          (
            p,
            q,
            refl,
            main,
            found,
            qst ∙ sym st,
            λ _. ap (λ s. s.default) st ∙ has.not_default,
            λ _. ap (λ s. s.active) st ∙ has.stage_active,
          )
    | inr still ↦
        let n = log_created today f_date stages f w.obj m in
        let l =
          write_main_lem today f_date stages f false n row w m.id
            (log_created_same today f_date stages f w.obj m).1 at in
        let (p, q, main, found, st, act, qst, qact) = l in
        let old = st ∙ (log_created_same today f_date stages f w.obj m).0 in
        let kept = not_reopened w.obj m still in
        rw (e, still)
          (
            p,
            q,
            refl,
            main,
            found,
            qst ∙ (same ∙ sym old),
            λ d. ap (λ s. s.default) old ∙ kept.0 d,
            λ a. ap (λ s. s.active) old ∙ kept.1 a,
          )
  ]

  -- When an active subtask reopens a main task that was closed, the main task is active in memory
  -- and its row gets an active stage, but the field active of the row is not written.
  pub update_main-reopened :
      (w : Saving) (m row : Task)
      → HasProgress stages
      → w.main ≡ some m
      → row_of m.id w.rows ≡ some row
      → m.stage.active ≡ false
      → row.active ≡ false
      → w.obj.stage.active ≡ true
      → let v = (update_main today f_date stages f w).1 in
        (p : Task) × (q : Task) × (v.main ≡ some p)
        × (row_of m.id v.rows ≡ some q)
        × (p.active ≡ true)
        × (q.stage.active ≡ true)
        × (q.active ≡ false)
  unfolding update_main with_stage
  update_main-reopened w m row has e at closed inactive active =
      let n = log_created today f_date stages f w.obj m in
      let again = reopened w.obj m closed active in
      let l =
        write_main_lem today f_date stages f true (with_stage has.stage n) row w m.id
          (log_created_same today f_date stages f w.obj m).1 at in
      let (p, q, main, found, st, act, qst, qact) = l in
      rw (e, again, has.is_first)
        (
          p,
          q,
          main,
          found,
          act ∙ has.stage_active,
          ap (λ s. s.active) qst ∙ has.stage_active,
          qact ∙ inactive,
        )
