-- ===== src/Common/RemindMe/Branches.antt =====
-- Each branch of `remind_me` leaves the reminder in step with the form.
use agamin_crm.Prelude.{
  ==_iff, All, Bool, Bool-cases, List, Option, [], ap, arith, false, if◌then◌else◌, inl, inr,
  length, not, opt_eq, refl, select, subst, sym, true, ℕ, ◌&&◌, ◌++◌, ◌==◌, ◌∙◌, ◌∷◌, ◌≡◌,
}
use agamin_crm.Prelude.Action.{returned, raised}
use agamin_crm.Common.Reminders.{Reminder}
use agamin_crm.Common.RemindMe.{
  same_text, ReminderForm, is_own, is_own_step, is_own_at, new_reminder, update_where, set_date,
  set_step, keep_reminder, drop_reminder, reminder_time,
}
use agamin_crm.Common.RemindMe.Rows.{
  same_text-eq, opt_eq_eq, length-eq-zero, updated, moved_on, deleted, added_one,
}

-- What an object says of its next step.
pub record Plan : Type 0 where
  pub wanted : Bool
  pub step : List ℕ
  pub due : Option ℕ

pub plan_of : ReminderForm → Plan
plan_of f = record { wanted = f.remind_me; step = f.next_step; due = f.next_step_date }

unfoldable pub differ : Bool → Bool → Bool
differ true b = not b
differ false b = b

-- The form was filled in for an object that stood as in the plan.
pub record Follows (p : Plan) (f : ReminderForm) : Type 0 where
  pub wanted : f.changed_remind_me ≡ differ p.wanted f.remind_me
  pub step : f.changed_next_step ≡ not (same_text p.step f.next_step)
  pub due : f.changed_next_step_date ≡ not (opt_eq p.due f.next_step_date)
  pub new : f.is_change ≡ false → p.wanted ≡ false

module _ (aware : ℕ → ℕ) (start : Option (ℕ × ℕ)) (f : ReminderForm) where
  -- The reminder tells of the next step on its day.
  unfoldable pub Fits : Plan → Reminder → Type 0
  Fits p r =
      (r.subject ≡ p.step)
      × (r.description ≡ p.step)
      × (reminder_time aware start p.due ≡ returned r.reminder_date)

  -- Of the active reminders that the user of the form has for the object, there is one if it is
  -- wanted and else none, and it fits.
  unfoldable pub InStep : Plan → List Reminder → Type 0
  unfolding Fits
  InStep p rs =
      All (Fits p) (select (is_own f) rs)
      × (length (select (is_own f) rs) ≡ (if p.wanted then 1 else 0))

  fits_step :
      (p : Plan) (r : Reminder)
      → same_text p.step f.next_step ≡ true
      → is_own f r ≡ true
      → r.description ≡ p.step
      → is_own_step f r ≡ true
  unfolding is_own_step
  fits_step p r same e d =
      let told = ap (λ w. same_text w f.next_step) d ∙ same in rw (e, told) refl

  same_date :
      (p : Plan) (t : ℕ) (r : Reminder)
      → opt_eq p.due f.next_step_date ≡ true
      → reminder_time aware start f.next_step_date ≡ returned t
      → reminder_time aware start p.due ≡ returned r.reminder_date
      → r.reminder_date ≡ t
  same_date p t r same now before =
      ap (λ o. elim o [ returned u ↦ u | raised e ↦ r.reminder_date ])
        (sym before ∙ ap (reminder_time aware start) (opt_eq_eq p.due f.next_step_date same) ∙ now)

  module _ (p : Plan) (t : ℕ) (now : reminder_time aware start f.next_step_date ≡ returned t) where
    new_date :
        (rs : List Reminder)
        → same_text p.step f.next_step ≡ true
        → All (Fits p) (select (is_own f) rs)
        → All (Fits (plan_of f)) (select (is_own f) (update_where (is_own_step f) (set_date t) rs))
          × (length (select (is_own f) (update_where (is_own_step f) (set_date t) rs))
              ≡ length (select (is_own f) rs))
    unfolding Fits plan_of set_date is_own
    new_date rs same h =
        let step = same_text-eq p.step f.next_step same in
        updated (is_own f) (Fits p) (Fits (plan_of f)) (is_own_step f) (set_date t)
          (λ r e. unfold is_own_step in ap (λ b. b && same_text r.description f.next_step) e)
          (λ r. refl) (λ r e k. (fits_step p r same e k.1, (k.0 ∙ step, k.1 ∙ step, now))) rs h

    new_step :
        (rs : List Reminder)
        → opt_eq p.due f.next_step_date ≡ true
        → All (Fits p) (select (is_own f) rs)
        → All
            (Fits (plan_of f))
            (select (is_own f) (update_where (is_own_at f t) (set_step f.next_step) rs))
          × (length (select (is_own f) (update_where (is_own_at f t) (set_step f.next_step) rs))
              ≡ length (select (is_own f) rs))
    unfolding Fits plan_of set_step is_own
    new_step rs same h =
        updated (is_own f) (Fits p) (Fits (plan_of f)) (is_own_at f t) (set_step f.next_step)
          (λ r e. unfold is_own_at in ap (λ b. b && r.reminder_date == t) e) (λ r. refl)
          (λ r e k.
            let at_t = same_date p t r same now k.2 in
            (
              unfold is_own_at in
                  ap (λ b. b && r.reminder_date == t) e ∙ (==_iff r.reminder_date t).1 at_t,
              (refl, refl, now ∙ ap returned (sym at_t)),
            ))
          rs h

    new_both :
        (rs : List Reminder)
        → All (Fits p) (select (is_own f) rs)
        → All (Fits (plan_of f)) (
            select
              (is_own f)
              (update_where (is_own f) (λ r. set_date t (set_step f.next_step r)) rs))
          × (length (
                select
                  (is_own f)
                  (update_where (is_own f) (λ r. set_date t (set_step f.next_step r)) rs))
              ≡ length (select (is_own f) rs))
    unfolding Fits plan_of set_date set_step is_own
    new_both rs h =
        updated (is_own f) (Fits p) (Fits (plan_of f)) (is_own f)
          (λ r. set_date t (set_step f.next_step r)) (λ r e. e) (λ r. refl)
          (λ r e k. (e, (refl, refl, now))) rs h

    as_before :
        (rs : List Reminder)
        → same_text p.step f.next_step ≡ true
        → opt_eq p.due f.next_step_date ≡ true
        → All (Fits p) rs
        → All (Fits (plan_of f)) rs
    unfolding Fits plan_of
    as_before rs same due h =
        let step = same_text-eq p.step f.next_step same in
        moved_on (is_own f) (Fits p) (Fits (plan_of f))
          (λ r k. (
            k.0 ∙ step,
            k.1 ∙ step,
            ap (reminder_time aware start) (sym (opt_eq_eq p.due f.next_step_date due)) ∙ k.2,
          ))
          rs h

    one_left :
        (rs rs' : List Reminder)
        → f.remind_me ≡ true
        → All (Fits (plan_of f)) (select (is_own f) rs')
          × (length (select (is_own f) rs') ≡ length (select (is_own f) rs))
        → length (select (is_own f) rs) ≡ 1
        → InStep (plan_of f) rs'
    unfolding InStep plan_of
    one_left rs rs' on h k = (h.0, h.1 ∙ k ∙ sym (ap (λ b. if b then 1 else 0) on))

    keeps_first :
        (key : ℕ) (rs : List Reminder)
        → f.remind_me ≡ true
        → p.wanted ≡ false
        → InStep p rs
        → InStep (plan_of f) (rs ++ (new_reminder key f t ∷ []))
    unfolding InStep plan_of
    keeps_first key rs on off h =
        let n = new_reminder key f t in
        let made =
          added_one (is_own f) (Fits (plan_of f)) (Fits (plan_of f)) n
            (unfold is_own new_reminder in ground arith)
            (unfold Fits plan_of new_reminder in (refl, refl, now)) rs
            (h.1 ∙ ap (λ b. if b then 1 else 0) off) in
        (made.0, made.1 ∙ sym (ap (λ b. if b then 1 else 0) on))

    keeps_on :
        (key : ℕ) (rs : List Reminder)
        → f.remind_me ≡ true
        → Follows p f
        → f.is_change ≡ true
        → f.changed_remind_me ≡ false
        → p.wanted ≡ true
        → InStep p rs
        → InStep (plan_of f) (keep_reminder key f t rs)
    unfolding keep_reminder InStep
    keeps_on key rs on w ch cr was h =
        let (all, len) = h in
        let was_one = len ∙ ap (λ b. if b then 1 else 0) was in
        elim (Bool-cases (same_text p.step f.next_step)) [
          | inl s ↦
              let cs = w.step ∙ ap not s in
              elim (Bool-cases (opt_eq p.due f.next_step_date)) [
                | inl d ↦
                    let cd = w.due ∙ ap not d in
                    simp (ch, cr, cs, cd) (one_left rs rs on (as_before _ s d all, refl) was_one)
                | inr d ↦
                    let cd = w.due ∙ ap not d in
                    simp (ch, cr, cs, cd) (one_left rs _ on (new_date rs s all) was_one)
              ]
          | inr s ↦
              let cs = w.step ∙ ap not s in
              elim (Bool-cases (opt_eq p.due f.next_step_date)) [
                | inl d ↦
                    let cd = w.due ∙ ap not d in
                    simp (ch, cr, cs, cd) (one_left rs _ on (new_step rs d all) was_one)
                | inr d ↦
                    let cd = w.due ∙ ap not d in
                    simp (ch, cr, cs, cd) (one_left rs _ on (new_both rs all) was_one)
              ]
        ]

    pub keeps_reminder :
        (key : ℕ) (rs : List Reminder)
        → f.remind_me ≡ true
        → Follows p f
        → InStep p rs
        → InStep (plan_of f) (keep_reminder key f t rs)
    unfolding differ
    keeps_reminder key rs on w h = elim (Bool-cases p.wanted) [
      | inr off ↦
          let cr = w.wanted ∙ ap (λ b. differ b f.remind_me) off ∙ on in
          elim (Bool-cases f.is_change) [
            | inl ch ↦ unfold keep_reminder in simp (ch, cr) (keeps_first key rs on off h)
            | inr ch ↦ unfold keep_reminder in simp ch (keeps_first key rs on off h)
          ]
      | inl was ↦
          let cr = w.wanted ∙ ap (λ b. differ b f.remind_me) was ∙ ap not on in
          elim (Bool-cases f.is_change) [
            | inl ch ↦ keeps_on key rs on w ch cr was h
            | inr ch ↦ absurd (let no = w.new ch in ground (arith, no, was))
          ]
    ]

  none_left :
      (p : Plan) (rs : List Reminder)
      → f.remind_me ≡ false
      → select (is_own f) rs ≡ []
      → InStep (plan_of f) rs
  unfolding InStep plan_of
  none_left p rs off h = (
    subst (All (Fits (plan_of f))) (sym h) tt,
    ap length h ∙ sym (ap (λ b. if b then 1 else 0) off),
  )

  pub drops :
      (p : Plan) (rs : List Reminder)
      → f.remind_me ≡ false
      → Follows p f
      → (f.changed_remind_me ≡ true → f.changed_next_step ≡ false)
      → InStep p rs
      → InStep (plan_of f) (drop_reminder f rs)
  unfolding differ InStep Fits
  drops p rs off w told h = elim (Bool-cases p.wanted) [
    | inl was ↦
        let cr = w.wanted ∙ ap (λ b. differ b f.remind_me) was ∙ ap not off in
        elim (Bool-cases (same_text p.step f.next_step)) [
          | inl s ↦
              unfold drop_reminder in
              simp cr (
                none_left p _ off (
                  deleted (is_own f) (Fits p) (Fits p) (is_own_step f)
                    (λ r e k. fits_step p r s e k.1) rs h.0))
          | inr s ↦
              absurd (let no = told cr in let yes = w.step ∙ ap not s in ground (arith, no, yes))
        ]
    | inr was ↦
        let cr = w.wanted ∙ ap (λ b. differ b f.remind_me) was ∙ off in
        unfold drop_reminder in
        simp cr (
          none_left p rs off
            (length-eq-zero (select (is_own f) rs) (h.1 ∙ ap (λ b. if b then 1 else 0) was)))
  ]
