-- ===== src/Common/RemindMe/InStep.antt =====
-- How the reminder of an object stands after its form is saved.
use agamin_crm.Prelude.{
  Bool-cases, List, Option, Option-cases, ap, arith, false, if◌then◌else◌, inl, inr, is_some, leb,
  refl, some, subst, sym, true, ℕ, ◌+◌, ◌<◌, ◌∙◌, ◌≡◌,
}
use agamin_crm.Prelude.Action.{Error, Outcome, returned, raised}
use agamin_crm.Common.Reminders.{Reminder}
use agamin_crm.Common.RemindMe.{
  ReminderForm, keep_reminder, drop_reminder, date_at, reminder_time, remind_me,
}
use agamin_crm.Common.RemindMe.Branches.{Plan, plan_of, Follows, InStep, keeps_reminder, drops}

module _ (aware : ℕ → ℕ) (start : Option (ℕ × ℕ)) (f : ReminderForm) where
  answer : ℕ → List Reminder → Outcome ℕ → Outcome (Unit {0}) × List Reminder
  answer key rs (returned t) = (returned tt, keep_reminder key f t rs)
  answer key rs (raised e) = (raised e, rs)

  elim_answer :
      (key : ℕ) (rs : List Reminder) (o : Outcome ℕ)
      → (elim o as (λ _. Outcome (Unit {0}) × List Reminder) [
        | returned t ↦ (returned tt, keep_reminder key f t rs)
        | raised e ↦ (raised e, rs)
      ])
        ≡ answer key rs o
  unfolding answer
  elim_answer key rs (returned t) = refl
  elim_answer key rs (raised e) = refl

  no_return : (x : Error) (o : Outcome (Unit {0})) → o ≡ raised x → o ≡ returned tt → ⊥
  no_return x o e d = cc

  remind_me-on :
      (key : ℕ) (rs : List Reminder)
      → f.remind_me ≡ true
      → remind_me aware start key f rs ≡ answer key rs (reminder_time aware start f.next_step_date)
  unfolding remind_me
  remind_me-on key rs on =
      ap
        (λ b.
          if b
          then elim (reminder_time aware start f.next_step_date) [
            | returned t ↦ (returned tt, keep_reminder key f t rs)
            | raised e ↦ (raised e, rs)
          ]
          else (returned tt, drop_reminder f rs))
        on
      ∙ elim_answer key rs (reminder_time aware start f.next_step_date)

  remind_me-off :
      (key : ℕ) (rs : List Reminder)
      → f.remind_me ≡ false
      → remind_me aware start key f rs ≡ (returned tt, drop_reminder f rs)
  unfolding remind_me
  remind_me-off key rs off =
      ap
        (λ b.
          if b
          then elim (reminder_time aware start f.next_step_date) [
            | returned t ↦ (returned tt, keep_reminder key f t rs)
            | raised e ↦ (raised e, rs)
          ]
          else (returned tt, drop_reminder f rs))
        off

  picks :
      (p : Plan) (key : ℕ) (rs : List Reminder) (o : Outcome ℕ)
      → f.remind_me ≡ true
      → Follows p f
      → InStep aware start f p rs
      → reminder_time aware start f.next_step_date ≡ o
      → (answer key rs o).0 ≡ returned tt
      → InStep aware start f (plan_of f) (answer key rs o).1
  unfolding answer
  picks p key rs (returned t) on w h e done = keeps_reminder aware start f p t e key rs on w h
  picks p key rs (raised x) on w h e done = absurd (no_return x (raised x) refl done)

  -- If `remind_me` returns, the reminder is in step.
  remind_me-InStep :
      (p : Plan) (key : ℕ) (rs : List Reminder)
      → Follows p f
      → (f.remind_me ≡ false → f.changed_remind_me ≡ true → f.changed_next_step ≡ false)
      → InStep aware start f p rs
      → (remind_me aware start key f rs).0 ≡ returned tt
      → InStep aware start f (plan_of f) (remind_me aware start key f rs).1
  remind_me-InStep p key rs w told h done = elim (Bool-cases f.remind_me) [
    | inl on ↦
        let e = remind_me-on key rs on in
        subst (λ v. InStep aware start f (plan_of f) v.1) (sym e)
          (picks p key rs _ on w h refl (ap (λ v. v.0) (sym e) ∙ done))
    | inr off ↦
        subst (λ v. InStep aware start f (plan_of f) v.1) (sym (remind_me-off key rs off))
          (drops aware start f p rs off w (told off) h)
  ]

leb-lt : (m : ℕ) → m < 50 → leb 60 (m + 10) ≡ false
leb-lt m h = ground (arith, h)

pub remind_me_returns :
    (aware : ℕ → ℕ) (hour minute : ℕ) (f : ReminderForm) (key : ℕ) (rs : List Reminder)
    → minute < 50
    → (f.remind_me ≡ true → is_some f.next_step_date ≡ true)
    → (remind_me aware (some (hour, minute)) key f rs).0 ≡ returned tt
unfolding remind_me reminder_time date_at
remind_me_returns aware hour minute f key rs early dated = elim (Bool-cases f.remind_me) [
  | inr off ↦ simp off refl
  | inl on ↦ elim (Option-cases f.next_step_date) [
    | inl missing ↦ absurd (let there = dated on in ground (arith, there, missing))
    | inr (d, is) ↦ let fits = leb-lt minute early in simp (on, is, fits) refl
  ]
]

-- If the settings have business hours that begin before minute 50, the form has a date where it
-- wants a reminder, it is filled in for an object that the reminder is in step with, and it does
-- not take the reminder back and change the next step at once, then `remind_me` returns, and the
-- reminder is in step with the form: of the active reminders that the user has for the object,
-- there is one, of the next step and its date, if one is wanted, and else none.
pub remind_me_lem :
    (aware : ℕ → ℕ) (hour minute : ℕ) (f : ReminderForm) (p : Plan) (key : ℕ) (rs : List Reminder)
    → minute < 50
    → (f.remind_me ≡ true → is_some f.next_step_date ≡ true)
    → Follows p f
    → (f.remind_me ≡ false → f.changed_remind_me ≡ true → f.changed_next_step ≡ false)
    → InStep aware (some (hour, minute)) f p rs
    → ((remind_me aware (some (hour, minute)) key f rs).0 ≡ returned tt)
      × InStep aware
          (some (hour, minute))
          f
          (plan_of f)
          (remind_me aware (some (hour, minute)) key f rs).1
remind_me_lem aware hour minute f p key rs early dated w told h =
    let done = remind_me_returns aware hour minute f key rs early dated in
    (done, remind_me-InStep aware (some (hour, minute)) f p key rs w told h done)
