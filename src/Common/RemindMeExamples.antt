-- ===== src/Common/RemindMeExamples.antt =====
-- The next step of object 9 and its day are changed: its reminder follows.
use agamin_crm.Prelude.{[], arith, false, refl, some, true, ℕ, ◌∷◌, ◌≡◌}
use agamin_crm.Prelude.Action.{returned}
use agamin_crm.Common.Reminders.{Reminder}
use agamin_crm.Common.RemindMe.{ReminderForm, is_own, same_text, date_at, reminder_time, remind_me}
use agamin_crm.Common.RemindMe.Branches.{Plan, plan_of, differ, Follows, Fits, InStep}
use agamin_crm.Common.RemindMe.InStep.{remind_me_lem}

abbrev call_back : Reminder
call_back = record {
  id = 1;
  owner = some 5;
  content_object = 9;
  subject = 65 ∷ [];
  description = 65 ∷ [];
  active = true;
  reminder_date = 4880;
  send_notification_email = true;
}

-- It was sent before.
abbrev done_with : Reminder
done_with = record call_back { id = 2; active = false }

abbrev plan : Plan
plan = record { wanted = true; step = 65 ∷ []; due = some 3 }

abbrev after_call : ReminderForm
after_call = record {
  is_change = true;
  user = 5;
  content_object = 9;
  remind_me = true;
  next_step = 66 ∷ [];
  next_step_date = some 4;
  changed_remind_me = false;
  changed_next_step = true;
  changed_next_step_date = true;
}

abbrev utc : ℕ → ℕ
utc t = t

after_call-Follows : Follows plan after_call
unfolding differ same_text
after_call-Follows = record {
  wanted = refl;
  step = refl;
  due = refl;
  new = λ e. absurd (ground (arith, e));
}

in_step : InStep utc (some (9, 10)) after_call plan (call_back ∷ done_with ∷ [])
unfolding InStep Fits is_own reminder_time date_at
in_step = (((refl, refl, refl), tt), refl)

remind_me_lem_example :
    ((remind_me utc (some (9, 10)) 3 after_call (call_back ∷ done_with ∷ [])).0 ≡ returned tt)
    × InStep utc
        (some (9, 10))
        after_call
        (plan_of after_call)
        (remind_me utc (some (9, 10)) 3 after_call (call_back ∷ done_with ∷ [])).1
remind_me_lem_example =
    remind_me_lem utc 9 10 after_call plan 3 (call_back ∷ done_with ∷ []) (omega arith) (λ e. refl)
      after_call-Follows (λ e c. absurd (ground (arith, e))) in_step
