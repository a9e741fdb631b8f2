-- ===== src/Common/Examples.antt =====
-- Two reminders, and what the theorem says of them.
use agamin_crm.Prelude.{All, count, none, ℕ, ◌%◌, [], refl, select, some, true, ◌==◌, ◌∷◌, ◌≡◌}
use agamin_crm.Prelude.Action.{returned}
use agamin_crm.Common.Reminders.{Reminder, Board, is_due, send_remainders}
use agamin_crm.Common.Reminders.Once.{send_remainders_once}
use agamin_crm.Common.Letters.{Subject, email_to_participants}
use agamin_crm.Common.Letters.Delivered.{times, Own, Apart, email_to_participants_lem}

abbrev call : Reminder
call = record {
  id = 1;
  owner = some 5;
  content_object = 9;
  subject = [];
  description = [];
  active = true;
  reminder_date = 100;
  send_notification_email = true;
}

abbrev meeting : Reminder
meeting = record {
  id = 2;
  owner = some 6;
  content_object = 9;
  subject = [];
  description = [];
  active = true;
  reminder_date = 300;
  send_notification_email = true;
}

abbrev desk : Board
desk = record {
  reminders = call ∷ meeting ∷ [];
  objects = 8 ∷ 9 ∷ [];
  remind_me = 9 ∷ [];
  sent = [];
}

send_remainders_once_example :
    ((send_remainders (λ u. u == 5) 200 desk).0 ≡ returned tt)
    × (select (is_due 200) (send_remainders (λ u. u == 5) 200 desk).1.reminders ≡ [])
    × (send_remainders (λ u. u == 5) 200 (send_remainders (λ u. u == 5) 200 desk).1
        ≡ (returned tt, (send_remainders (λ u. u == 5) 200 desk).1))
send_remainders_once_example =
    send_remainders_once (λ u. u == 5) 200 desk ((refl, refl), ((refl, refl), tt))

-- Users 1 and 3 speak one language, users 2 and 4 another.
abbrev speaks_two : ℕ → ℕ
speaks_two u = u % 2

email_to_participants_lem_example :
    ((u : ℕ)
      → times u (email_to_participants speaks_two none (1 ∷ 2 ∷ 3 ∷ 4 ∷ []))
        ≡ count u (1 ∷ 2 ∷ 3 ∷ 4 ∷ []))
    × Own speaks_two (email_to_participants speaks_two none (1 ∷ 2 ∷ 3 ∷ 4 ∷ []))
    × Apart (email_to_participants speaks_two none (1 ∷ 2 ∷ 3 ∷ 4 ∷ []))
    × ((t : Subject) × All
          (λ l. l.subject ≡ t)
          (email_to_participants speaks_two none (1 ∷ 2 ∷ 3 ∷ 4 ∷ [])))
email_to_participants_lem_example = email_to_participants_lem speaks_two none (1 ∷ 2 ∷ 3 ∷ 4 ∷ [])
