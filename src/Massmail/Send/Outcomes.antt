-- ===== src/Massmail/Send/Outcomes.antt =====
-- What one attempt to write to a recipient leaves behind.
use agamin_crm.Prelude.{
  All, Bool-cases, List, Option, [], arith, false, if◌then◌else◌, inl, inr, map, none, refl, remove,
  some, subst, sym, ℕ, ◌++◌, ◌<◌, ◌==◌, ◌↔◌, ◌∷◌, ◌≡◌,
}
use agamin_crm.Massmail.MailingOut.{Held, Status, save, move_to_successful_ids}
use agamin_crm.Massmail.Account.{EmailAccount}
use agamin_crm.Massmail.World.{World, MassContact, Env, Trouble, refused, failed}
use agamin_crm.Massmail.Send.{
  on_held, save_account, daily, counter_increment, mail_admins, log_sent, report_off, report_failed,
  settle, conclude, attempt,
}
use agamin_crm.Massmail.MailingOut.Conserves.{
  Lists, move_to_successful_ids_lem, move_to_failed_ids_lem,
}

-- An account is passed over exactly if it has sent more than the limit today.
pub daily_limit :
    (env : Env) (ea : EmailAccount)
    → (daily env ea ≡ none)
      ↔ ((ea.today_date ≡ some env.today) × (env.emails_per_day < ea.today_count))
unfolding daily
daily_limit env ea = ground arith

-- Accounts with the key of `ea` send no more.
abbrev pub SwitchedOff : EmailAccount → List EmailAccount → Type 0
SwitchedOff ea = All (λ a. a.pk ≡ ea.pk → a.massmail ≡ false)

save-SwitchedOff :
    (ea : EmailAccount) (xs : List EmailAccount)
    → ea.massmail ≡ false
    → SwitchedOff ea (map (λ b. if b.pk == ea.pk then ea else b) xs)
save-SwitchedOff ea [] h = tt
save-SwitchedOff ea (b ∷ xs) h = elim (Bool-cases (b.pk == ea.pk)) [
  | inl same ↦ rw same ((λ _. h), save-SwitchedOff ea xs h)
  | inr other ↦ rw other ((λ e. ground arith), save-SwitchedOff ea xs h)
]

module _ (env : Env) (ea : EmailAccount) (mc : MassContact) (w : World) where
  abbrev pub after : Option Trouble → World
  after t = (attempt env ea mc t w).1

  off_after : SwitchedOff ea (after (some refused)).accounts
  unfolding attempt report_off save_account mail_admins save
  off_after =
      save-SwitchedOff
        (record ea {
          massmail = false;
          report = "\nAccount OFF!\n" ∷ env.report_text ea mc ∷ ea.report;
        })
        w.accounts refl

  module _ (todo good bad rest : List ℕ) (l : Lists w.held.obj todo good bad)
      (r : remove mc.object_id todo ≡ some rest) where
    sent_after : Lists (after none).held.obj rest (good ++ mc.object_id ∷ []) bad
    unfolding attempt conclude settle log_sent counter_increment save_account save
    sent_after =
        let (ok, lists, saved) =
          move_to_successful_ids_lem mc.object_id w.held todo good bad l rest r in
        let moved : World =
          (on_held (move_to_successful_ids mc.object_id) (log_sent env ea mc w).1).1 in
        subst
          (λ o. Lists (settle env ea mc o moved).1.held.obj rest (good ++ mc.object_id ∷ []) bad)
          (sym ok)
          (record {
            todo_text = lists.todo_text;
            good_text = lists.good_text;
            bad_text = lists.bad_text;
          })

    failed_after : Lists (after (some failed)).held.obj rest good (bad ++ mc.object_id ∷ [])
    unfolding attempt report_failed
    failed_after =
        let entered : Held = record {
          obj = record w.held.obj {
            report = env.report_text ea mc ∷ w.held.obj.report;
            status = Status.active_but_error;
          };
          row = w.held.row;
        } in
        (move_to_failed_ids_lem mc.object_id entered todo good bad
          (record { todo_text = l.todo_text; good_text = l.good_text; bad_text = l.bad_text }) rest
          r).1

    still_in_line : Lists (after (some refused)).held.obj todo good bad
    unfolding attempt report_off save_account mail_admins save
    still_in_line = record {
      todo_text = l.todo_text;
      good_text = l.good_text;
      bad_text = l.bad_text;
    }

    -- After an attempt for a recipient in line: a message that went out moves him to the successful
    -- ones; a failed one moves him to the failed ones; if the account was refused he stays in line,
    -- and the account sends no more.
    pub attempt_outcomes :
        Lists (after none).held.obj rest (good ++ mc.object_id ∷ []) bad
        × Lists (after (some failed)).held.obj rest good (bad ++ mc.object_id ∷ [])
        × Lists (after (some refused)).held.obj todo good bad
        × SwitchedOff ea (after (some refused)).accounts
    attempt_outcomes = (sent_after, failed_after, still_in_line, off_after)
