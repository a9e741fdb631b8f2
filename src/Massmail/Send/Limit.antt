-- ===== src/Massmail/Send/Limit.antt =====
-- How much an account sends in a day.
use agamin_crm.Prelude.{
  All, Bool-cases, List, Option, [], arith, if◌then◌else◌, inl, inr, map, none, select, some, ℕ,
  ◌+◌, ◌==◌, ◌∷◌, ◌≡◌, ◌≤◌,
}
use agamin_crm.Prelude.Action.{Action, for_each, Preserves, for_each-Preserves, keeps_rules}
use agamin_crm.Massmail.MailingOut.{MailingOut, Held, move_to_successful_ids, get_recipient_ids}
use agamin_crm.Massmail.Account.{EmailAccount}
use agamin_crm.Massmail.World.{World, MassContact, Env}
use agamin_crm.Massmail.Send.Contacts.{next_account, set_account, create_contact}
use agamin_crm.Massmail.Send.{
  on_held, set_obj, save_account, counter_increment, mail_admins, drop_recipient, drop_one,
  delete_contact, log_sent, report_off, report_failed, report_done, success_report, prepare,
  reset_count, take_up, check_owners, is_active, send_massmail,
}
use agamin_crm.Massmail.Send.Walk.{Rules, process-Preserves, caught-eq}
use agamin_crm.Massmail.Send.Contacts.Frame.{
  fix_masscontacts-Preserves, accounts-next_account, accounts-set_account, accounts-create_contact,
}

module _ (env : Env) where
  -- What an account has sent today is at most one more than `emails_per_day`.
  abbrev Within : EmailAccount → Type 0
  Within a = a.today_date ≡ some env.today → a.today_count ≤ env.emails_per_day + 1

  abbrev AllWithin : World → Type 0
  AllWithin w = All Within w.accounts

  save-All :
      (ea : EmailAccount) (xs : List EmailAccount)
      → Within ea
      → All Within xs
      → All Within (map (λ b. if b.pk == ea.pk then ea else b) xs)
  save-All ea [] k h = tt
  save-All ea (b ∷ xs) k h = elim (Bool-cases (b.pk == ea.pk)) [
    | inl same ↦ rw same (k, save-All ea xs k h.1)
    | inr other ↦ rw other (h.0, save-All ea xs k h.1)
  ]

  save_account-AllWithin : (ea : EmailAccount) → Within ea → Preserves AllWithin (save_account ea)
  unfolding save_account
  save_account-AllWithin ea k = record { at = λ w h. save-All ea w.accounts k h }

  on_held-AllWithin : {A : Type 0} (m : Action Held A) → Preserves AllWithin (on_held m)
  on_held-AllWithin m = record { at = λ w h. h }

  set_obj-AllWithin : (f : MailingOut → MailingOut) → Preserves AllWithin (set_obj f)
  set_obj-AllWithin f = record { at = λ w h. h }

  ruleset limit_rules = (keeps_rules, on_held-AllWithin, set_obj-AllWithin)

  counter_increment-AllWithin :
      (ea : EmailAccount)
      → ea.today_count ≤ env.emails_per_day
      → Preserves AllWithin (counter_increment env ea)
  unfolding counter_increment
  counter_increment-AllWithin ea k =
      let saved =
        save_account-AllWithin
          (record ea { today_count = ea.today_count + 1; today_date = some env.today })
          (λ e. omega arith) in
      search (limit_rules, saved)

  drop_one-AllWithin : Preserves AllWithin (drop_one env)
  unfolding drop_one
  drop_one-AllWithin = record { at = λ w h. ground arith }

  delete_contact-AllWithin : (mc : MassContact) → Preserves AllWithin (delete_contact env mc)
  unfolding delete_contact
  delete_contact-AllWithin mc = record { at = λ w h. h }

  mail_admins-AllWithin : Preserves AllWithin mail_admins
  unfolding mail_admins
  mail_admins-AllWithin = record { at = λ w h. h }

  drop_recipient-AllWithin : (mc : MassContact) → Preserves AllWithin (drop_recipient env mc)
  unfolding drop_recipient
  drop_recipient-AllWithin mc =
      search (limit_rules, drop_one-AllWithin, delete_contact-AllWithin) depth 12

  log_sent-AllWithin :
      (ea : EmailAccount) (mc : MassContact) → Preserves AllWithin (log_sent env ea mc)
  unfolding log_sent
  log_sent-AllWithin ea mc = record { at = λ w h. ground arith }

  report_off-AllWithin :
      (ea : EmailAccount) (mc : MassContact)
      → ea.today_count ≤ env.emails_per_day
      → Preserves AllWithin (report_off env ea mc)
  unfolding report_off
  report_off-AllWithin ea mc le =
      let saved = λ (e : EmailAccount) (same : e.today_count ≡ ea.today_count).
        save_account-AllWithin e (λ _. omega arith) in
      search (limit_rules, mail_admins-AllWithin) depth 12

  report_failed-AllWithin :
      (ea : EmailAccount) (mc : MassContact) → Preserves AllWithin (report_failed env ea mc)
  unfolding report_failed
  report_failed-AllWithin ea mc = search limit_rules

  next_account-AllWithin : (o : Option ℕ) → Preserves AllWithin (next_account o)
  next_account-AllWithin o = record { at = λ w h. rw (accounts-next_account o w) h }

  set_account-AllWithin : (c : MassContact) (k : Option ℕ) → Preserves AllWithin (set_account c k)
  set_account-AllWithin c k = record { at = λ w h. rw (accounts-set_account c k w) h }

  create_contact-AllWithin :
      (t : Option ℕ) (i : ℕ) (k : Option ℕ) → Preserves AllWithin (create_contact t i k)
  create_contact-AllWithin t i k = record { at = λ w h. rw (accounts-create_contact t i k w) h }

  prepare-AllWithin : (ids : List ℕ) → Preserves AllWithin (prepare env ids)
  unfolding prepare
  prepare-AllWithin ids = record {
    at = λ w h.
        (fix_masscontacts-Preserves next_account-AllWithin set_account-AllWithin
            create_contact-AllWithin env.walk w.held.obj ids).at
          w h;
  }

  report_done-AllWithin : (o : Option ℕ) → Preserves AllWithin (report_done env o)
  unfolding report_done
  report_done-AllWithin none = search limit_rules
  report_done-AllWithin (some k) = search limit_rules

  success_report-AllWithin : Preserves AllWithin (success_report env)
  unfolding success_report
  success_report-AllWithin = record { at = λ w h. (report_done-AllWithin w.held.obj.owner).at w h }

  reset_count-AllWithin : Preserves AllWithin (reset_count env)
  unfolding reset_count
  reset_count-AllWithin = record { at = λ w h. h }

  limit_Rules : Rules env AllWithin
  limit_Rules = record {
    increment = counter_increment-AllWithin;
    drop = drop_recipient-AllWithin;
    off = report_off-AllWithin;
    failure = report_failed-AllWithin;
    log = log_sent-AllWithin;
    success = λ mc. on_held-AllWithin (move_to_successful_ids mc.object_id);
    contacts = prepare-AllWithin;
    finish = success_report-AllWithin;
    reset = reset_count-AllWithin;
    read = on_held-AllWithin get_recipient_ids;
  }

  take_up-AllWithin : (o : MailingOut) → Preserves AllWithin (take_up env o)
  unfolding take_up
  take_up-AllWithin o = record {
    at = λ w h.
        (process-Preserves env limit_Rules).at (record w { held = record { obj = o; row = o } }) h;
  }

-- A pass never takes an account beyond one message more than `emails_per_day` on its day, whatever
-- the mail servers answer and however the pass ends.
send_massmail-AllWithin :
    (env : Env) (shuffle : List MailingOut → List MailingOut) (w : World)
    → AllWithin env w
    → AllWithin env (send_massmail env shuffle w)
unfolding send_massmail
send_massmail-AllWithin env shuffle w h =
    let picked = check_owners (shuffle (select is_active w.mailings)) in
    let (r, v) = for_each picked (take_up env) w in
    rw (caught-eq r v).1 ((for_each-Preserves picked (take_up env) (take_up-AllWithin env)).at w h)
