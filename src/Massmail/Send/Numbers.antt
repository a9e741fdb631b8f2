-- ===== src/Massmail/Send/Numbers.antt =====
-- The number of recipients stays the number of ids that the mailing lists, through a whole pass.
use agamin_crm.Prelude.{
  none, All, Bool, Bool-cases, List, Option, String, [], arith, false, if◌then◌else◌, inl, inr, map,
  opt_eq, select, some, subst, sym, ℕ, ◌+◌, ◌-◌, ◌==◌, ◌∷◌, ◌≡◌,
}
use agamin_crm.Prelude.Action.{
  value_error, Action, returned, raised, for_each, Preserves, >>-Preserves, for_each-All,
  keeps_rules,
}
use agamin_crm.Massmail.MailingOut.{
  MailingOut, Held, Status, save, move_to_successful_ids, move_to_failed_ids, remove_recipient_ids,
  get_recipient_ids,
}
use agamin_crm.Massmail.Account.{EmailAccount}
use agamin_crm.Massmail.World.{World, MassContact, Env}
use agamin_crm.Massmail.Send.Contacts.{next_account, set_account, create_contact}
use agamin_crm.Massmail.Send.{
  on_held, set_obj, save_account, counter_increment, mail_admins, drop_recipient, drop_one,
  delete_contact, log_sent, report_off, report_failed, report_done, success_report, prepare,
  reset_count, process, take_up, check_from, holds, check_owners, is_active, send_massmail,
}
use agamin_crm.Massmail.Ids.{join_ids}
use agamin_crm.Massmail.Ids.RoundTrip.{get_ids-join_ids}
use agamin_crm.Massmail.MailingOut.Counted.{
  Counted, BothCounted, success-Counted, failure-Counted, remove_cases, save-Counted,
  same-get_recipient_ids,
}
use agamin_crm.Massmail.Send.Walk.{Rules, process-Preserves, caught-eq}
use agamin_crm.Massmail.Send.Contacts.Frame.{
  fix_masscontacts-Preserves, held-next_account, held-set_account, held-create_contact,
  mailings-next_account, mailings-set_account, mailings-create_contact,
}

-- The mailing in hand, its row and all rows of the table.
pub record AllCounted (w : World) : Type 0 where
  pub held : BothCounted w.held
  pub table : All Counted w.mailings

-- What leaves the mailing in hand and the table alone keeps the invariant.
same_mailings :
    (v w : World) → v.held ≡ w.held → v.mailings ≡ w.mailings → AllCounted w → AllCounted v
same_mailings v w e f h = record {
  held = subst BothCounted (sym e) h.held;
  table = subst (All Counted) (sym f) h.table;
}

on_held-AllCounted :
    {A : Type 0} (m : Action Held A)
    → ((h : Held) → BothCounted h → BothCounted (m h).1)
    → Preserves AllCounted (on_held m)
on_held-AllCounted m keep = record {
  at = λ w h. record { held = keep w.held h.held; table = h.table };
}

save-AllCounted : Preserves AllCounted (on_held save)
save-AllCounted = on_held-AllCounted save save-Counted

-- An assignment to fields that the invariant does not read.
plain-AllCounted :
    (f : MailingOut → MailingOut)
    → ((o : MailingOut) → Counted o → Counted (f o))
    → Preserves AllCounted (set_obj f)
plain-AllCounted f keep = record {
  at = λ w h. record { held = (keep w.held.obj h.held.0, h.held.1); table = h.table };
}

save_account-AllCounted : (ea : EmailAccount) → Preserves AllCounted (save_account ea)
unfolding save_account
save_account-AllCounted ea = record { at = λ w h. record { held = h.held; table = h.table } }

mail_admins-AllCounted : Preserves AllCounted mail_admins
unfolding mail_admins
mail_admins-AllCounted = record { at = λ w h. record { held = h.held; table = h.table } }

ruleset count_rules =
    (keeps_rules, save-AllCounted, save_account-AllCounted, mail_admins-AllCounted)

module _ (env : Env) where
  increment-AllCounted : (ea : EmailAccount) → Preserves AllCounted (counter_increment env ea)
  unfolding counter_increment
  increment-AllCounted ea =
      let counter =
        plain-AllCounted
          (λ o. record o { today_count = o.today_count + 1; sending_date = some env.today })
          (λ o c. c) in
      search count_rules

  entry-AllCounted :
      (add : List String → List String) (status : Status)
      → Preserves AllCounted (set_obj (λ o. record o { report = add o.report; status = status }))
  entry-AllCounted add status = plain-AllCounted _ (λ o c. c)

  off-AllCounted :
      (ea : EmailAccount) (mc : MassContact) → Preserves AllCounted (report_off env ea mc)
  unfolding report_off
  off-AllCounted ea mc =
      let entry =
        entry-AllCounted (λ old. "\nAccount OFF!\n" ∷ env.report_text ea mc ∷ old)
          Status.active_but_error in
      >>-Preserves _ _ (save_account-AllCounted _)
        (>>-Preserves _ _ entry (>>-Preserves _ _ save-AllCounted mail_admins-AllCounted))

  failure-AllCounted :
      (ea : EmailAccount) (mc : MassContact) → Preserves AllCounted (report_failed env ea mc)
  unfolding report_failed
  failure-AllCounted ea mc =
      let entry = entry-AllCounted (λ old. env.report_text ea mc ∷ old) Status.active_but_error in
      let moved =
        on_held-AllCounted (move_to_failed_ids mc.object_id) (failure-Counted mc.object_id) in
      search (count_rules, entry, moved)

  log-AllCounted :
      (ea : EmailAccount) (mc : MassContact) → Preserves AllCounted (log_sent env ea mc)
  unfolding log_sent
  log-AllCounted ea mc = record {
    at = λ w h. same_mailings (log_sent env ea mc w).1 w (ground arith) (ground arith) h;
  }

  done-AllCounted : (o : Option ℕ) → Preserves AllCounted (report_done env o)
  unfolding report_done
  done-AllCounted none = search count_rules
  done-AllCounted (some k) =
      let entry = entry-AllCounted (λ old. env.done_text ∷ old) Status.done in
      search (count_rules, entry)

  finish-AllCounted : Preserves AllCounted (success_report env)
  unfolding success_report
  finish-AllCounted = record { at = λ w h. (done-AllCounted w.held.obj.owner).at w h }

  reset-AllCounted : Preserves AllCounted (reset_count env)
  unfolding reset_count
  reset-AllCounted = plain-AllCounted _ (λ o c.
      elim (Bool-cases (opt_eq o.sending_date (some env.today))) [
        | inl today ↦ rw today c
        | inr before ↦ rw before c
      ])

  read-AllCounted : Preserves AllCounted (on_held get_recipient_ids)
  read-AllCounted = on_held-AllCounted get_recipient_ids (λ h c. rw (same-get_recipient_ids h) c)

  contacts-AllCounted : (ids : List ℕ) → Preserves AllCounted (prepare env ids)
  unfolding prepare
  contacts-AllCounted ids = record {
    at = λ w h.
        (fix_masscontacts-Preserves
            (λ o. record {
              at = λ w.
                  same_mailings (next_account o w).1 w (held-next_account o w)
                    (mailings-next_account o w);
            })
            (λ c k. record {
              at = λ w.
                  same_mailings (set_account c k w).1 w (held-set_account c k w)
                    (mailings-set_account c k w);
            })
            (λ t i k. record {
              at = λ w.
                  same_mailings (create_contact t i k w).1 w (held-create_contact t i k w)
                    (mailings-create_contact t i k w);
            })
            env.walk w.held.obj ids).at
          w h;
  }

  -- The mailing without one recipient.
  abbrev shorter : List ℕ → MailingOut → MailingOut
  shorter rest o = record o {
    recipient_ids = join_ids rest;
    recipients_number = o.recipients_number - 1;
  }

  drop_refused :
      (mc : MassContact) (w : World)
      → remove_recipient_ids mc.object_id w.held ≡ (raised value_error, w.held)
      → drop_recipient env mc w ≡ (raised value_error, w)
  unfolding drop_recipient
  drop_refused mc w e = ground arith

  drop_done :
      (mc : MassContact) (w : World) (rest : List ℕ)
      → remove_recipient_ids mc.object_id w.held
        ≡ (returned tt, record w.held { obj = record w.held.obj { recipient_ids = join_ids rest } })
      → (w.held.obj.recipients_number == 0) ≡ false
      → ((drop_recipient env mc w).1.held
          ≡ record { obj = shorter rest w.held.obj; row = shorter rest w.held.obj })
        × ((drop_recipient env mc w).1.mailings ≡ w.mailings)
  unfolding drop_recipient drop_one delete_contact save
  drop_done mc w rest e n = (ground arith, ground arith)

  drop-AllCounted : (mc : MassContact) → Preserves AllCounted (drop_recipient env mc)
  drop-AllCounted mc = record {
    at = λ w h. elim (remove_cases mc.object_id w.held h.held) [
      | inl missing ↦ rw (drop_refused mc w missing) h
      | inr (rest, removed, less) ↦
          let some_left : (w.held.obj.recipients_number == 0) ≡ false =
            ground (arith, h.held.0.6, less) in
          let counted : Counted (shorter rest w.held.obj) = (
            rest,
            h.held.0.1,
            h.held.0.2,
            get_ids-join_ids rest,
            h.held.0.4,
            h.held.0.5,
            omega (arith, h.held.0.6, less),
          ) in
          let (held, table) = drop_done mc w rest removed some_left in
          record {
            held = subst BothCounted (sym held) (counted, counted);
            table = subst (All Counted) (sym table) h.table;
          }
    ];
  }

  count_Rules : Rules env AllCounted
  count_Rules = record {
    increment = λ ea le. increment-AllCounted ea;
    drop = drop-AllCounted;
    off = λ ea mc le. off-AllCounted ea mc;
    failure = failure-AllCounted;
    log = log-AllCounted;
    success = λ mc.
        on_held-AllCounted (move_to_successful_ids mc.object_id) (success-Counted mc.object_id);
    contacts = contacts-AllCounted;
    finish = finish-AllCounted;
    reset = reset-AllCounted;
    read = read-AllCounted;
  }

  put_back :
      (id : ℕ) (row : MailingOut) (xs : List MailingOut)
      → Counted row
      → All Counted xs
      → All Counted (map (λ p. if p.id == id then row else p) xs)
  put_back id row [] c h = tt
  put_back id row (x ∷ xs) c h = elim (Bool-cases (x.id == id)) [
    | inl same ↦ rw same (c, put_back id row xs c h.1)
    | inr other ↦ rw other (h.0, put_back id row xs c h.1)
  ]

  take_up-AllCounted : (o : MailingOut) → Counted o → Preserves AllCounted (take_up env o)
  unfolding take_up
  take_up-AllCounted o c = record {
    at = λ w h.
        let start : World = record w { held = record { obj = o; row = o } } in
        let after =
          (process-Preserves env count_Rules).at start
            (record { held = (c, c); table = h.table }) in
        record {
          held = after.held;
          table =
              put_back o.id (process env start).1.held.row (process env start).1.mailings
                after.held.1 after.table;
        };
  }

select-All :
    (p : MailingOut → Bool) (xs : List MailingOut) → All Counted xs → All Counted (select p xs)
select-All p [] h = tt
select-All p (x ∷ xs) h = elim (Bool-cases (p x)) [
  | inl keep ↦ rw keep (h.0, select-All p xs h.1)
  | inr drop ↦ rw drop (select-All p xs h.1)
]

check_from-All :
    (seen : List (Option ℕ)) (xs : List MailingOut)
    → All Counted xs
    → All Counted (check_from seen xs)
unfolding check_from
check_from-All seen [] h = tt
check_from-All seen (x ∷ xs) h = elim (Bool-cases (holds x.owner seen)) [
  | inl old ↦ rw old (check_from-All seen xs h.1)
  | inr new ↦ rw new (h.0, check_from-All (x.owner ∷ seen) xs h.1)
]

-- The random order of the database gives rows of the table only.
abbrev pub IsOrder : (List MailingOut → List MailingOut) → Type 1
IsOrder shuffle = (Q : MailingOut → Type 0) (xs : List MailingOut) → All Q xs → All Q (shuffle xs)

-- If every mailing's `recipients_number` is the number of ids in its three lists, which can be
-- read, then so it is after a pass, for every row of the table, whatever the mail servers answer
-- and however the pass ends.
pub send_massmail-AllCounted :
    (env : Env) (shuffle : List MailingOut → List MailingOut) (w : World)
    → IsOrder shuffle
    → AllCounted w
    → AllCounted (send_massmail env shuffle w)
unfolding send_massmail check_owners
send_massmail-AllCounted env shuffle w order h =
    let active = select is_active w.mailings in
    let picked = check_owners (shuffle active) in
    let (r, v) = for_each picked (take_up env) w in
    let chosen =
      check_from-All [] (shuffle active)
        (order Counted active (select-All is_active w.mailings h.table)) in
    let kept = (for_each-All Counted picked (take_up env) chosen (take_up-AllCounted env)).at w h in
    rw (caught-eq r v).1 (record { held = kept.held; table = kept.table })
