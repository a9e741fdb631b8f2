-- ===== src/Massmail/Send/Walk.antt =====
-- Invariants of a pass: what the parts of a pass keep, the pass keeps.
use agamin_crm.Prelude.{
  Bool, List, Option, [], arith, false, none, refl, some, true, ℕ, ◌+◌, ◌∷◌, ◌≡◌, ◌≤◌,
}
use agamin_crm.Prelude.Action.{
  Outcome, returned, raised, Preserves, for_each-Preserves, keeps_rules,
}
use agamin_crm.Massmail.MailingOut.{move_to_successful_ids, get_recipient_ids}
use agamin_crm.Massmail.Account.{EmailAccount}
use agamin_crm.Massmail.World.{World, MassContact, Env, Kind, Trouble, refused, failed}
use agamin_crm.Massmail.Send.Contacts.{get_masscontact}
use agamin_crm.Massmail.Send.{
  on_held, daily, counter_increment, drop_recipient, log_sent, get_recipient, report_off,
  report_failed, settle, conclude, attempt, get_extra_context, approach, with_contact, with_account,
  visit, success_report, senders, prepare, write_all, rounds, reset_count, process, caught,
}

-- The parts that change something, and what is to be shown of each.
pub record Rules (env : Env) (P : World → Type 0) : Type 0 where
  pub increment :
      (ea : EmailAccount)
      → ea.today_count ≤ env.emails_per_day
      → Preserves P (counter_increment env ea)
  pub drop : (mc : MassContact) → Preserves P (drop_recipient env mc)
  pub off :
      (ea : EmailAccount) (mc : MassContact)
      → ea.today_count ≤ env.emails_per_day
      → Preserves P (report_off env ea mc)
  pub failure : (ea : EmailAccount) (mc : MassContact) → Preserves P (report_failed env ea mc)
  pub log : (ea : EmailAccount) (mc : MassContact) → Preserves P (log_sent env ea mc)
  pub success : (mc : MassContact) → Preserves P (on_held (move_to_successful_ids mc.object_id))
  pub contacts : (ids : List ℕ) → Preserves P (prepare env ids)
  pub finish : Preserves P (success_report env)
  pub reset : Preserves P (reset_count env)
  pub read : Preserves P (on_held get_recipient_ids)

pub daily-le :
    (env : Env) (ea e : EmailAccount) → daily env ea ≡ some e → e.today_count ≤ env.emails_per_day
unfolding daily
daily-le env ea e h = ground arith

module _ {P : World → Type 0} (env : Env) (rules : Rules env P) where
  get_recipient-Preserves : (mc : MassContact) → Preserves P (get_recipient env mc)
  unfolding get_recipient
  get_recipient-Preserves mc = search (keeps_rules, rules.drop)

  get_extra_context-Preserves : (k : Kind) → Preserves P (get_extra_context env k)
  unfolding get_extra_context
  get_extra_context-Preserves Kind.other = search keeps_rules
  get_extra_context-Preserves _ = search keeps_rules

  module _ (ea : EmailAccount) (le : ea.today_count ≤ env.emails_per_day) where
    settle-Preserves :
        (mc : MassContact) (r : Outcome (Unit {0})) → Preserves P (settle env ea mc r)
    unfolding settle
    settle-Preserves mc (returned _) = rules.increment ea le
    settle-Preserves mc (raised e) = rules.failure ea mc

    conclude-Preserves : (mc : MassContact) → Preserves P (conclude env ea mc)
    unfolding conclude
    conclude-Preserves mc = record {
      at = λ w h.
          let (r, v) = on_held (move_to_successful_ids mc.object_id) w in
          (settle-Preserves mc r).at v ((rules.success mc).at w h);
    }

    attempt-Preserves : (mc : MassContact) (t : Option Trouble) → Preserves P (attempt env ea mc t)
    unfolding attempt
    attempt-Preserves mc (some refused) = rules.off ea mc le
    attempt-Preserves mc (some failed) = rules.failure ea mc
    attempt-Preserves mc none = search (keeps_rules, rules.log ea mc, conclude-Preserves mc)

    approach-Preserves : (mc : MassContact) (b : Bool) → Preserves P (approach env ea mc b)
    unfolding approach
    approach-Preserves mc true =
        search (keeps_rules, get_extra_context-Preserves, attempt-Preserves)
    approach-Preserves mc false = search keeps_rules

    with_contact-Preserves : (c : Option MassContact) → Preserves P (with_contact env ea c)
    unfolding with_contact
    with_contact-Preserves none = search keeps_rules
    with_contact-Preserves (some mc) =
        search (keeps_rules, get_recipient-Preserves mc, approach-Preserves mc)

  with_account-Preserves :
      (ids : List ℕ) (o : Option EmailAccount)
      → ((e : EmailAccount) → o ≡ some e → e.today_count ≤ env.emails_per_day)
      → Preserves P (with_account env ids o)
  unfolding with_account
  with_account-Preserves ids none le = record { at = λ w h. h }
  with_account-Preserves ids (some ea) le = record {
    at = λ w h.
        (with_contact-Preserves ea (le ea refl) (get_masscontact w.held.obj ids ea w)).at w h;
  }

  visit-Preserves : (ids : List ℕ) (ea : EmailAccount) → Preserves P (visit env ids ea)
  unfolding visit
  visit-Preserves ids ea = with_account-Preserves ids (daily env ea) (daily-le env ea)

  write_all-Preserves : (ids : List ℕ) → Preserves P (write_all env ids)
  unfolding write_all
  write_all-Preserves ids = record {
    at = λ w h.
        (for_each-Preserves (senders env w.held.obj w.accounts) (visit env ids)
            (visit-Preserves ids)).at
          w h;
  }

  rounds-Preserves : (ids : List ℕ) → Preserves P (rounds env ids)
  unfolding rounds
  rounds-Preserves [] = rules.finish
  rounds-Preserves (i ∷ ids) = search (keeps_rules, rules.contacts, write_all-Preserves)

  pub process-Preserves : Preserves P (process env)
  unfolding process
  process-Preserves = search (keeps_rules, rules.reset, rules.read, rounds-Preserves)

-- The outer `try` keeps what does not speak of the mails to the admins.
pub caught-eq :
    (r : Outcome (Unit {0})) (w : World) → (n : ℕ) × (caught r w ≡ record w { mails_to_admins = n })
unfolding caught
caught-eq (returned _) w = (w.mails_to_admins, refl)
caught-eq (raised e) w = (w.mails_to_admins + 1, refl)
