-- ===== src/Massmail/Send/Messages.antt =====
-- The messages of one turn of the loop over the accounts.
use agamin_crm.Prelude.{All, Bool, List, false, some, true, ℕ, ◌+◌, ◌==◌, ◌∷◌, ◌≡◌, ◌≤◌, ◌⊎◌}
use agamin_crm.Prelude.Action.{Action, Error, Outcome, returned, raised, Preserves, keeps_rules}
use agamin_crm.Massmail.MailingOut.{MailingOut, Held, move_to_successful_ids}
use agamin_crm.Massmail.Account.{EmailAccount}
use agamin_crm.Massmail.World.{World, MassContact, Env}
use agamin_crm.Massmail.Send.{on_held, set_obj, save_account, mail_admins}

module _ (sent : List (ℕ × ℕ)) where
  -- No message more.
  abbrev Silent : World → Type 0
  Silent w = w.sent ≡ sent

  on_held-Silent : {A : Type 0} (m : Action Held A) → Preserves Silent (on_held m)
  on_held-Silent m = record { at = λ w h. h }

  set_obj-Silent : (f : MailingOut → MailingOut) → Preserves Silent (set_obj f)
  set_obj-Silent f = record { at = λ w h. h }

  save_account-Silent : (ea : EmailAccount) → Preserves Silent (save_account ea)
  unfolding save_account
  save_account-Silent ea = record { at = λ w h. h }

  mail_admins-Silent : Preserves Silent mail_admins
  unfolding mail_admins
  mail_admins-Silent = record { at = λ w h. h }

  ruleset silent_rules =
      (keeps_rules, on_held-Silent, set_obj-Silent, save_account-Silent, mail_admins-Silent)

module _ (env : Env) where
  -- Every row with the key of the account has one message of today more than the account had.
  abbrev pub Counted : EmailAccount → World → Type 0
  Counted e = λ v.
      All
        (λ a.
          (a.pk == e.pk) ≡ true
          → (a.today_count ≡ e.today_count + 1) × (a.today_date ≡ some env.today))
        v.accounts

  -- What a turn does for the account `e`, as it stands when its turn begins: no message, or one,
  -- which its row counts unless the recipient cannot be moved to the successful ones.
  abbrev pub Sends : EmailAccount → World → World → Type 0
  Sends e w v =
      (v.sent ≡ w.sent)
      ⊎ ((mc : MassContact) × (v.sent ≡ (e.pk, mc.object_id) ∷ w.sent)
          × (e.today_count ≤ env.emails_per_day)
          × (Counted e v
              ⊎ ((x : Error) × ((move_to_successful_ids mc.object_id w.held).0 ≡ raised x))))

  -- The truth value of a recipient that is gone.
  NotFound : Outcome Bool → Type 0
  NotFound (returned b) = b ≡ false
  NotFound (raised e) = Unit
