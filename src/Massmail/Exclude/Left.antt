-- ===== src/Massmail/Exclude/Left.antt =====
-- Who is left in a mailing by `exclude_recipients`.
use agamin_crm.Prelude.{
  Bool, List, [], false, length, not, select, ℕ, ◌&&◌, ◌-◌, ◌||◌, ◌∷◌, ◌≡◌, ◌⊎◌,
}
use agamin_crm.Prelude.Action.{Outcome, returned}
use agamin_crm.Massmail.Ids.{split}
use agamin_crm.Massmail.MailingOut.{MailingOut}
use agamin_crm.Massmail.Exclude.{is_word, is_empty, is_alike, save_left}

-- A mailing was sent to the recipient successfully.
pub was_sent : List MailingOut → List ℕ → Bool
unfolding is_word is_empty
was_sent [] w = false
was_sent (m ∷ ms) w =
    (is_word w (split m.successful_ids) && not (is_empty m.successful_ids)) || was_sent ms w

-- The recipients in line that no mailing of the same message and type reached.
pub left_of : MailingOut → List MailingOut → List (List ℕ)
unfolding was_sent
left_of mo table =
    select (λ w. not (was_sent (select (is_alike mo) table) w)) (split mo.recipient_ids)

-- The table after the call.
pub Excluded : MailingOut → List (List ℕ) → List MailingOut → Outcome ℕ × List MailingOut → Type 0
Excluded mo left table out =
    (out.0 ≡ returned (length (split mo.recipient_ids) - length left))
    × (((left ≡ split mo.recipient_ids) × (out.1 ≡ table)) ⊎ (out.1 ≡ save_left mo.id left table))
