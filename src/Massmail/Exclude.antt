-- ===== src/Massmail/Exclude.antt =====
-- massmail/views/exclude.py: the recipients of a mailing that had its message by another mailing are
-- taken out. Words are the texts between the commas. The pattern is searched as written; the ids are
-- digits, so that the case plays no part.
mod Search
pub mod Left
use agamin_crm.Prelude.{
  Bool, List, [], false, first, if◌then◌else◌, length, none, not, opt_eq, select, some, true, ℕ,
  ◌&&◌, ◌++◌, ◌-◌, ◌==◌, ◌||◌, ◌∷◌,
}
use agamin_crm.Prelude.Action.{Outcome, returned, raised, does_not_exist}
use agamin_crm.Massmail.Ids.{split, join}
use agamin_crm.Massmail.MailingOut.{MailingOut}

-- `{id}(,|$)` at the start of a text.
pub word_at : List ℕ → List ℕ → Bool
word_at [] [] = true
word_at [] (c ∷ t) = c == 44
word_at (a ∷ w) [] = false
word_at (a ∷ w) (b ∷ t) = a == b && word_at w t

pub after_comma : List ℕ → List ℕ → Bool
unfolding word_at
after_comma w [] = false
after_comma w (c ∷ t) = (c == 44 && word_at w t) || after_comma w t

-- `(^|,){id}(,|$)`
pub has_id : List ℕ → List ℕ → Bool
unfolding word_at after_comma
has_id w t = word_at w t || after_comma w t

pub any_id : List (List ℕ) → List ℕ → Bool
unfolding has_id
any_id [] t = false
any_id (w ∷ ws) t = has_id w t || any_id ws t

pub same_word : List ℕ → List ℕ → Bool
same_word [] [] = true
same_word (a ∷ s) (b ∷ t) = a == b && same_word s t
same_word _ _ = false

-- Python's `in`.
pub is_word : List ℕ → List (List ℕ) → Bool
unfolding same_word
is_word w [] = false
is_word w (v ∷ vs) = same_word w v || is_word w vs

pub is_empty : List ℕ → Bool
is_empty [] = true
is_empty (c ∷ t) = false

-- `excluded_ids`, as a list.
pub excluded_ids : List (List ℕ) → List MailingOut → List (List ℕ)
unfolding any_id is_empty
excluded_ids ws [] = []
excluded_ids ws (m ∷ ms) =
    let rest = excluded_ids ws ms in
    if any_id ws m.successful_ids && not (is_empty m.successful_ids)
    then split m.successful_ids ++ rest
    else rest

-- The mailings of the same message to recipients of the same type, `mo` included.
pub is_alike : MailingOut → MailingOut → Bool
is_alike mo m = opt_eq m.message mo.message && opt_eq m.content_type mo.content_type

pub without : List (List ℕ) → List (List ℕ) → List (List ℕ)
unfolding is_word
without excluded ws = select (λ w. not (is_word w excluded)) ws

-- `mo.save(update_fields=['recipient_ids', 'recipients_number'])`
pub save_left : ℕ → List (List ℕ) → List MailingOut → List MailingOut
save_left id ws [] = []
save_left id ws (m ∷ ms) =
    (if m.id == id then record m { recipient_ids = join ws; recipients_number = length ws } else m)
    ∷ save_left id ws ms

-- The number of the excluded recipients, and the table.
pub exclude : MailingOut → List MailingOut → Outcome ℕ × List MailingOut
unfolding excluded_ids is_alike without save_left
exclude mo table =
    let recipient_ids = split mo.recipient_ids in
    let excluded = excluded_ids recipient_ids (select (is_alike mo) table) in
    let left = without excluded recipient_ids in
    elim excluded [
      | [] ↦ (returned 0, table)
      | w ∷ ws ↦ (returned (length recipient_ids - length left), save_left mo.id left table)
    ]

pub exclude_recipients : ℕ → List MailingOut → Outcome ℕ × List MailingOut
unfolding exclude
exclude_recipients id table = elim (first (select (λ m. m.id == id) table)) [
  | none ↦ (raised does_not_exist, table)
  | some mo ↦ exclude mo table
]
