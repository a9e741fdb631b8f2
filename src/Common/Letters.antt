-- ===== src/Common/Letters.antt =====
-- One e-mail for each language: common/utils/email_to_participants.py. A user and a language are
-- their keys. Rendering the message and sending it are left to their libraries.
pub mod Delivered
use agamin_crm.Prelude.{
  Bool, List, Option, [], length, none, not, select, some, suc, zero, ℕ, ◌++◌, ◌==◌, ◌∷◌,
}

-- The subject: the caller's, or one that is composed in a language.
pub data Subject : Type 0 where
  given : Subject
  composed : ℕ → Subject

-- A call of `send_crm_email`; `language` is that of the message.
pub record Letter : Type 0 where
  pub language : ℕ
  pub subject : Subject
  pub to : List ℕ

pub reverse : List ℕ → List ℕ
reverse [] = []
reverse (x ∷ xs) = reverse xs ++ (x ∷ [])

-- The subject of a turn: `composed_subject` keeps what an earlier turn has composed.
pub subject_of : Option Subject → ℕ → Subject
subject_of none code = composed code
subject_of (some s) code = s

module _ (language_code : ℕ → ℕ) where
  pub speaks : ℕ → ℕ → Bool
  speaks code u = language_code u == code

  -- The outer loop. The list stands with its end first, since `pop` takes users from the end; the
  -- inner loop leaves `temp_list` in the order of the pops, so that the next turn pops its last.
  pub letters : ℕ → Option Subject → List ℕ → List Letter
  unfolding speaks subject_of reverse
  letters zero s users = []
  letters (suc f) s [] = []
  letters (suc f) s (user ∷ users) =
      let code = language_code user in
      let temp_list = select (λ u. not (speaks code u)) users in
      record {
        language = code;
        subject = subject_of s code;
        to = user ∷ select (speaks code) users;
      }
      ∷ letters f (some (subject_of s code)) (reverse temp_list)

  -- `email_to_participants`; the list gets shorter with every turn.
  pub email_to_participants : Option Subject → List ℕ → List Letter
  unfolding letters
  email_to_participants s users = letters (length users) s (reverse users)
