-- ===== src/Massmail/World.antt =====
-- What a run of massmail/utils/sendmassmail.py reads and changes: the tables, the mailing in hand,
-- and what the run takes from outside.
use agamin_crm.Prelude.{Bool, List, Option, String, ℕ}
use agamin_crm.Massmail.Queue.{EmlAccountsQueue}
use agamin_crm.Massmail.MailingOut.{MailingOut, Held}
use agamin_crm.Massmail.Account.{EmailAccount}

-- massmail/models/mass_contact.py
pub record MassContact : Type 0 where
  pub id : ℕ
  pub content_type : ℕ
  pub object_id : ℕ
  pub email_account : Option ℕ
  pub massmail : Bool

-- `held` is the mailing that the loop works on; `next_id` the key of the next new row; `sent` the
-- messages that left, as pairs of an account and an object, newest first.
pub record World : Type 0 where
  pub held : Held
  pub mailings : List MailingOut
  pub accounts : List EmailAccount
  pub contacts : List MassContact
  pub queues : List EmlAccountsQueue
  pub next_id : ℕ
  pub sent : List (ℕ × ℕ)
  pub mails_to_admins : ℕ

-- The models that a content type may stand for.
pub data Kind : Type 0 where
  contact company lead other : Kind

-- `refused` is `SMTPAuthenticationError` or `SMTPSenderRefused`; `failed` any other exception.
pub data Trouble : Type 0 where
  refused failed : Trouble

-- The settings, the day, and the calls of code outside: whether an object is still there, what kind
-- its content type is, how composing and sending a message to it end, the order in which Python
-- walks a set, and the formatted texts of the reports.
pub record Env : Type 0 where
  pub emails_per_day : ℕ
  pub today : ℕ
  pub mailing : Bool
  pub testing : Bool
  pub object_exists : ℕ → ℕ → Bool
  pub kind_of : ℕ → Kind
  pub compose : EmailAccount → MassContact → Option Trouble
  pub send : EmailAccount → MassContact → Option Trouble
  pub walk : List ℕ → List ℕ
  pub report_text : EmailAccount → MassContact → String
  pub done_text : String
