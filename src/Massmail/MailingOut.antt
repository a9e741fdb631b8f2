-- ===== src/Massmail/MailingOut.antt =====
-- massmail/models/mailing_out.py: a mailing, with the ids of its recipients in three texts. An action
-- works on `Held`: the object in memory, and the row of the database that `save` overwrites.
pub mod Conserves
pub mod Counted
use agamin_crm.Prelude.{List, Option, String, [], remove, ℕ, ◌++◌, ◌∷◌}
use agamin_crm.Prelude.Action.{Action, value_error, or_raise, modify, ◌>>=◌, ◌>>◌}
use agamin_crm.Massmail.Ids.{get_ids, join_ids}

pub data Status : Type 0 where
  active active_but_error paused interrupted done : Status

pub record MailingOut : Type 0 where
  pub id : ℕ
  pub owner : Option ℕ
  pub department : Option ℕ
  pub name : String
  pub message : Option ℕ
  pub status : Status
  pub recipients_number : ℕ
  pub recipient_ids : List ℕ
  pub successful_ids : List ℕ
  pub failed_ids : List ℕ
  pub content_type : Option ℕ
  pub report : List String
  pub creation_date : ℕ
  pub today_count : ℕ
  pub sending_date : Option ℕ

pub record Held : Type 0 where
  pub obj : MailingOut
  pub row : MailingOut

unfoldable pub save : Action Held (Unit {0})
save = modify (λ h. record h { row = h.obj })

abbrev set_obj : (MailingOut → MailingOut) → Action Held (Unit {0})
set_obj f = modify (λ h. record h { obj = f h.obj })

pub get_successful_ids : Action Held (List ℕ)
get_successful_ids h = or_raise (get_ids h.obj.successful_ids) value_error h

pub get_failed_ids : Action Held (List ℕ)
get_failed_ids h = or_raise (get_ids h.obj.failed_ids) value_error h

pub get_recipient_ids : Action Held (List ℕ)
get_recipient_ids h = or_raise (get_ids h.obj.recipient_ids) value_error h

-- `list.remove` raises `ValueError` where the id is missing.
pub remove_recipient_ids : ℕ → Action Held (Unit {0})
unfolding get_recipient_ids
remove_recipient_ids recipient_id = do
  recipient_ids ← get_recipient_ids
  rest ← or_raise (remove recipient_id recipient_ids) value_error
  set_obj (λ o. record o { recipient_ids = join_ids rest })

pub move_to_successful_ids : ℕ → Action Held (Unit {0})
unfolding remove_recipient_ids get_successful_ids save
move_to_successful_ids recipient_id = do
  remove_recipient_ids recipient_id
  successful_ids ← get_successful_ids
  set_obj (λ o. record o { successful_ids = join_ids (successful_ids ++ recipient_id ∷ []) })
  save

pub move_to_failed_ids : ℕ → Action Held (Unit {0})
unfolding remove_recipient_ids get_failed_ids save
move_to_failed_ids recipient_id = do
  remove_recipient_ids recipient_id
  failed_ids ← get_failed_ids
  set_obj (λ o. record o { failed_ids = join_ids (failed_ids ++ recipient_id ∷ []) })
  save

-- Puts the failed recipients back in line.
pub move_to_recipient_ids : Action Held (Unit {0})
unfolding get_recipient_ids get_failed_ids save
move_to_recipient_ids = do
  recipient_ids ← get_recipient_ids
  failed_ids ← get_failed_ids
  set_obj (λ o. record o { recipient_ids = join_ids (recipient_ids ++ failed_ids) })
  set_obj (λ o. record o { failed_ids = [] })
  save
