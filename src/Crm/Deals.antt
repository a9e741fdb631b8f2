-- ===== src/Crm/Deals.antt =====
-- What the form of a deal does when it is saved: crm/models/deal.py, and `save_model` and
-- `save_related` of crm/site/dealadmin.py. Texts are lists of code points; fields that neither
-- method reads or writes are left out.
pub mod Dated
pub mod Ends
pub mod Kept
pub mod Signed
use agamin_crm.Prelude.{
  Bool, List, Option, [], false, first, if◌then◌else◌, is_some, length, ltb, none, not, opt_eq,
  select, some, true, ℕ, ◌&&◌, ◌++◌, ◌-◌, ◌==◌, ◌||◌, ◌∷◌,
}
use agamin_crm.Prelude.Action.{
  Action, Outcome, returned, raised, attribute_error, does_not_exist, multiple_objects_returned,
  modify, ◌>>=◌, ◌>>◌,
}
use agamin_crm.Crm.Records.{Text}
use agamin_crm.Crm.Payments.{Payment, is_received}
use agamin_crm.Common.Reminders.{Reminder}
use agamin_crm.Common.RemindMe.{ReminderForm, remind_me}

pub record Stage : Type 0 where
  pub id : ℕ
  pub department : Option ℕ
  pub default : Bool
  pub second_default : Bool
  pub success_stage : Bool
  pub conditional_success_stage : Bool

pub record ClosingReason : Type 0 where
  pub id : ℕ
  pub success_reason : Bool

-- `workflow` is the list of the pieces that were put together, the newest entry first, and
-- `stages_dates` that of the lines, each a date and the stage of that day, the newest last.
pub record Deal : Type 0 where
  pub id : ℕ
  pub owner : Option ℕ
  pub department : Option ℕ
  pub modified_by : Option ℕ
  pub lead : Option ℕ
  pub next_step : Text
  pub next_step_date : ℕ
  pub workflow : List Text
  pub stage : Option Stage
  pub stages_dates : List (Text × Option ℕ)
  pub closing_date : Option ℕ
  pub win_closing_date : Option ℕ
  pub closing_reason : Option ClosingReason
  pub relevant : Bool
  pub active : Bool
  pub is_new : Bool
  pub remind_me : Bool

-- The request and the form: `change`, and what `changed_data` tells.
pub record DealForm : Type 0 where
  pub user : ℕ
  pub username : Text
  pub change : Bool
  pub changed_next_step : Bool
  pub changed_next_step_date : Bool
  pub changed_remind_me : Bool
  pub changed_closing_reason : Bool
  pub changed_stage : Bool
  pub changed_active : Bool
  pub changed_relevant : Bool
  pub changed_owner : Bool

-- The object in memory, its row, and the tables that the two methods change; of a lead, its key and
-- its owner.
pub record DealSaving : Type 0 where
  pub obj : Deal
  pub row : Option Deal
  pub leads : List (ℕ × Option ℕ)
  pub payments : List Payment
  pub reminders : List Reminder

pub change_deal : (Deal → Deal) → DealSaving → DealSaving
change_deal g w = record w { obj = g w.obj }

pub stage_id : Option Stage → Option ℕ
stage_id none = none
stage_id (some s) = some s.id

-- `Deal.change_stage_data`
pub change_stage_data : Text → Deal → Deal
unfolding stage_id
change_stage_data date d = record d {
  stages_dates = d.stages_dates ++ ((date, stage_id d.stage) ∷ []);
}

-- `objects.get`
unfoldable pub the_stage : List Stage → Outcome Stage
the_stage [] = raised does_not_exist
the_stage (s ∷ []) = returned s
the_stage (s ∷ t ∷ ss) = raised multiple_objects_returned

pub is_default : Deal → Stage → Bool
is_default d s = s.default && opt_eq s.department d.department

pub is_success : Deal → Stage → Bool
is_success d s = s.success_stage && opt_eq s.department d.department

pub is_won : Deal → Stage → Bool
is_won d s = (s.success_stage || s.conditional_success_stage) && opt_eq s.department d.department

pub is_second_default : Deal → Stage → Bool
is_second_default d s = s.second_default && opt_eq s.department d.department

pub is_one_of : Option Stage → List Stage → Bool
is_one_of none ss = false
is_one_of (some s) [] = false
is_one_of (some s) (t ∷ ss) = s.id == t.id || is_one_of (some s) ss

-- `obj.lead.owner = obj.owner` and `obj.lead.save()`
pub set_lead_owner : ℕ → Option ℕ → List (ℕ × Option ℕ) → List (ℕ × Option ℕ)
set_lead_owner k owner [] = []
set_lead_owner k owner ((j, o) ∷ ls) = (j, if j == k then owner else o) ∷ set_lead_owner k owner ls

module _ (stages : List Stage) where
  -- Look a stage up and go on with it; an exception ends the method.
  pub with_the_stage : (Deal → Stage → Bool) → (Stage → Deal → Deal) → Action DealSaving (Unit {0})
  unfolding the_stage change_deal
  with_the_stage p g w = elim (the_stage (select (p w.obj) stages)) [
    | returned s ↦ (returned tt, change_deal (g s) w)
    | raised e ↦ (raised e, w)
  ]

  -- `if not obj.stage`
  pub set_default_stage : Action DealSaving (Unit {0})
  unfolding with_the_stage is_default
  set_default_stage w = elim w.obj.stage [
    | none ↦ with_the_stage is_default (λ s d. record d { stage = some s }) w
    | some s ↦ (returned tt, w)
  ]

  -- The last of the `if` blocks on the stage: `obj.stage` is `s`.
  pub leave_default : Stage → Stage → Deal → Deal
  unfolding is_second_default
  leave_default s default_stage d =
      if s.id == default_stage.id
      then elim (first (select (is_second_default d) stages)) [
        | none ↦ d
        | some second ↦ record d { stage = some second }
      ]
      else d

  pub set_second_default : DealForm → Action DealSaving (Unit {0})
  unfolding with_the_stage leave_default is_default
  set_second_default f w =
      if f.change
      then elim w.obj.stage [
        | none ↦ (returned tt, w)
        | some s ↦ with_the_stage is_default (leave_default s) w
      ]
      else (returned tt, w)

module _ (truncatechars : ℕ → Text → Text) (f : DealForm) where
  -- ` ({request.user.username})`
  pub signature : Text
  signature = 32 ∷ 40 ∷ (f.username ++ (41 ∷ []))

  -- The text is kept within the field; a username is not longer than 150.
  pub sign : Deal → Deal
  unfolding signature
  sign d = if opt_eq d.owner (some f.user) then d else record d {
    next_step =
        (if ltb 250 (length (d.next_step ++ signature))
          then truncatechars (250 - length signature) d.next_step
          else d.next_step)
        ++ signature;
  }

  -- `add_to_workflow`
  pub enter_step : Text → Deal → Deal
  enter_step f_date d = record d {
    workflow = f_date ∷ (32 ∷ 45 ∷ 32 ∷ []) ∷ d.next_step ∷ (10 ∷ []) ∷ d.workflow;
  }

  pub change_step : Text → Deal → Deal
  unfolding sign enter_step
  change_step f_date d = if f.changed_next_step then enter_step f_date (sign d) else d

module _ (stages : List Stage) (now today : ℕ) (f_date : Text) (f : DealForm) where
  pub win : Stage → Deal → Deal
  unfolding change_stage_data
  win s d = record (change_stage_data f_date (record d { stage = some s })) {
    win_closing_date = some now;
  }

  pub close_by : Option ClosingReason → Action DealSaving (Unit {0})
  unfolding change_deal with_the_stage is_success win
  close_by none w =
      (returned tt, change_deal (λ d. record d { active = true; closing_date = none }) w)
  close_by (some r) w =
      let closed = change_deal (λ d. record d { active = false; closing_date = some today }) w in
      if r.success_reason
      then with_the_stage stages is_success win closed
      else (returned tt, closed)

  pub change_closing_reason : Action DealSaving (Unit {0})
  unfolding close_by
  change_closing_reason w =
      if f.changed_closing_reason then close_by w.obj.closing_reason w else (returned tt, w)

  pub change_stage : Deal → Deal
  unfolding change_stage_data is_one_of is_won
  change_stage d =
      if f.changed_stage
      then (if is_one_of d.stage (select (is_won d) stages)
          then record (change_stage_data f_date d) { win_closing_date = some now }
          else change_stage_data f_date d)
      else d

module _ (today : ℕ) (f : DealForm) where
  pub change_active : Deal → Deal
  change_active d =
      if f.changed_active
      then (if d.active
          then record d { relevant = true }
          else record d { closing_date = some today })
      else d

  pub change_relevant : Deal → Deal
  change_relevant d =
      if f.changed_relevant && not d.relevant
      then record d { active = false; closing_date = some today }
      else d

module _ (f : DealForm) where
  pub change_owner : DealSaving → DealSaving
  unfolding set_lead_owner
  change_owner w =
      if f.changed_owner
      then elim w.obj.lead [
        | none ↦ w
        | some k ↦ record w { leads = set_lead_owner k w.obj.owner w.leads }
      ]
      else w

  pub mark_seen : Deal → Deal
  mark_seen d = if d.is_new && opt_eq d.owner (some f.user) then record d { is_new = false } else d

  -- `set_owner` of common/site/basemodeladmin.py; `departments` gives the departments of a user.
  pub set_deal_owner : (ℕ → List ℕ) → Deal → Deal
  set_deal_owner departments d =
      let owner : ℕ = elim d.owner [ none ↦ f.user | some u ↦ u ] in
      record d {
        modified_by = some f.user;
        owner = some owner;
        department = if is_some d.department then d.department else first (departments owner);
      }

-- `super().save_model`, which writes the row.
pub save_deal : DealSaving → DealSaving
save_deal w = record w { row = some w.obj }

-- `departments` gives the departments of a user, and `truncatechars` is Django's.
module _ (stages : List Stage) (departments : ℕ → List ℕ) (truncatechars : ℕ → Text → Text)
    (now today : ℕ) (f_date : Text) (f : DealForm) where
  -- The blocks up to that on the stage, and those behind it.
  pub first_blocks : Action DealSaving (Unit {0})
  unfolding set_default_stage change_deal change_step change_closing_reason change_stage
  first_blocks = do
    set_default_stage stages
    modify (change_deal (change_step truncatechars f f_date))
    change_closing_reason stages now today f_date f
    modify (change_deal (change_stage stages now today f_date f))

  pub last_blocks : Action DealSaving (Unit {0})
  unfolding change_deal change_active change_relevant change_owner set_second_default mark_seen
      set_deal_owner save_deal
  last_blocks = do
    modify (change_deal (λ d. change_relevant today f (change_active today f d)))
    modify (change_owner f)
    set_second_default stages f
    modify (change_deal (λ d. set_deal_owner f departments (mark_seen f d)))
    modify save_deal

  pub save_model : Action DealSaving (Unit {0})
  unfolding first_blocks last_blocks
  save_model = first_blocks >> last_blocks

-- `remind_me(request, form, change)`; `content` gives the key of the deal among all objects.
pub reminder_form : (ℕ → ℕ) → DealForm → Deal → ReminderForm
reminder_form content f d = record {
  is_change = f.change;
  user = f.user;
  content_object = content d.id;
  remind_me = d.remind_me;
  next_step = d.next_step;
  next_step_date = some d.next_step_date;
  changed_remind_me = f.changed_remind_me;
  changed_next_step = f.changed_next_step;
  changed_next_step_date = f.changed_next_step_date;
}

pub is_unpaid : ℕ → Payment → Bool
is_unpaid k p = p.deal == k && not (is_received p.status)

pub drop_payments : Option ClosingReason → Action DealSaving (Unit {0})
unfolding is_unpaid
drop_payments none w = (raised attribute_error, w)
drop_payments (some r) w = (
  returned tt,
  if r.success_reason
      then w
      else record w { payments = select (λ p. not (is_unpaid w.obj.id p)) w.payments },
)

-- `super().save_related` saves, adds and deletes the payments of the form: `formset` is what it makes
-- of the table when it raises nothing.
pub save_formset : (List Payment → List Payment) → DealSaving → DealSaving
save_formset formset w = record w { payments = formset w.payments }

-- `aware` and `start` are those of Common.RemindMe, `key` that of a new reminder.
module _ (aware : ℕ → ℕ) (start : Option (ℕ × ℕ)) (content : ℕ → ℕ) (key : ℕ) (f : DealForm) where
  pub remind : Action DealSaving (Unit {0})
  unfolding reminder_form
  remind w =
      let (r, rs) = remind_me aware start key (reminder_form content f w.obj) w.reminders in
      (r, record w { reminders = rs })

  pub save_related : (List Payment → List Payment) → Action DealSaving (Unit {0})
  unfolding remind drop_payments save_formset
  save_related formset = do
    modify (save_formset formset)
    remind
    λ w.
        if f.changed_closing_reason && not w.obj.active
        then drop_payments w.obj.closing_reason w
        else (returned tt, w)
