-- ===== src/Crm/DealExamples.antt =====
-- A deal of department 1 is closed without success.
use agamin_crm.Prelude.{
  List, [], arith, false, length, none, opt_eq, refl, some, suc, true, zero, ℕ, ◌++◌, ◌∷◌, ◌≡◌, ◌≤◌,
  ◌⊎◌,
}
use agamin_crm.Prelude.Action.{Returns, ◌>>◌}
use agamin_crm.Crm.Records.{Text}
use agamin_crm.Crm.Payments.{Payment, Status}
use agamin_crm.Crm.Deals.{
  Stage, ClosingReason, Deal, DealForm, DealSaving, the_stage, save_model, save_related, signature,
  sign,
}
use agamin_crm.Crm.Deals.Dated.{RowHasDate, Edits, Edit, Edits-RowHasDate}
use agamin_crm.Crm.Deals.Ends.{OneDefault, OneSuccess, Written, save_deal-Returns}
use agamin_crm.Crm.Deals.Kept.{safe_payments, Cleared, save_form-Returns, save_related-safe}
use agamin_crm.Crm.Deals.Signed.{sign-fits}

abbrev request_stage : Stage
request_stage = record {
  id = 1;
  department = some 1;
  default = true;
  second_default = false;
  success_stage = false;
  conditional_success_stage = false;
}

abbrev deal_stages : List Stage
deal_stages =
    request_stage
    ∷ record request_stage { id = 2; default = false; second_default = true }
    ∷ record request_stage { id = 3; default = false; success_stage = true }
    ∷ []

abbrev no_money : ClosingReason
no_money = record { id = 1; success_reason = false }

abbrev open_deal : Deal
open_deal = record {
  id = 4;
  owner = some 5;
  department = some 1;
  modified_by = none;
  lead = some 8;
  next_step = b'a' ∷ [];
  next_step_date = 70;
  workflow = [];
  stage = some request_stage;
  stages_dates = [];
  closing_date = none;
  win_closing_date = none;
  closing_reason = none;
  relevant = true;
  active = true;
  is_new = true;
  remind_me = false;
}

abbrev closing : DealForm
closing = record {
  user = 6;
  username = b'e' ∷ [];
  change = true;
  changed_next_step = true;
  changed_next_step_date = false;
  changed_remind_me = false;
  changed_closing_reason = true;
  changed_stage = false;
  changed_active = false;
  changed_relevant = false;
  changed_owner = false;
}

abbrev advance : Payment
advance = record {
  amount = 300;
  currency = some 1;
  deal = 4;
  payment_date = 60;
  status = Status.received;
  contract_number = [];
  invoice_number = [];
  order_number = [];
  through_representation = false;
}

abbrev selling : DealSaving
selling = record {
  obj = record open_deal { closing_reason = some no_money };
  row = some open_deal;
  leads = (8, some 5) ∷ [];
  payments = advance ∷ record advance { status = Status.guaranteed } ∷ [];
  reminders = [];
}

abbrev groups : ℕ → List ℕ
groups u = 1 ∷ []

abbrev keep_short : ℕ → Text → Text
keep_short zero t = []
keep_short (suc n) [] = []
keep_short (suc n) (c ∷ t) = c ∷ keep_short n t

keep_short-le : (n : ℕ) (t : Text) → length (keep_short n t) ≤ n
keep_short-le zero t = omega arith
keep_short-le (suc n) [] = omega arith
keep_short-le (suc n) (c ∷ t) = omega (arith, keep_short-le n t)

one_default : OneDefault deal_stages (some 1)
unfolding OneDefault the_stage
one_default = (request_stage, refl)

one_success : OneSuccess deal_stages (some 1)
unfolding OneSuccess the_stage
one_success = (record request_stage { id = 3; default = false; success_stage = true }, refl)

saved_twice :
    Edits deal_stages groups keep_short
      (some open_deal)
      (save_model deal_stages groups keep_short 7 60 (b'n' ∷ []) closing selling).1.row
saved_twice =
    Edits.next Edits.here
      (Edit.saved 7 60 (b'n' ∷ []) closing selling refl (λ e. (refl, refl)) refl)

Edits-RowHasDate_example :
    RowHasDate (save_model deal_stages groups keep_short 7 60 (b'n' ∷ []) closing selling).1.row
Edits-RowHasDate_example =
    Edits-RowHasDate deal_stages groups keep_short (some open_deal)
      (save_model deal_stages groups keep_short 7 60 (b'n' ∷ []) closing selling).1.row saved_twice
      (λ off. absurd (ground (arith, off)))

save_deal-Returns_example :
    Returns
      (Written 7 60 (b'n' ∷ []) closing selling.obj deal_stages)
      (save_model deal_stages groups keep_short 7 60 (b'n' ∷ []) closing selling)
save_deal-Returns_example =
    save_deal-Returns deal_stages groups keep_short 7 60 (b'n' ∷ []) closing selling one_default
      (λ r e won. one_success)

save_form-Returns_example : Returns (Cleared closing selling.obj) (
    (save_model deal_stages groups keep_short 7 60 (b'n' ∷ []) closing
        >> save_related (λ t. t) (some (9, 0)) (λ k. k) 1 closing (λ ps. ps))
      selling)
save_form-Returns_example =
    save_form-Returns deal_stages groups keep_short 7 60 (b'n' ∷ []) (λ t. t) 9 0 (λ k. k) 1
      (λ ps. ps) closing selling one_default (λ r e won. one_success) (omega arith) (λ c e. refl)

save_related-safe_example :
    safe_payments 4
      (save_related (λ t. t) (some (9, 0)) (λ k. k) 1 closing (λ ps. ps) selling).1.payments
    ≡ safe_payments 4 selling.payments
save_related-safe_example =
    save_related-safe (λ t. t) (some (9, 0)) (λ k. k) 1 closing (λ ps. ps) selling

sign-fits_example :
    (length (sign keep_short closing open_deal).next_step ≤ 250)
    × ((opt_eq open_deal.owner (some closing.user) ≡ true)
        ⊎ ((t : Text) × ((sign keep_short closing open_deal).next_step
              ≡ t ++ signature keep_short closing)))
sign-fits_example = sign-fits keep_short keep_short-le closing open_deal (omega arith) (omega arith)
