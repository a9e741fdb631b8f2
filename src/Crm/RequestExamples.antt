-- ===== src/Crm/RequestExamples.antt =====
-- Forms of a request from Bob, over the small database of Crm/Examples.
use agamin_crm.Prelude.{
  Bool, List, [], arith, false, none, refl, select, some, suc, true, zero, ℕ, ◌&&◌, ◌==◌, ◌∷◌, ◌≡◌,
}
use agamin_crm.Prelude.Action.{Outcome, returned, Leaves}
use agamin_crm.Crm.Records.{Text, Request}
use agamin_crm.Crm.Request.Create.{clean}
use agamin_crm.Crm.Request.Create.Accepts.{linked, linked-clean}
use agamin_crm.Crm.RequestForm.{City, RequestEdit, RequestSaving, save_model}
use agamin_crm.Crm.RequestForm.Saved.{IsSaved, save_model-IsSaved}
use agamin_crm.Crm.RequestForm.Creation.{Settings, create_deal}
use agamin_crm.Crm.RequestForm.Creation.Found.{AtMostOne}
use agamin_crm.Crm.RequestForm.Creation.OneDeal.{HasDeal, create_deal-HasDeal}
use agamin_crm.Crm.RequestForm.Creation.Clean.{create_deal-IsSaved}
use agamin_crm.Crm.RequestForm.WebRequest.{WebForm, LeadSource, Inbox, create_form_request}
use agamin_crm.Crm.RequestForm.WebRequest.Handled.{Handled, create_form_request-Handled}
use agamin_crm.Crm.Examples.{ann, db, from_bob}

abbrev cut : ℕ → Text → Text
cut zero t = []
cut (suc n) [] = []
cut (suc n) (c ∷ t) = c ∷ cut n t

abbrev same_letters : Text → Text → Bool
same_letters [] [] = true
same_letters [] (d ∷ ds) = false
same_letters (c ∷ cs) [] = false
same_letters (c ∷ cs) (d ∷ ds) = c == d && same_letters cs ds

abbrev cities_named : Text → ℕ → List City → Outcome (List City)
cities_named name k cs = returned (select (λ c. c.country == k && same_letters c.name name) cs)

abbrev edit : RequestEdit
edit = record {
  user = 5;
  is_manager = true;
  change = false;
  deal_button = true;
  changed_duplicate = false;
  changed_owner = false;
  changed_contact = false;
  changed_lead = false;
  changed_city_name = true;
}

abbrev opened : RequestSaving
opened = record {
  id = 20;
  obj = record from_bob { city_name = b'R' ∷ 46 ∷ 32 ∷ [] };
  row = none;
  cities = record { id = 8; country = 3; name = b'R' ∷ [] } ∷ [];
  deals = [];
  emails = [];
  sent = [];
}

opened-clean : clean opened.obj ≡ (returned tt, opened.obj)
unfolding linked
opened-clean = linked-clean opened.obj refl

save_model-IsSaved_example :
    Leaves
      (IsSaved opened.obj.company)
      (λ v. v.row ≡ opened.row)
      (save_model db cut cities_named 12 9 edit opened)
save_model-IsSaved_example = save_model-IsSaved db cut cities_named 12 9 edit opened opened-clean

abbrev tables : Settings
tables = record {
  stages =
      record {
        id = 3;
        department = some 6;
        default = true;
        second_default = false;
        success_stage = false;
        conditional_success_stage = false;
      }
      ∷ [];
  currencies = [];
  department_currency = λ k. some 1;
  user_department = some 6;
}

-- The request once it was saved, with a contact and a letter of its ticket.
abbrev checked : Request
checked = record from_bob {
  pending = false;
  owner = some 7;
  ticket = b't' ∷ [];
  contact = some ann;
}

abbrev processed : RequestSaving
processed = record opened {
  obj = checked;
  row = some checked;
  emails = record { ticket = b't' ∷ []; deal = none } ∷ [];
}

create_deal-HasDeal_example : Leaves HasDeal AtMostOne (create_deal db tables 30 edit processed)
create_deal-HasDeal_example =
    create_deal-HasDeal db tables 30 edit processed (omega arith) refl refl refl refl

processed-IsSaved : IsSaved none processed
unfolding linked
processed-IsSaved = record {
  in_row = refl;
  accepted = linked-clean checked refl;
  owned = refl;
  named = λ p. refl;
}

create_deal-IsSaved_example : IsSaved none (create_deal db tables 30 edit processed).1
create_deal-IsSaved_example = create_deal-IsSaved none db tables 30 edit processed processed-IsSaved

abbrev web_form : WebForm
web_form = record {
  name = b'b' ∷ [];
  email = b'y' ∷ [];
  subject = b's' ∷ [];
  phone = [];
  message = [];
  company = [];
  country = b'I' ∷ [];
  city = b'R' ∷ [];
}

abbrev site : LeadSource
site = record { id = 1; department = 6; default_country = none; email = b'w' ∷ [] }

-- The text of the form has no `x`.
abbrev inbox : Inbox
inbox = record {
  saving = opened;
  phrases = record { phrase = b'x' ∷ []; last_occurrence_date = 90 } ∷ [];
  stored_emails = [];
}

create_form_request-Handled_example : Handled (b't' ∷ []) web_form inbox (
    create_form_request db cut
      (λ n. returned 3)
      cities_named
      none
      9
      100
      (b't' ∷ [])
      web_form
      site
      inbox)
create_form_request-Handled_example =
    create_form_request-Handled db cut (λ n. returned 3) cities_named none 9 100 (b't' ∷ [])
      web_form site inbox
