-- ===== src/Massmail/ExcludeExamples.antt =====
-- Mailing 2 has recipient 12 in line, whom mailing 1 has reached.
use agamin_crm.Prelude.{List, [], none, some, ◌∷◌}
use agamin_crm.Massmail.MailingOut.{MailingOut, Status}
use agamin_crm.Massmail.Ids.{join_ids}

abbrev done_mailing : MailingOut
done_mailing = record {
  id = 1;
  owner = some 1;
  department = some 2;
  name = "News";
  message = some 5;
  status = Status.done;
  recipients_number = 2;
  recipient_ids = [];
  successful_ids = join_ids (11 ∷ 12 ∷ []);
  failed_ids = [];
  content_type = some 1;
  report = [];
  creation_date = 90;
  today_count = 0;
  sending_date = none;
}

abbrev next_mailing : MailingOut
next_mailing = record done_mailing {
  id = 2;
  recipient_ids = join_ids (12 ∷ 13 ∷ []);
  successful_ids = [];
}

abbrev mailings : List MailingOut
mailings = done_mailing ∷ next_mailing ∷ []
