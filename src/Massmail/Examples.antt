-- ===== src/Massmail/Examples.antt =====
-- A small mailing, and what the theorems say of it.
use agamin_crm.Prelude.{
  All, List, [], arith, count, false, if◌then◌else◌, none, refl, some, true, ◌*◌, ◌+◌, ◌<◌, ◌==◌,
  ◌∷◌, ◌≡◌, ◌≢◌,
}
use agamin_crm.Prelude.Action.{returned}
use agamin_crm.Massmail.Queue.{EmlAccountsQueue, add_id, remove_id}
use agamin_crm.Massmail.Queue.Rotation.{IsUnique, edits-IsUnique}
use agamin_crm.Massmail.Ids.{get_ids, join_ids}
use agamin_crm.Massmail.Ids.RoundTrip.{get_ids-join_ids}
use agamin_crm.Massmail.MailingOut.{MailingOut, Held, Status}
use agamin_crm.Massmail.MailingOut.Conserves.{
  Lists, success, failure, retry, moves, Keeps, moves-Keeps,
}
use agamin_crm.Massmail.MailingOut.Counted.{Counted}
use agamin_crm.Massmail.Account.{EmailAccount, Tables, delete, the_one, owned_by}
use agamin_crm.Massmail.Account.Deletion.{Absent, delete-returns, delete_complete}
use agamin_crm.Massmail.World.{World, MassContact, Env, Kind, refused, failed}
use agamin_crm.Massmail.Send.{send_massmail}
use agamin_crm.Massmail.Send.Numbers.{AllCounted, send_massmail-AllCounted}
use agamin_crm.Massmail.Send.Outcomes.{attempt_outcomes, after as world_after, SwitchedOff}
use agamin_crm.Massmail.BusinessTime.{minute, day, get_seconds_to_business_time}
use agamin_crm.Massmail.BusinessTime.Arrival.{wait_ends_at_start}

abbrev queue : EmlAccountsQueue
queue = record { owner = some 1; queue = 7 ∷ 8 ∷ 9 ∷ [] }

abbrev account : EmailAccount
account = record {
  pk = 7;
  owner = some 1;
  department = some 2;
  co_owner = none;
  main = true;
  massmail = true;
  do_import = false;
  imap_host = "";
  email_host_user = "sender";
  report = [];
  today_date = some 100;
  today_count = 4;
}

abbrev mailing : MailingOut
mailing = record {
  id = 1;
  owner = some 1;
  department = some 2;
  name = "News";
  message = some 5;
  status = Status.active;
  recipients_number = 3;
  recipient_ids = join_ids (11 ∷ 12 ∷ 13 ∷ []);
  successful_ids = join_ids [];
  failed_ids = join_ids [];
  content_type = some 1;
  report = [];
  creation_date = 90;
  today_count = 0;
  sending_date = none;
}

abbrev held : Held
held = record { obj = mailing; row = mailing }

abbrev recipient : MassContact
recipient = record {
  id = 21;
  content_type = 1;
  object_id = 12;
  email_account = some 7;
  massmail = true;
}

abbrev env : Env
env = record {
  emails_per_day = 5;
  today = 100;
  mailing = true;
  testing = false;
  object_exists = λ t o. true;
  kind_of = λ t. Kind.contact;
  compose = λ ea mc. none;
  send = λ ea mc. if mc.object_id == 13 then some failed else none;
  walk = λ ids. ids;
  report_text = λ ea mc. "not sent";
  done_text = "done";
}

abbrev world : World
world = record {
  held = held;
  mailings = mailing ∷ [];
  accounts = account ∷ [];
  contacts = recipient ∷ [];
  queues = queue ∷ [];
  next_id = 30;
  sent = [];
  mails_to_admins = 0;
}

abbrev as_given : List MailingOut → List MailingOut
as_given os = os

mailing-Lists : Lists mailing (11 ∷ 12 ∷ 13 ∷ []) [] []
mailing-Lists = record {
  todo_text = get_ids-join_ids (11 ∷ 12 ∷ 13 ∷ []);
  good_text = get_ids-join_ids [];
  bad_text = get_ids-join_ids [];
}

mailing-Counted : Counted mailing
mailing-Counted = (
  11 ∷ 12 ∷ 13 ∷ [],
  [],
  [],
  get_ids-join_ids (11 ∷ 12 ∷ 13 ∷ []),
  get_ids-join_ids [],
  get_ids-join_ids [],
  refl,
)

world-AllCounted : AllCounted world
world-AllCounted = record {
  held = (mailing-Counted, mailing-Counted);
  table = (mailing-Counted, tt);
}

send_massmail-AllCounted_example : AllCounted (send_massmail env as_given world)
send_massmail-AllCounted_example =
    send_massmail-AllCounted env as_given world (λ Q xs h. h) world-AllCounted

moves-Keeps_example :
    Keeps
      (moves (success 12 ∷ failure 13 ∷ success 99 ∷ retry ∷ []) held).obj
      (11 ∷ 12 ∷ 13 ∷ [])
      []
      []
moves-Keeps_example =
    moves-Keeps (success 12 ∷ failure 13 ∷ success 99 ∷ retry ∷ []) held (11 ∷ 12 ∷ 13 ∷ []) [] []
      mailing-Lists

attempt_outcomes_example :
    Lists (world_after env account recipient world none).held.obj (11 ∷ 13 ∷ []) (12 ∷ []) []
    × Lists
        (world_after env account recipient world (some failed)).held.obj
        (11 ∷ 13 ∷ [])
        []
        (12 ∷ [])
    × Lists
        (world_after env account recipient world (some refused)).held.obj
        (11 ∷ 12 ∷ 13 ∷ [])
        []
        []
    × SwitchedOff account (world_after env account recipient world (some refused)).accounts
attempt_outcomes_example =
    attempt_outcomes env account recipient world (11 ∷ 12 ∷ 13 ∷ []) [] [] (11 ∷ 13 ∷ [])
      mailing-Lists refl

queue-IsUnique : IsUnique queue
unfolding IsUnique
queue-IsUnique a = ground arith

abbrev tables : Tables
tables = record { accounts = account ∷ []; queues = queue ∷ [] }

one_queue : the_one (owned_by account.owner tables.queues) ≡ returned queue
unfolding the_one owned_by
one_queue = refl

delete_complete_example :
    All (λ b. b.pk ≢ account.pk) (delete account tables).1.accounts
    × Absent account (delete account tables).1.queues
delete_complete_example =
    delete_complete account tables (queue-IsUnique, tt)
      (delete-returns account tables queue one_queue)

get_ids-join_ids_example : get_ids (join_ids (10 ∷ 0 ∷ 305 ∷ [])) ≡ some (10 ∷ 0 ∷ 305 ∷ [])
get_ids-join_ids_example = get_ids-join_ids (10 ∷ 0 ∷ 305 ∷ [])

edits-IsUnique_example :
    IsUnique (add_id 8 queue)
    × IsUnique (remove_id 8 queue)
    × (count 8 (remove_id 8 queue).queue ≡ 0)
edits-IsUnique_example = edits-IsUnique 8 queue queue-IsUnique

thursday_wait : 0 < get_seconds_to_business_time 3 1200 5 510 1050
unfolding get_seconds_to_business_time
thursday_wait = ground arith

-- Thursday at 20:00: the wait ends on Friday.
wait_ends_at_start_example :
    3 * day + (1200 * minute + 5) + get_seconds_to_business_time 3 1200 5 510 1050
    ≡ 4 * day + (510 * minute + 5)
wait_ends_at_start_example =
    wait_ends_at_start 3 1200 5 510 1050 (omega arith) (omega arith) (omega arith) (omega arith)
      (omega arith) (omega arith) thursday_wait
