-- ===== src/Lib.antt =====
-- A model of the core of the CRM: its mass mailing, its matching of requests, its payments and
-- exchange rates, and its tasks. Paths are those of the repository.
--
-- Prelude holds what the parts share: lists over the native numbers (Prelude/Lists), Boolean tests
-- (Prelude/Tests), and methods that change objects and may raise (Prelude/Action): an action maps a
-- state to an outcome and the state after it, and what was assigned before an exception stays.
--
-- Common, the package common:
--   Base           `add_to_workflow` and `Base1.clean` of common/models.py
--   Reminders      `send_remainders` of common/utils/reminders_sender.py
--   RemindMe       `remind_me` of common/utils/remind_me.py, over the table of Reminders
--   Letters        common/utils/email_to_participants.py
--   Transfer       common/views/user_transfer.py
--   FullName       common/utils/parse_full_name.py; how a long text is cut is a parameter
--
-- Massmail, the package massmail:
--   Queue          massmail/models/eml_accounts_queue.py, the round robin of a user's accounts
--   Ids            the texts of ids in massmail/models/mailing_out.py, character by character
--   MailingOut     massmail/models/mailing_out.py; an action works on the object and on its row
--   Exclude        massmail/views/exclude.py, `exclude_recipients`
--   Account        massmail/models/email_account.py, `clean` and `delete`
--   World, Send    massmail/utils/sendmassmail.py: `send_massmail` is one pass over the active
--                  mailings, and Send/Contacts the records that tie a recipient to an account.
--                  Each function of the source is one of the model; the body of its loop over the
--                  accounts is `visit`, which `approach`, `attempt` and `settle` continue.
--   BusinessTime   `get_seconds_to_business_time`, in microseconds
-- A pass changes the tables in `World`. What happens outside is in `Env`: whether an object is still
-- there, how composing and sending a message to it end, and in which order Python walks a set. The
-- order of the mailings, which the database draws, is a parameter as well; the theorem that needs it
-- assumes only that it gives rows of the table.
--
-- Crm, the package crm:
--   Records             the objects of crm/models/request.py, contact.py, lead.py and company.py,
--                       and how the database compares their texts
--   Request/Search      `find_contact_or_lead` and `_set_contact`
--   Request/Website     `parseweb`
--   Request/Company     `find_company`
--   Request/Create      `clean`, `get_or_create_contact_or_lead` and `update_request_data`
--   Payments            crm/models/payment.py
--   Rates               crm/utils/rates_loader.py; what a bank answers is the parameter `ask`
--   Deals               crm/models/deal.py, and `save_model` and `save_related` of
--                       crm/site/dealadmin.py, with the reminder of Common and the payments
--   RequestForm         `save_model` of crm/site/requestadmin.py with crm/utils/check_city.py, and in
--                       RequestForm/Creation its button for a deal; RequestForm/WebRequest is
--                       crm/utils/create_form_request.py; the searches for a city and a country
--                       are parameters; a letter stands without its text
--   MassContacts        crm/utils/change_massconts.py, over the queue of Massmail
--   Duplicates          `get_data` and `update_fields` of crm/views/delete_duplicate_object.py, and in
--                       Duplicates/Relink `relate_to`, with its regular expressions on the texts of
--                       ids, and `post`; the deletion itself is a parameter
-- How the database compares texts is in the record `Db`, with the tables in the order of their keys.
--
-- Tasks, the package tasks:
--   Models              tasks/models/task.py, taskbase.py, taskstage.py and stagebase.py: the
--                       fields, `clean` and `save`; and `get_delta_date` of common/utils/helpers.py
--   Steps               `update_next_step_and_workflow` of tasks/site/taskadmin.py
--   Closing             `check_and_deacte_main_task` and `copy_files_to_maintask` of
--                       tasks/models/task.py, and `check_subtasks` of tasks/views/create_completed_subtask.py
--   Participants        who is told of a task, in tasks/site/tasksbasemodeladmin.py
--   Permissions         who may see, change and delete a task, in the same file
--   Memos               tasks/models/memo.py and, of tasks/site/memoadmin.py, the saves of the form
--                       and the permissions (Memos/Access)
--   Saving              `save_model` (Saving/Model) and `save_related` (Saving/Related) of
--                       tasks/site/taskadmin.py, with what they call in tasksbasemodeladmin.py
-- The main task of a subtask is one object in memory that `save_model` and `save_related` change and
-- write to its row, whole or some of its fields; both the object and the table are in `Saving`.
-- What a form of a task does to the memo it was created from is `take_up_memo` of Memos.
--
-- Examples, and the files whose names end in Examples, are small data and the theorems at them.
--
-- The records leave out fields that are only stored, and each file says so where it does.
--
-- Loops are recursion over the list that the source takes apart. The one loop of the source without
-- a bound, over the payments in `get_rates`, is recursion on a number of turns; one turn more than
-- there are waiting payments is enough. The loop of `email_to_participants` is recursion on the
-- number of the recipients, of which every turn takes one at least. Numbers are not bounded, as in Python; a field that the
-- database keeps from being negative raises an exception instead.
--
-- Not modelled: the forms and pages of the admin site, import of email, the chat, analytics, VoIP,
-- the permissions of Django, templates and translations; the threads with their sleeping; and formatting of
-- reports, which are texts of the environment. They are input and output over Django and other
-- libraries, or parts that no modelled code calls.
mod Prelude
pub mod Common
pub mod Crm
pub mod Massmail
pub mod Tasks
