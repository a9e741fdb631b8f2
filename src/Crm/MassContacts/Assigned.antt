-- ===== src/Crm/MassContacts/Assigned.antt =====
-- The accounts go round among the mass contacts.
use agamin_crm.Prelude.{
  All, List, Option, [], contains, if◌then◌else◌, none, some, true, ℕ, ◌∷◌, ◌≡◌,
}
use agamin_crm.Prelude.Action.{Outcome, returned}
use agamin_crm.Massmail.Queue.{EmlAccountsQueue}
use agamin_crm.Massmail.World.{MassContact}
use agamin_crm.Crm.MassContacts.{Handover, Of, is_contact, update_company, delete_all}

set_to : ℕ → MassContact → MassContact
set_to a mc = record mc { email_account = some a }

-- What the accounts `all` are to be: dealt to the contacts of the company in turn, the hand `xs`
-- first, and from the start again when it is used up.
pub deal : Of → List ℕ → List ℕ → List MassContact → List MassContact
unfolding set_to
deal of all xs [] = []
deal of all [] (mc ∷ mcs) = elim all [
  | [] ↦ mc ∷ mcs
  | a ∷ rest ↦
      if is_contact of mc then set_to a mc ∷ deal of all rest mcs else mc ∷ deal of all [] mcs
]
deal of all (a ∷ xs) (mc ∷ mcs) =
    if is_contact of mc then set_to a mc ∷ deal of all xs mcs else mc ∷ deal of all (a ∷ xs) mcs

-- The mass contacts after a change of the owner.
pub dealt : Of → Option EmlAccountsQueue → List MassContact → List MassContact
unfolding deal
dealt of none mcs = delete_all of mcs
dealt of (some q) mcs = elim q.queue [
  | [] ↦ delete_all of mcs
  | a ∷ rest ↦ deal of (a ∷ rest) rest (update_company of a mcs)
]

abbrev queue_of : Option ℕ → List ℕ → EmlAccountsQueue
queue_of o xs = record { owner = o; queue = xs }

-- All accounts of a list are in the table.
abbrev pub Stored : Of → List ℕ → Type 0
Stored of = All (λ a. contains a of.accounts ≡ true)

-- What a run of the loop is to give: no exception and these mass contacts.
Gives : Outcome (Unit {0}) × List MassContact × EmlAccountsQueue → List MassContact → Type 0
Gives r mcs = (r.0 ≡ returned tt) × (r.1 ≡ mcs)

Changed : Outcome (Unit {0}) × Handover → List MassContact → Type 0
Changed r mcs = (r.0 ≡ returned tt) × (r.1.contacts ≡ mcs)
