-- ===== src/Crm/Request/Search/Result.antt =====
-- `find_contact_or_lead` as a whole.
use agamin_crm.Prelude.{
  All, Bool, List, [], arith, false, inl, inr, map, refl, select, true, ◌&&◌, ◌∷◌, ◌≡◌, ◌⊎◌,
}
use agamin_crm.Prelude.Action.{Outcome, returned, raised}
use agamin_crm.Crm.Records.{given, Contact, Request, Person, of_contact, of_lead, Db}
use agamin_crm.Crm.Request.Search.{
  Found, people, any_found, Look, hit, miss, take_first, email_fits, search1, one_found, look,
  set_contact, set_as_contact, set_as_lead, second_round, first_round, nothing_yet,
  find_contact_or_lead,
}
use agamin_crm.Crm.Request.Search.Hits.{FoundAll, LookAll, Named, look-Named}

-- The rows of a table.
abbrev pub In : {A : Type 0} → A → List A → Type 0
In a [] = ⊥
In a (x ∷ xs) = (a ≡ x) ⊎ In a xs

abbrev pub IsRow : Db → Person → Type 0
IsRow db (of_contact c) = In c db.contacts
IsRow db (of_lead l) = In l db.leads

-- What one round may hit.
abbrev IsContactRow : Db → Person → Type 0
IsContactRow db (of_contact c) = In c db.contacts
IsContactRow db (of_lead l) = ⊥

abbrev IsLeadRow : Db → Person → Type 0
IsLeadRow db (of_contact c) = ⊥
IsLeadRow db (of_lead l) = In l db.leads

every_row :
    {A : Type 0} (f : A → Person) (R : Person → Type 0) (xs : List A)
    → ((a : A) → In a xs → R (f a))
    → All R (map f xs)
every_row f R [] h = tt
every_row f R (x ∷ xs) h = (h x (inl refl), every_row f R xs (λ a i. h a (inr i)))

nothing_found : (Q : Person → Type 0) (f : Found) → any_found f ≡ false → FoundAll Q f
unfolding any_found
nothing_found Q f h = (
  none_given (people f.contacts1) (ground arith),
  none_given (people f.contacts2) (ground arith),
  none_given (people f.contacts3) (ground arith),
)
  where
    none_given : (ps : List Person) → given ps ≡ false → All Q ps
    none_given [] e = tt
    none_given (p ∷ ps) e = absurd (cc)

-- How a call ended: never by an exception; without success nothing is changed; with success there
-- is a row that fits the first name, and the request is marked with it.
abbrev pub Ended : Db → Request → Outcome Bool × Request → Type 0
Ended db r (returned true, r') =
    (p : Person) × IsRow db p × (db.by_first_name r p ≡ true) × (r' ≡ set_contact p r)
Ended db r (returned false, r') = r' ≡ r
Ended db r (raised e, r') = ⊥

second_round-Ended :
    (db : Db) (r : Request) (l : Look)
    → LookAll (Named db r (IsLeadRow db)) l
    → Ended db r (second_round db l r)
unfolding second_round set_as_lead
second_round-Ended db r (hit (of_contact c)) h = absurd h.0
second_round-Ended db r (hit (of_lead l)) h = (of_lead l, h.0, h.1, refl)
second_round-Ended db r (miss f) h = refl

first_round-Ended :
    (db : Db) (r : Request) (l : Look)
    → LookAll (Named db r (IsContactRow db)) l
    → Ended db r (first_round db l r)
unfolding first_round set_as_contact
first_round-Ended db r (hit (of_contact c)) h = (of_contact c, h.0, h.1, refl)
first_round-Ended db r (hit (of_lead l)) h = absurd h.0
first_round-Ended db r (miss f) h = second_round-Ended db r (look db r (map of_lead db.leads) f) (
    look-Named db r (IsLeadRow db) (map of_lead db.leads)
      (every_row of_lead (IsLeadRow db) db.leads (λ a i. i)) f
      (nothing_found (Named db r (IsLeadRow db)) f h))

-- `find_contact_or_lead` never raises. If it returns False the request is as it was. If it returns
-- True, there is a row of the contacts or of the leads whose first name fits the request's, and
-- the request is the old one after `_set_contact` with that row.
pub find_contact_or_lead_lem : (db : Db) (r : Request) → Ended db r (find_contact_or_lead db r)
unfolding find_contact_or_lead nothing_yet
find_contact_or_lead_lem db r =
    first_round-Ended db r (look db r (map of_contact db.contacts) nothing_yet) (
      look-Named db r (IsContactRow db) (map of_contact db.contacts)
        (every_row of_contact (IsContactRow db) db.contacts (λ a i. i)) nothing_yet (tt, tt, tt))

-- If one contact alone fits the email and the first name of the request, it is the one that is
-- set, whatever else the request says.
pub find_unique_email :
    (db : Db) (r : Request) (c : Contact)
    → given r.email ≡ true
    → select (λ p. db.by_email r p && db.by_first_name r p) (map of_contact db.contacts)
      ≡ of_contact c ∷ []
    → find_contact_or_lead db r ≡ (returned true, set_contact (of_contact c) r)
unfolding find_contact_or_lead look nothing_yet one_found search1 email_fits first_round
    set_as_contact take_first
find_unique_email db r c e h = rw (e, h) refl
