-- ===== src/Crm/OwnerExamples.antt =====
-- A change of owner and a duplicate, and what the theorems say of them.
use agamin_crm.Prelude.{
  All, Bool, Bool-cases, List, Option, [], false, if◌then◌else◌, inl, inr, map, none, not, opt_eq,
  refl, select, some, subst, true, ℕ, ◌&&◌, ◌==◌, ◌∷◌, ◌≡◌,
}
use agamin_crm.Massmail.Queue.{EmlAccountsQueue}
use agamin_crm.Massmail.World.{MassContact}
use agamin_crm.Massmail.Ids.{join_ids}
use agamin_crm.Crm.MassContacts.{Handover, Of}
use agamin_crm.Crm.Request.Search.Result.{In}
use agamin_crm.Crm.Duplicates.{Model, Related, get_data, Obj}
use agamin_crm.Crm.Duplicates.Relink.{Links, relate_to, relink_text, post}
use agamin_crm.Crm.Duplicates.Relink.Replace.{NoTwins, swap, relink_text_lem}
use agamin_crm.Crm.Duplicates.Relink.Unlinked.{Free, Shrinks, moved, is_related, post_unlinked}

abbrev queue : EmlAccountsQueue
queue = record { owner = some 1; queue = 7 ∷ 8 ∷ [] }

abbrev mass_contact : ℕ → ℕ → MassContact
mass_contact t k = record {
  id = k;
  content_type = t;
  object_id = k;
  email_account = some 3;
  massmail = true;
}

-- Company 5 with the contacts 11, 12 and 13; contact 14 is another company's.
abbrev sold : Of
sold = record {
  company_type = 1;
  contact_type = 2;
  company = 5;
  contacts = 11 ∷ 12 ∷ 13 ∷ [];
  accounts = 3 ∷ 7 ∷ 8 ∷ [];
}

abbrev owned : Handover
owned = record {
  queue = some queue;
  contacts =
      mass_contact 1 5
      ∷ mass_contact 2 11
      ∷ mass_contact 2 14
      ∷ mass_contact 2 12
      ∷ mass_contact 2 13
      ∷ [];
}

apart : NoTwins 12 90 (12 ∷ 3 ∷ 12 ∷ 112 ∷ 12 ∷ [])
unfolding NoTwins
apart = (refl, (refl, (refl, (refl, tt))))

relink_text_lem_example :
    (relink_text 12 90 (join_ids (12 ∷ 3 ∷ 12 ∷ 112 ∷ 12 ∷ []))
      ≡ join_ids (map (swap 12 90) (12 ∷ 3 ∷ 12 ∷ 112 ∷ 12 ∷ [])))
    × (relink_text 12 90 (join_ids (12 ∷ [])) ≡ join_ids (12 ∷ []))
relink_text_lem_example = relink_text_lem 12 90 12 3 (12 ∷ 112 ∷ 12 ∷ []) apart

abbrev blank : Obj
blank = record { value = λ f. []; related = λ f. [] }

abbrev links : Links
links = record {
  keys = λ r. some 12 ∷ none ∷ some 4 ∷ [];
  partner_contacts = some 12 ∷ [];
  mailings = join_ids (12 ∷ 3 ∷ []) ∷ [];
  files = (2, 12) ∷ (1, 12) ∷ [];
  mass_contacts = mass_contact 2 12 ∷ mass_contact 1 12 ∷ [];
}

-- The rows that refer to the contact 12 go with it.
abbrev deleted : Links → Links
deleted w = record w {
  keys = λ r. select (λ k. not (opt_eq k (some 12))) (w.keys r);
  partner_contacts = select (λ k. not (opt_eq k (some 12))) w.partner_contacts;
}

left : (p : Option ℕ → Bool) (k : Option ℕ) (ks : List (Option ℕ)) → In k (select p ks) → In k ks
left p k [] i = i
left p k (j ∷ ks) i = elim (Bool-cases (p j)) [
  | inl e ↦ elim (subst (λ b. In k (if b then j ∷ select p ks else select p ks)) e i) [
    | inl here ↦ inl here
    | inr there ↦ inr (left p k ks there)
  ]
  | inr e ↦ inr (left p k ks (subst (λ b. In k (if b then j ∷ select p ks else select p ks)) e i))
]

deleted-Shrinks : Shrinks deleted
deleted-Shrinks = record {
  no_key = λ w r k i. inr (left (λ j. not (opt_eq j (some 12))) k (w.keys r) i);
  no_file = λ w f i. i;
}

post_unlinked_example :
    let u = relate_to 2 12 90 Model.contact links in
    let v = (post 2 12 90 deleted Model.contact blank blank links).1 in
    ((r : Related)
      → u.keys r ≡ (
          if is_related r (get_data Model.contact).1
          then map (moved 2 12 90) (links.keys r)
          else links.keys r))
    × (u.partner_contacts ≡ links.partner_contacts)
    × ((r : Related) → is_related r (get_data Model.contact).1 ≡ true → Free 2 12 90 (v.keys r))
    × All (λ f. (f.0 == 2 && f.1 == 12) ≡ false) v.files
    × All (λ mc. (mc.content_type == 2 && mc.object_id == 12) ≡ false) v.mass_contacts
post_unlinked_example =
    post_unlinked 2 12 90 deleted Model.contact blank blank links refl deleted-Shrinks
