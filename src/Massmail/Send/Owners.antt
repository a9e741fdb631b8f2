-- ===== src/Massmail/Send/Owners.antt =====
-- `check_owners`: in a pass each owner has one mailing.
use agamin_crm.Prelude.{
  Bool-cases, List, Option, [], arith, false, first, inl, inr, map, none, opt_eq, refl, select,
  some, true, ℕ, ◌∷◌, ◌≡◌,
}
use agamin_crm.Massmail.MailingOut.{MailingOut}
use agamin_crm.Massmail.Send.{holds, check_from, check_owners}

abbrev pub owners : List MailingOut → List (Option ℕ)
owners = map (λ o. o.owner)

-- No owner occurs twice, and none is in the list `seen`.
abbrev pub Distinct : List (Option ℕ) → List (Option ℕ) → Type 0
Distinct seen [] = Unit
Distinct seen (k ∷ ks) = (holds k seen ≡ false) × Distinct (k ∷ seen) ks

check_from-Distinct :
    (seen : List (Option ℕ)) (os : List MailingOut) → Distinct seen (owners (check_from seen os))
unfolding check_from
check_from-Distinct seen [] = tt
check_from-Distinct seen (o ∷ os) = elim (Bool-cases (holds o.owner seen)) [
  | inl old ↦ rw old (check_from-Distinct seen os)
  | inr new ↦ rw new (new, check_from-Distinct (o.owner ∷ seen) os)
]

-- The first mailing of an owner.
abbrev pub first_of_owner : Option ℕ → List MailingOut → Option MailingOut
first_of_owner k os = first (select (λ o. opt_eq k o.owner) os)

opt_eq_trans : (a b c : Option ℕ) → opt_eq a b ≡ true → opt_eq b c ≡ opt_eq a c
opt_eq_trans none none c h = refl
opt_eq_trans none (some b) c h = cc
opt_eq_trans (some a) none c h = cc
opt_eq_trans (some a) (some b) none h = refl
opt_eq_trans (some a) (some b) (some c) h = ground arith

holds-eq : (a b : Option ℕ) (xs : List (Option ℕ)) → opt_eq a b ≡ true → holds a xs ≡ holds b xs
unfolding holds
holds-eq a b [] h = refl
holds-eq a b (x ∷ xs) h = rw (opt_eq_trans a b x h, holds-eq a b xs h)

check_from-first :
    (k : Option ℕ) (seen : List (Option ℕ)) (os : List MailingOut)
    → holds k seen ≡ false
    → first_of_owner k (check_from seen os) ≡ first_of_owner k os
unfolding check_from
check_from-first k seen [] h = refl
check_from-first k seen (o ∷ os) h = elim (Bool-cases (opt_eq k o.owner)) [
  | inl same ↦ rw (← holds-eq k o.owner seen same, h, same)
  | inr other ↦ elim (Bool-cases (holds o.owner seen)) [
    | inl old ↦ rw (old, other) (check_from-first k seen os h)
    | inr new ↦
        rw (new, other) (check_from-first k (o.owner ∷ seen) os (unfold holds in rw (other, h)))
  ]
]

-- The mailings that a pass takes up have distinct owners, and for every owner it is the first of
-- his mailings, if he has one.
pub check_owners_lem :
    (k : Option ℕ) (os : List MailingOut)
    → Distinct [] (owners (check_owners os))
      × (first_of_owner k (check_owners os) ≡ first_of_owner k os)
unfolding check_owners
check_owners_lem k os = (check_from-Distinct [] os, check_from-first k [] os (unfold holds in refl))
