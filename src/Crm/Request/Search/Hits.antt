-- ===== src/Crm/Request/Search/Hits.antt =====
-- What the search for a person finds.
use agamin_crm.Prelude.{
  All, Bool, Bool-cases, List, Option, [], arith, false, first, inl, inr, length, ltb, refl, select,
  true, ℕ, ◌&&◌, ◌==◌, ◌||◌, ◌∷◌, ◌≡◌,
}
use agamin_crm.Crm.Records.{given, Request, Person, has_phone_query, Db}
use agamin_crm.Crm.Request.Search.{
  Found, people, any_found, Look, hit, miss, take_first, names_fit, size, search1, search2, search3,
  search4, fallback, use_company, one_found, look,
}

-- Each person in the variables has a property.
abbrev pub FoundAll : (Person → Type 0) → Found → Type 0
FoundAll Q f = All Q (people f.contacts1) × All Q (people f.contacts2) × All Q (people f.contacts3)

-- A hit has the property, and a miss leaves the variables empty.
abbrev pub LookAll : (Person → Type 0) → Look → Type 0
LookAll Q (hit p) = Q p
LookAll Q (miss f) = any_found f ≡ false

select-All :
    (Q : Person → Type 0) (t : Person → Bool) (ps : List Person) → All Q ps → All Q (select t ps)
select-All Q t [] h = tt
select-All Q t (p ∷ ps) h = elim (Bool-cases (t p)) [
  | inl keep ↦ rw keep (h.0, select-All Q t ps h.1)
  | inr drop ↦ rw drop (select-All Q t ps h.1)
]

take_first-All :
    (Q : Person → Type 0) (ps : List Person) (f : Found)
    → All Q ps
    → given ps ≡ true
    → LookAll Q (take_first ps f)
unfolding take_first
take_first-All Q [] f h g = cc
take_first-All Q (p ∷ ps) f h g = h.0

take_last-All :
    (Q : Person → Type 0) (ps : List Person) (f : Found)
    → All Q ps
    → (given ps ≡ false → any_found f ≡ false)
    → LookAll Q (take_first ps f)
unfolding take_first
take_last-All Q [] f h g = g refl
take_last-All Q (p ∷ ps) f h g = h.0

fallback-All :
    (db : Db) (r : Request) (Q : Person → Type 0) (f : Found)
    → FoundAll Q f
    → LookAll Q (fallback db r f)
unfolding fallback any_found
fallback-All db r Q f (a1, a2, a3) = elim (Bool-cases (given (people f.contacts3))) [
  | inl three ↦ rw three (take_first-All Q (people f.contacts3) f a3 three)
  | inr no3 ↦ elim (Bool-cases (given (people f.contacts2))) [
    | inl two ↦ rw (no3, two) (take_first-All Q (people f.contacts2) f a2 two)
    | inr no2 ↦ rw (no3, no2) (take_last-All Q (people f.contacts1) f a1 (λ no1. ground arith))
  ]
]

given_of_size : (ps : List Person) → (length ps == 1) ≡ true → given ps ≡ true
given_of_size [] h = cc
given_of_size (p ∷ ps) h = refl

given_of_used :
    (used : Bool) (ps : Option (List Person))
    → (size used ps == 1) ≡ true
    → given (people ps) ≡ true
given_of_used true ps h = given_of_size (people ps) h
given_of_used false ps h = cc

module _ (db : Db) (r : Request) (R : Person → Type 0) where
  -- A row that fits the first name of the request.
  abbrev pub Named : Person → Type 0
  Named p = R p × (db.by_first_name r p ≡ true)

  select-Named :
      (t : Person → Bool) (ps : List Person)
      → ((p : Person) → t p ≡ true → db.by_first_name r p ≡ true)
      → All R ps
      → All Named (select t ps)
  select-Named t [] first h = tt
  select-Named t (p ∷ ps) first h = elim (Bool-cases (t p)) [
    | inl keep ↦ rw keep ((h.0, first p keep), select-Named t ps first h.1)
    | inr drop ↦ rw drop (select-Named t ps first h.1)
  ]

  module _ (rows : List Person) (all : All R rows) where
    search1-Named : (f : Found) → FoundAll Named f → FoundAll Named (search1 db r rows f)
    unfolding search1
    search1-Named f (a1, a2, a3) = elim (Bool-cases (given r.email)) [
      | inl used ↦ rw used (select-Named _ rows (λ p h. ground arith) all, a2, a3)
      | inr old ↦ rw old (a1, a2, a3)
    ]

    search2-Named :
        (n1 : ℕ) (f : Found) → FoundAll Named f → FoundAll Named (search2 db r rows n1 f)
    unfolding search2
    search2-Named n1 f (a1, a2, a3) = elim (Bool-cases (has_phone_query r.phone)) [
      | inl used ↦ rw used (a1, select-Named _ rows (λ p h. ground arith) all, a3)
      | inr old ↦ rw old (a1, a2, a3)
    ]

    search3-Named :
        (n1 n2 : ℕ) (f : Found) → FoundAll Named f → FoundAll Named (search3 db r rows n1 n2 f)
    unfolding search3 names_fit
    search3-Named n1 n2 f (a1, a2, a3) = elim (Bool-cases (given r.last_name && ltb 1 n2)) [
      | inl used ↦ rw used (a1, a2, select-Named _ rows (λ p h. ground arith) all)
      | inr old ↦ rw old (a1, a2, a3)
    ]

    search4-Named : (n3 : ℕ) (f : Found) → FoundAll Named f → All Named (search4 db r rows n3 f)
    unfolding search4 names_fit
    search4-Named n3 f (a1, a2, a3) = elim (Bool-cases (ltb 1 n3)) [
      | inl many ↦ rw many (select-All Named (db.by_company r) (people f.contacts3) a3)
      | inr few ↦ rw few (select-Named _ rows (λ p h. ground arith) all)
    ]

    use_company-Named :
        (n3 : ℕ) (f : Found) → FoundAll Named f → LookAll Named (use_company db r rows n3 f)
    unfolding use_company
    use_company-Named n3 f a =
        elim (Bool-cases ((given r.company_name && any_found f) || given r.last_name)) [
          | inl used ↦ elim (Bool-cases (given (search4 db r rows n3 f))) [
            | inl some_one ↦
                rw (used, some_one)
                  (take_first-All Named (search4 db r rows n3 f) f (search4-Named n3 f a) some_one)
            | inr no_one ↦ rw (used, no_one) (fallback-All db r Named f a)
          ]
          | inr unused ↦ rw unused (fallback-All db r Named f a)
        ]

    one_found-Named :
        (f1 f2 f3 : Found) (u1 u2 u3 : Bool)
        → FoundAll Named f1
        → FoundAll Named f2
        → FoundAll Named f3
        → LookAll Named (
            one_found db r rows f1
              (size u1 f1.contacts1)
              f2
              (size u2 f2.contacts2)
              f3
              (size u3 f3.contacts3))
    unfolding one_found
    one_found-Named f1 f2 f3 u1 u2 u3 a1 a2 a3 = elim (Bool-cases (size u1 f1.contacts1 == 1)) [
      | inl one ↦
          rw one
            (take_first-All Named (people f1.contacts1) f1 a1.0 (given_of_used u1 f1.contacts1 one))
      | inr not1 ↦ elim (Bool-cases (size u2 f2.contacts2 == 1)) [
        | inl two ↦
            rw (not1, two)
              (take_first-All Named (people f2.contacts2) f2 a2.1
                (given_of_used u2 f2.contacts2 two))
        | inr not2 ↦ elim (Bool-cases (size u3 f3.contacts3 == 1)) [
          | inl three ↦
              rw (not1, not2, three)
                (take_first-All Named (people f3.contacts3) f3 a3.2
                  (given_of_used u3 f3.contacts3 three))
          | inr not3 ↦ rw (not1, not2, not3) (use_company-Named (size u3 f3.contacts3) f3 a3)
        ]
      ]
    ]

    pub look-Named : (f : Found) → FoundAll Named f → LookAll Named (look db r rows f)
    unfolding look
    look-Named f a =
        let f1 = search1 db r rows f in
        let a1 = search1-Named f a in
        let n1 = size (given r.email) f1.contacts1 in
        let f2 = search2 db r rows n1 f1 in
        let a2 = search2-Named n1 f1 a1 in
        let n2 = size (has_phone_query r.phone) f2.contacts2 in
        one_found-Named f1 f2 (search3 db r rows n1 n2 f2) (given r.email) (has_phone_query r.phone)
          (given r.last_name && ltb 1 n2) a1 a2 (search3-Named n1 n2 f2 a2)
