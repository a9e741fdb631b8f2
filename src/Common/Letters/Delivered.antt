-- ===== src/Common/Letters/Delivered.antt =====
-- Every recipient gets the message once, in his language.
use agamin_crm.Prelude.{
  All, Bool, Bool-cases, List, Option, [], arith, count, count-append, false, inl, inr, length,
  length-append, not, refl, select, some, suc, true, zero, ℕ, ◌++◌, ◌+◌, ◌==◌, ◌∙◌, ◌∷◌, ◌≡◌, ◌≤◌,
}
use agamin_crm.Common.Letters.{
  Subject, given, Letter, reverse, subject_of, speaks, letters, email_to_participants,
}

count-reverse : (u : ℕ) (xs : List ℕ) → count u (reverse xs) ≡ count u xs
unfolding reverse
count-reverse u [] = refl
count-reverse u (x ∷ xs) = count-append u (reverse xs) (x ∷ []) ∙ ground (arith, count-reverse u xs)

length-reverse : (xs : List ℕ) → length (reverse xs) ≡ length xs
unfolding reverse
length-reverse [] = refl
length-reverse (x ∷ xs) = length-append (reverse xs) (x ∷ []) ∙ ground (arith, length-reverse xs)

length-select : (p : ℕ → Bool) (xs : List ℕ) → length (select p xs) ≤ length xs
length-select p [] = omega arith
length-select p (x ∷ xs) = ground (arith, length-select p xs)

count_split :
    (u : ℕ) (p : ℕ → Bool) (xs : List ℕ)
    → count u (select p xs) + count u (select (λ v. not (p v)) xs) ≡ count u xs
count_split u p [] = refl
count_split u p (x ∷ xs) = elim (Bool-cases (p x)) [
  | inl e ↦ rw e (ground (arith, count_split u p xs))
  | inr e ↦ rw e (ground (arith, count_split u p xs))
]

-- How often a user is written to.
pub times : ℕ → List Letter → ℕ
times u [] = 0
times u (l ∷ ls) = count u l.to + times u ls

module _ (language_code : ℕ → ℕ) where
  times-letters :
      (f : ℕ) (s : Option Subject) (users : List ℕ) (u : ℕ)
      → length users ≤ f
      → times u (letters language_code f s users) ≡ count u users
  unfolding letters times speaks
  times-letters zero s [] u h = refl
  times-letters zero s (user ∷ users) u h = ground arith
  times-letters (suc f) s [] u h = refl
  times-letters (suc f) s (user ∷ users) u h =
      let code = language_code user in
      let temp_list = select (λ v. not (speaks language_code code v)) users in
      let more = times-letters f (some (subject_of s code)) (reverse temp_list) u (
        rw length-reverse
          (omega (arith, h, length-select (λ v. not (speaks language_code code v)) users))) in
      ground
        (arith, more, count-reverse u temp_list, count_split u (speaks language_code code) users)

-- What an e-mail says of its recipients, and two of each other.
abbrev pub Own : (ℕ → ℕ) → List Letter → Type 0
Own language_code = All (λ l. All (λ u. (language_code u == l.language) ≡ true) l.to)

abbrev pub Apart : List Letter → Type 0
Apart [] = Unit
Apart (l ∷ ls) = All (λ m. (m.language == l.language) ≡ false) ls × Apart ls

select-All : (p : ℕ → Bool) (xs : List ℕ) → All (λ x. p x ≡ true) (select p xs)
select-All p [] = tt
select-All p (x ∷ xs) = elim (Bool-cases (p x)) [
  | inl e ↦ rw e (e, select-All p xs)
  | inr e ↦ rw e (select-All p xs)
]

select_keeps : (P : ℕ → Type 0) (p : ℕ → Bool) (xs : List ℕ) → All P xs → All P (select p xs)
select_keeps P p [] h = tt
select_keeps P p (x ∷ xs) h = elim (Bool-cases (p x)) [
  | inl e ↦ rw e (h.0, select_keeps P p xs h.1)
  | inr e ↦ rw e (select_keeps P p xs h.1)
]

map_All : {P Q : ℕ → Type 0} → ((x : ℕ) → P x → Q x) → (xs : List ℕ) → All P xs → All Q xs
map_All g [] h = tt
map_All g (x ∷ xs) h = (g x h.0, map_All g xs h.1)

append-All : (P : ℕ → Type 0) (xs ys : List ℕ) → All P xs → All P ys → All P (xs ++ ys)
append-All P [] ys h k = k
append-All P (x ∷ xs) ys h k = (h.0, append-All P xs ys h.1 k)

reverse-All : (P : ℕ → Type 0) (xs : List ℕ) → All P xs → All P (reverse xs)
unfolding reverse
reverse-All P [] h = tt
reverse-All P (x ∷ xs) h = append-All P (reverse xs) (x ∷ []) (reverse-All P xs h.1) (h.0, tt)

module _ (language_code : ℕ → ℕ) where
  letters-Own :
      (f : ℕ) (s : Option Subject) (users : List ℕ)
      → Own language_code (letters language_code f s users)
  unfolding letters speaks
  letters-Own zero s users = tt
  letters-Own (suc f) s [] = tt
  letters-Own (suc f) s (user ∷ users) = (
    (ground arith, select-All (speaks language_code (language_code user)) users),
    letters-Own f _ _,
  )

  -- Nobody speaks a language, so no e-mail is in it.
  letters_unspoken :
      (code f : ℕ) (s : Option Subject) (users : List ℕ)
      → All (λ u. (language_code u == code) ≡ false) users
      → All (λ l. (l.language == code) ≡ false) (letters language_code f s users)
  unfolding letters speaks
  letters_unspoken code zero s users h = tt
  letters_unspoken code (suc f) s [] h = tt
  letters_unspoken code (suc f) s (user ∷ users) h = (
    h.0,
    letters_unspoken code f _ _
        (reverse-All (λ u. (language_code u == code) ≡ false) _ (select_keeps _ _ users h.1)),
  )

  letters-Apart :
      (f : ℕ) (s : Option Subject) (users : List ℕ) → Apart (letters language_code f s users)
  unfolding letters speaks
  letters-Apart zero s users = tt
  letters-Apart (suc f) s [] = tt
  letters-Apart (suc f) s (user ∷ users) = (
    letters_unspoken (language_code user) f _ _ (
        reverse-All (λ u. (language_code u == language_code user) ≡ false) _
          (map_All (λ u v. ground (arith, v)) _
            (select-All (λ v. not (speaks language_code (language_code user) v)) users))),
    letters-Apart f _ _,
  )

  letters_subject :
      (f : ℕ) (t : Subject) (users : List ℕ)
      → All (λ l. l.subject ≡ t) (letters language_code f (some t) users)
  unfolding letters subject_of
  letters_subject zero t users = tt
  letters_subject (suc f) t [] = tt
  letters_subject (suc f) t (user ∷ users) = (refl, letters_subject f t _)

  letters_one_subject :
      (f : ℕ) (s : Option Subject) (users : List ℕ)
      → (t : Subject) × All (λ l. l.subject ≡ t) (letters language_code f s users)
  unfolding letters subject_of
  letters_one_subject zero s users = (given, tt)
  letters_one_subject (suc f) s [] = (given, tt)
  letters_one_subject (suc f) s (user ∷ users) = (
    subject_of s (language_code user),
    (refl, letters_subject f (subject_of s (language_code user)) _),
  )

  -- Every recipient gets as many e-mails as he stands in the list, each in his language, there is
  -- one e-mail for a language, and all have the same subject, whatever their languages.
  pub email_to_participants_lem :
      (s : Option Subject) (users : List ℕ)
      → ((u : ℕ) → times u (email_to_participants language_code s users) ≡ count u users)
        × Own language_code (email_to_participants language_code s users)
        × Apart (email_to_participants language_code s users)
        × ((t : Subject) × All (λ l. l.subject ≡ t) (email_to_participants language_code s users))
  unfolding email_to_participants
  email_to_participants_lem s users = (
    λ u.
        times-letters language_code (length users) s (reverse users) u
          (rw length-reverse (omega arith))
        ∙ count-reverse u users,
    letters-Own (length users) s (reverse users),
    letters-Apart (length users) s (reverse users),
    letters_one_subject (length users) s (reverse users),
  )
