-- ===== src/Common/RemindMe/Rows.antt =====
-- What `update`, `delete` and `create` do to the rows that count, and equal texts and dates.
use agamin_crm.Prelude.{
  ==_iff, All, Bool, Bool-cases, List, Option, [], ap, arith, false, if◌then◌else◌, inl, inr,
  length, none, not, opt_eq, refl, select, some, subst, suc, sym, true, ℕ, ◌++◌, ◌∙◌, ◌∷◌, ◌≡◌,
}
use agamin_crm.Common.Reminders.{Reminder}
use agamin_crm.Common.RemindMe.{same_text, update_where}

pub same_text-eq : (s t : List ℕ) → same_text s t ≡ true → s ≡ t
unfolding same_text
same_text-eq [] [] h = refl
same_text-eq (a ∷ s) (b ∷ t) h =
    ap (λ c. c ∷ s) ((==_iff a b).0 (ground (arith, h)))
    ∙ ap (λ w. b ∷ w) (same_text-eq s t (ground (arith, h)))
same_text-eq [] (b ∷ t) h = absurd (ground (arith, h))
same_text-eq (a ∷ s) [] h = absurd (ground (arith, h))

pub same_text_refl : (s : List ℕ) → same_text s s ≡ true
unfolding same_text
same_text_refl [] = refl
same_text_refl (a ∷ s) = ground (arith, same_text_refl s)

pub opt_eq_eq : (a b : Option ℕ) → opt_eq a b ≡ true → a ≡ b
opt_eq_eq none none h = refl
opt_eq_eq (some a) (some b) h = ap some ((==_iff a b).0 h)
opt_eq_eq none (some b) h = absurd (ground (arith, h))
opt_eq_eq (some a) none h = absurd (ground (arith, h))

pub length-eq-zero : (rs : List Reminder) → length rs ≡ 0 → rs ≡ []
length-eq-zero [] h = refl
length-eq-zero (r ∷ rs) h = absurd (ground (arith, h))

module _ (own : Reminder → Bool) (P Q : Reminder → Type 0) where
  -- `update` touches all the rows that count, and no others.
  pub updated :
      (p : Reminder → Bool) (g : Reminder → Reminder)
      → ((r : Reminder) → own r ≡ false → p r ≡ false)
      → ((r : Reminder) → own (g r) ≡ own r)
      → ((r : Reminder) → own r ≡ true → P r → (p r ≡ true) × Q (g r))
      → (rs : List Reminder) → All P (select own rs)
      → All Q (select own (update_where p g rs))
        × (length (select own (update_where p g rs)) ≡ length (select own rs))
  unfolding update_where
  updated p g other kept fits [] h = (tt, refl)
  updated p g other kept fits (r ∷ rs) h = elim (Bool-cases (own r)) [
    | inl e ↦
        let h2 = subst (λ b. All P (if b then r ∷ select own rs else select own rs)) e h in
        let (hit, good) = fits r e h2.0 in
        let rest = updated p g other kept fits rs h2.1 in
        let mine = kept r ∙ e in rw (hit, mine, e) ((good, rest.0), ap suc rest.1)
    | inr e ↦
        let h2 = subst (λ b. All P (if b then r ∷ select own rs else select own rs)) e h in
        let rest = updated p g other kept fits rs h2 in
        let missed = other r e in rw (missed, e) rest
  ]

  pub moved_on : ((r : Reminder) → P r → Q r) → (rs : List Reminder) → All P rs → All Q rs
  moved_on f [] h = tt
  moved_on f (r ∷ rs) h = (f r h.0, moved_on f rs h.1)

  pub deleted :
      (p : Reminder → Bool)
      → ((r : Reminder) → own r ≡ true → P r → p r ≡ true)
      → (rs : List Reminder) → All P (select own rs)
      → select own (select (λ r. not (p r)) rs) ≡ []
  deleted p hit [] h = refl
  deleted p hit (r ∷ rs) h = elim (Bool-cases (own r)) [
    | inl e ↦
        let h2 = subst (λ b. All P (if b then r ∷ select own rs else select own rs)) e h in
        let gone = hit r e h2.0 in rw gone (deleted p hit rs h2.1)
    | inr e ↦
        let h2 = subst (λ b. All P (if b then r ∷ select own rs else select own rs)) e h in
        elim (Bool-cases (p r)) [
          | inl gone ↦ rw gone (deleted p hit rs h2)
          | inr stays ↦ rw stays (rw e (deleted p hit rs h2))
        ]
  ]

  pub added_one :
      (n : Reminder)
      → own n ≡ true
      → Q n
      → (rs : List Reminder) → length (select own rs) ≡ 0
      → All Q (select own (rs ++ (n ∷ []))) × (length (select own (rs ++ (n ∷ []))) ≡ 1)
  added_one n e q [] h = rw e ((q, tt), refl)
  added_one n e q (r ∷ rs) h = elim (Bool-cases (own r)) [
    | inl f ↦ absurd (ground (arith, h, f))
    | inr f ↦
        let less = ap (λ b. length (if b then r ∷ select own rs else select own rs)) f in
        rw f (added_one n e q rs (sym less ∙ h))
  ]
