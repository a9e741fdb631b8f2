-- ===== src/Tasks/Participants/Twice.antt =====
-- Nobody is told twice that he is responsible.
use agamin_crm.Prelude.{
  ==_iff, Bool, Bool-cases, List, [], ap, arith, contains, false, if◌then◌else◌, inl, inr, is_some,
  not, opt_eq, refl, select, some, subst, sym, true, ℕ, ◌&&◌, ◌++◌, ◌==◌, ◌||◌, ◌∙◌, ◌∷◌, ◌≡◌,
}
use agamin_crm.Tasks.Models.{Task}
use agamin_crm.Tasks.Participants.{
  responsible, Desk, users_of, notified_of, set_notified, hides, is_owner, difference, reached,
  notices, mails, told, notify_participants,
}

contains-select :
    (f : ℕ → Bool) (u : ℕ) (xs : List ℕ) → f u ≡ true → contains u (select f xs) ≡ contains u xs
contains-select f u [] e = refl
contains-select f u (x ∷ xs) e = elim (Bool-cases (f x)) [
  | inl fits ↦ rw (fits, contains-select f u xs e) refl
  | inr other ↦
      let unlike : (u == x) ≡ false = elim (Bool-cases (u == x)) [
        | inl same ↦ absurd (let here = (==_iff u x).0 same in cc)
        | inr differ ↦ differ
      ] in
      rw (other, unlike) (contains-select f u xs e)
]

contains-select-in :
    (f : ℕ → Bool) (u : ℕ) (xs : List ℕ)
    → contains u (select f xs) ≡ true
    → (f u ≡ true) × (contains u xs ≡ true)
contains-select-in f u [] e = absurd (cc)
contains-select-in f u (x ∷ xs) e = elim (Bool-cases (f x)) [
  | inl fits ↦
      let at : contains u (x ∷ select f xs) ≡ true =
        subst (λ b. contains u (if b then x ∷ select f xs else select f xs) ≡ true) fits e in
      elim (Bool-cases (u == x)) [
        | inl same ↦ (subst (λ v. f v ≡ true) (sym ((==_iff u x).0 same)) fits, rw same refl)
        | inr differ ↦
            let (good, there) = contains-select-in f u xs (ground (arith, at, differ)) in
            (good, rw (differ, there) refl)
      ]
  | inr other ↦
      let (good, there) =
        contains-select-in f u xs
          (subst (λ b. contains u (if b then x ∷ select f xs else select f xs) ≡ true) other e) in
      (good, ground (arith, there))
]

contains-append : (u : ℕ) (xs ys : List ℕ) → contains u (xs ++ ys) ≡ contains u xs || contains u ys
contains-append u [] ys = refl
contains-append u (x ∷ xs) ys = elim (Bool-cases (u == x)) [
  | inl e ↦ rw e refl
  | inr e ↦ rw e (contains-append u xs ys)
]

-- What a test lets through is nothing, if it refuses every member.
select-none :
    (f : ℕ → Bool) (xs : List ℕ) → ((u : ℕ) → contains u xs ≡ true → f u ≡ false) → select f xs ≡ []
select-none f [] h = refl
select-none f (x ∷ xs) h =
    rw (h x (ground arith)) (select-none f xs (λ u e. h u (ground (arith, e))))

select-select :
    (f g : ℕ → Bool) (xs : List ℕ) → select f (select g xs) ≡ select (λ u. g u && f u) xs
select-select f g [] = refl
select-select f g (x ∷ xs) = elim (Bool-cases (g x)) [
  | inl e ↦ elim (Bool-cases (f x)) [
    | inl k ↦ rw (e, k, select-select f g xs) refl
    | inr k ↦ rw (e, k) (select-select f g xs)
  ]
  | inr e ↦ rw e (select-select f g xs)
]

append_nil : {A : Type 0} (xs : List A) → xs ++ [] ≡ xs
append_nil [] = refl
append_nil (x ∷ xs) = rw (append_nil xs) refl

select-same : (f g : ℕ → Bool) (xs : List ℕ) → ((u : ℕ) → f u ≡ g u) → select f xs ≡ select g xs
select-same f g [] h = refl
select-same f g (x ∷ xs) h = rw (h x, select-same f g xs h) refl

module _ (rows : List Task) (has_email : ℕ → Bool) where
  -- The test that those who are told pass.
  test : Task → ℕ → Bool
  test t u =
      (not (contains u t.notified_responsible) && not (opt_eq t.owner (some u)))
      && not (is_some t.task && hides rows t.task u)

  told-test : (t : Task) → told rows has_email responsible t ≡ select (test t) t.responsible
  unfolding told difference test is_owner notified_of users_of
  told-test t = elim (Bool-cases (is_some t.task)) [
    | inl sub ↦ rw sub (
        select-select _ _ t.responsible
        ∙ select-same
            (λ x.
              (not (contains x t.notified_responsible) && not (opt_eq t.owner (some x)))
              && not (hides rows t.task x))
            (test t) t.responsible (λ u. ground (arith, sub)))
    | inr alone ↦ rw alone (select-same _ _ t.responsible (λ u. ground (arith, alone)))
  ]

  -- The task after the first call.
  abbrev after_first : Task → Task
  after_first t = record t {
    notified_responsible =
        select (λ u. contains u t.responsible) t.notified_responsible
        ++ told rows has_email responsible t;
  }

  kept_or_told :
      (t : Task) (u : ℕ)
      → contains u t.responsible ≡ true
      → contains u t.notified_responsible || test t u ≡ true
      → contains u (after_first t).notified_responsible ≡ true
  kept_or_told t u e h =
      contains-append u (select (λ v. contains v t.responsible) t.notified_responsible)
        (told rows has_email responsible t)
      ∙ elim (Bool-cases (contains u t.notified_responsible)) [
        | inl before ↦
            rw (contains-select (λ v. contains v t.responsible) u t.notified_responsible e, before)
              refl
        | inr new ↦
            let now : contains u (told rows has_email responsible t) ≡ true =
              ap (contains u) (told-test t)
              ∙ contains-select (test t) u t.responsible (ground (arith, h, new))
              ∙ e in
            rw now (ground arith)
      ]

  refused : (t : Task) (u : ℕ) → contains u t.responsible ≡ true → test (after_first t) u ≡ false
  unfolding test
  refused t u e = elim (Bool-cases (contains u t.notified_responsible || test t u)) [
    | inl among ↦ rw (kept_or_told t u e among) refl
    | inr neither ↦ ground (arith, neither)
  ]

  told_again : (t : Task) → told rows has_email responsible (after_first t) ≡ []
  told_again t =
      told-test (after_first t) ∙ select-none (test (after_first t)) t.responsible (refused t)

  in_responsible :
      (t : Task) (u : ℕ)
      → contains u (after_first t).notified_responsible ≡ true
      → contains u t.responsible ≡ true
  in_responsible t u e =
      elim (Bool-cases
        (contains u (select (λ v. contains v t.responsible) t.notified_responsible))) [
          | inl kept ↦
              (contains-select-in (λ v. contains v t.responsible) u t.notified_responsible kept).0
          | inr new ↦
              let both =
                sym (
                  contains-append u (select (λ v. contains v t.responsible) t.notified_responsible)
                    (told rows has_email responsible t))
                ∙ e in
              (contains-select-in (test t) u t.responsible
                (ap (contains u) (sym (told-test t)) ∙ ground (arith, both, new))).1
        ]

  none_removed :
      (t : Task)
      → select (λ u. not (contains u t.responsible)) (after_first t).notified_responsible ≡ []
  none_removed t =
      select-none _ (after_first t).notified_responsible (λ u e. rw (in_responsible t u e) refl)

  -- The second call finds nobody to tell: for a task, `notify_participants` on the responsible
  -- sends nothing when it has run before, and reports no change.
  pub notify_responsible_twice :
      (d : Desk)
      → (notify_participants rows has_email responsible
            (notify_participants rows has_email responsible d).1).0
          ≡ false
        × ((notify_participants rows has_email responsible
              (notify_participants rows has_email responsible d).1).1.sent
            ≡ (notify_participants rows has_email responsible d).1.sent)
  unfolding notify_participants reached notices mails users_of notified_of set_notified
  notify_responsible_twice d = rw (none_removed d.obj, told_again d.obj) (refl, append_nil _)
