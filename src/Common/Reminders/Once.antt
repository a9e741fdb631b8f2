-- ===== src/Common/Reminders/Once.antt =====
-- A reminder is sent once.
use agamin_crm.Prelude.{
  ==_iff, All, Bool, Bool-cases, List, Option-cases, [], ap, arith, contains, false, if◌then◌else◌,
  inl, inr, is_some, map, refl, select, subst, sym, true, ℕ, ◌==◌, ◌∷◌, ◌≡◌,
}
use agamin_crm.Prelude.Action.{returned}
use agamin_crm.Common.Reminders.{
  Reminder, Board, is_due, store_flags, handled, remind, remind_all, send_remainders,
}

-- No reminder with this key is due.
abbrev Out : ℕ → ℕ → List Reminder → Type 0
Out now k = All (λ s. s.id ≡ k → is_due now s ≡ false)

-- Every reminder has an owner, and the object that it is about is there.
abbrev pub Owned : List ℕ → List Reminder → Type 0
Owned objects = All (λ r. (is_some r.owner ≡ true) × (contains r.content_object objects ≡ true))

abbrev keys : List Reminder → List ℕ
keys = map (λ r. r.id)

module _ (now : ℕ) (has_email : ℕ → Bool) where
  store_flags-keeps :
      (k owner : ℕ) (r : Reminder) (rs : List Reminder)
      → Out now k rs
      → Out now k (store_flags (handled has_email owner r) rs)
  unfolding store_flags handled is_due
  store_flags-keeps k owner r [] h = tt
  store_flags-keeps k owner r (s ∷ rs) h = elim (Bool-cases (s.id == r.id)) [
    | inl same ↦ rw same ((λ e. refl), store_flags-keeps k owner r rs h.1)
    | inr other ↦ rw other (h.0, store_flags-keeps k owner r rs h.1)
  ]

  store_flags-Out :
      (owner : ℕ) (r : Reminder) (rs : List Reminder)
      → Out now r.id (store_flags (handled has_email owner r) rs)
  unfolding store_flags handled is_due
  store_flags-Out owner r [] = tt
  store_flags-Out owner r (s ∷ rs) = elim (Bool-cases (s.id == r.id)) [
    | inl same ↦ rw same ((λ e. refl), store_flags-Out owner r rs)
    | inr other ↦ rw other ((λ e. ground (arith, e, other)), store_flags-Out owner r rs)
  ]

  remind-Out :
      (k owner : ℕ) (r : Reminder) (d : Board)
      → (k == r.id) ≡ true
      → Out now k (remind has_email owner r d).reminders
  unfolding remind
  remind-Out k owner r d same =
      subst (λ j. Out now j (store_flags (handled has_email owner r) d.reminders))
        (sym ((==_iff k r.id).0 same)) (store_flags-Out owner r d.reminders)

  remind_all-keeps :
      (k : ℕ) (rs : List Reminder) (d : Board)
      → Owned d.objects rs
      → Out now k d.reminders
      → Out now k (remind_all has_email rs d).1.reminders
  unfolding remind_all remind
  remind_all-keeps k [] d o h = h
  remind_all-keeps k (r ∷ rs) d o h = elim (Option-cases r.owner) [
    | inl missing ↦ absurd (let there = o.0.0 in ground (arith, missing, there))
    | inr (owner, e) ↦
        rw (e, o.0.1)
          (remind_all-keeps k rs (remind has_email owner r d) o.1
            (store_flags-keeps k owner r d.reminders h))
  ]

  remind_all-Out :
      (k : ℕ) (rs : List Reminder) (d : Board)
      → Owned d.objects rs
      → contains k (keys rs) ≡ true
      → Out now k (remind_all has_email rs d).1.reminders
  unfolding remind_all remind
  remind_all-Out k [] d o e = absurd (cc)
  remind_all-Out k (r ∷ rs) d o e = elim (Option-cases r.owner) [
    | inl missing ↦ absurd (let there = o.0.0 in ground (arith, missing, there))
    | inr (owner, f) ↦ elim (Bool-cases (k == r.id)) [
      | inl same ↦
          rw (f, o.0.1)
            (remind_all-keeps k rs (remind has_email owner r d) o.1 (remind-Out k owner r d same))
      | inr other ↦
          rw (f, o.0.1)
            (remind_all-Out k rs (remind has_email owner r d) o.1 (ground (arith, e, other)))
    ]
  ]

  remind_all-returns :
      (rs : List Reminder) (d : Board)
      → Owned d.objects rs
      → (remind_all has_email rs d).0 ≡ returned tt
  unfolding remind_all remind
  remind_all-returns [] d o = refl
  remind_all-returns (r ∷ rs) d o = elim (Option-cases r.owner) [
    | inl missing ↦ absurd (let there = o.0.0 in ground (arith, missing, there))
    | inr (owner, e) ↦ rw (e, o.0.1) (remind_all-returns rs (remind has_email owner r d) o.1)
  ]

-- A key of no reminder that is due.
select-Out :
    (now k : ℕ) (rs : List Reminder)
    → contains k (keys (select (is_due now) rs)) ≡ false
    → Out now k rs
select-Out now k [] e = tt
select-Out now k (r ∷ rs) e = elim (Bool-cases (is_due now r)) [
  | inl due ↦
      let both : contains k (r.id ∷ keys (select (is_due now) rs)) ≡ false =
        subst
          (λ b.
            contains k (keys (if b then r ∷ select (is_due now) rs else select (is_due now) rs))
            ≡ false)
          due e in
      ((λ same. absurd (ground (arith, both, same))), select-Out now k rs (ground (arith, both)))
  | inr later ↦ (
    (λ same. later),
    select-Out now k rs (
        subst
          (λ b.
            contains k (keys (if b then r ∷ select (is_due now) rs else select (is_due now) rs))
            ≡ false)
          later e),
  )
]

select-Owned :
    (now : ℕ) (objects : List ℕ) (rs : List Reminder)
    → Owned objects rs
    → Owned objects (select (is_due now) rs)
select-Owned now objects [] o = tt
select-Owned now objects (r ∷ rs) o = elim (Bool-cases (is_due now r)) [
  | inl due ↦ rw due (o.0, select-Owned now objects rs o.1)
  | inr later ↦ rw later (select-Owned now objects rs o.1)
]

every-Out :
    (now k : ℕ) (has_email : ℕ → Bool) (d : Board)
    → Owned d.objects d.reminders
    → Out now k (send_remainders has_email now d).1.reminders
unfolding send_remainders
every-Out now k has_email d o =
    let owned = select-Owned now d.objects d.reminders o in
    elim (Bool-cases (contains k (keys (select (is_due now) d.reminders)))) [
      | inl there ↦ remind_all-Out now has_email k (select (is_due now) d.reminders) d owned there
      | inr missing ↦
          remind_all-keeps now has_email k (select (is_due now) d.reminders) d owned
            (select-Out now k d.reminders missing)
    ]

select-nobody :
    (now : ℕ) (rs : List Reminder) → ((k : ℕ) → Out now k rs) → select (is_due now) rs ≡ []
select-nobody now [] h = refl
select-nobody now (r ∷ rs) h = rw ((h r.id).0 refl) (select-nobody now rs (λ k. (h k).1))

-- If every reminder has an owner and the object that it is about, a pass returns and leaves no reminder that is due, and a second
-- pass at the same time returns, sends nothing and changes nothing.
pub send_remainders_once :
    (has_email : ℕ → Bool) (now : ℕ) (d : Board)
    → Owned d.objects d.reminders
    → ((send_remainders has_email now d).0 ≡ returned tt)
      × (select (is_due now) (send_remainders has_email now d).1.reminders ≡ [])
      × (send_remainders has_email now (send_remainders has_email now d).1
          ≡ (returned tt, (send_remainders has_email now d).1))
unfolding send_remainders remind_all
send_remainders_once has_email now d o =
    let none_due =
      select-nobody now (send_remainders has_email now d).1.reminders
        (λ k. every-Out now k has_email d o) in
    (
      remind_all-returns now has_email (select (is_due now) d.reminders) d
          (select-Owned now d.objects d.reminders o),
      none_due,
      ap (λ rs. remind_all has_email rs (send_remainders has_email now d).1) none_due,
    )
