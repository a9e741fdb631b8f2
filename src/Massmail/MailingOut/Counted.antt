-- ===== src/Massmail/MailingOut/Counted.antt =====
-- `recipients_number` is the number of ids in the three lists together.
use agamin_crm.Prelude.{
  List, Option-cases, [], arith, inl, inr, length, length-append, length-remove, remove, some, suc,
  ℕ, ◌++◌, ◌+◌, ◌∙◌, ◌∷◌, ◌≡◌, ◌⊎◌,
}
use agamin_crm.Prelude.Action.{value_error, raised, returned}
use agamin_crm.Massmail.Ids.{get_ids, join_ids}
use agamin_crm.Massmail.MailingOut.{
  get_recipient_ids, MailingOut, Held, save, remove_recipient_ids, move_to_successful_ids,
  move_to_failed_ids,
}
use agamin_crm.Massmail.MailingOut.Conserves.{
  Lists, move_to_successful_ids_lem, move_to_failed_ids_lem, move_missing,
}

abbrev pub Counted : MailingOut → Type 0
Counted o =
    (todo : List ℕ) × (good : List ℕ) × (bad : List ℕ) × (get_ids o.recipient_ids ≡ some todo)
    × (get_ids o.successful_ids ≡ some good)
    × (get_ids o.failed_ids ≡ some bad)
    × (o.recipients_number ≡ length todo + length good + length bad)

abbrev pub BothCounted : Held → Type 0
BothCounted h = Counted h.obj × Counted h.row

module _ (a : ℕ) (h : Held) (c : BothCounted h) where
  abbrev todo : List ℕ
  todo = c.0.0

  abbrev good : List ℕ
  good = c.0.1

  abbrev bad : List ℕ
  bad = c.0.2

  number-success : (move_to_successful_ids a h).1.obj.recipients_number ≡ h.obj.recipients_number
  unfolding move_to_successful_ids
  number-success = ground arith

  number-failure : (move_to_failed_ids a h).1.obj.recipients_number ≡ h.obj.recipients_number
  unfolding move_to_failed_ids
  number-failure = ground arith

  pub success-Counted : BothCounted (move_to_successful_ids a h).1
  success-Counted =
      let l : Lists h.obj todo good bad = record {
        todo_text = c.0.3;
        good_text = c.0.4;
        bad_text = c.0.5;
      } in
      elim (Option-cases (remove a todo)) [
        | inl missing ↦ rw (move_missing a h todo good bad l missing).0 c
        | inr (rest, r) ↦
            let (ok, now, saved) = move_to_successful_ids_lem a h todo good bad l rest r in
            let counted : Counted (move_to_successful_ids a h).1.obj = (
              rest,
              good ++ a ∷ [],
              bad,
              now.todo_text,
              now.good_text,
              now.bad_text,
              number-success ∙ omega (arith, c.0.6, length-remove a todo rest r, length-append {0}),
            ) in
            (counted, rw saved counted)
      ]

  pub failure-Counted : BothCounted (move_to_failed_ids a h).1
  failure-Counted =
      let l : Lists h.obj todo good bad = record {
        todo_text = c.0.3;
        good_text = c.0.4;
        bad_text = c.0.5;
      } in
      elim (Option-cases (remove a todo)) [
        | inl missing ↦ rw (move_missing a h todo good bad l missing).1 c
        | inr (rest, r) ↦
            let (ok, now, saved) = move_to_failed_ids_lem a h todo good bad l rest r in
            let counted : Counted (move_to_failed_ids a h).1.obj = (
              rest,
              good,
              bad ++ a ∷ [],
              now.todo_text,
              now.good_text,
              now.bad_text,
              number-failure ∙ omega (arith, c.0.6, length-remove a todo rest r, length-append {0}),
            ) in
            (counted, rw saved counted)
      ]

  -- A recipient that is taken out: the list is one shorter, and all else is as it was.
  pub remove_cases :
      (remove_recipient_ids a h ≡ (raised value_error, h))
      ⊎ ((rest : List ℕ) × (remove_recipient_ids a h
            ≡ (returned tt, record h { obj = record h.obj { recipient_ids = join_ids rest } }))
          × (length todo ≡ suc (length rest)))
  unfolding remove_recipient_ids
  remove_cases = elim (Option-cases (remove a todo)) [
    | inl missing ↦ inl (ground (arith, c.0.3))
    | inr (rest, r) ↦ inr (rest, ground (arith, c.0.3), length-remove a todo rest r)
  ]

pub save-Counted : (h : Held) → BothCounted h → BothCounted (save h).1
unfolding save
save-Counted h c = (c.0, c.0)

pub same-get_recipient_ids : (h : Held) → (get_recipient_ids h).1 ≡ h
unfolding get_recipient_ids
same-get_recipient_ids h = ground arith
