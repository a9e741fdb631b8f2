-- ===== src/Massmail/MailingOut/Conserves.antt =====
-- The moves between the three lists of ids lose no recipient and invent none.
use agamin_crm.Prelude.{
  List, Option-cases, [], arith, count, count-append, count-remove, inl, inr, none, refl, remove,
  some, ℕ, ◌++◌, ◌+◌, ◌∙◌, ◌∷◌, ◌≡◌,
}
use agamin_crm.Prelude.Action.{Action, value_error, raised, returned}
use agamin_crm.Massmail.Ids.{get_ids}
use agamin_crm.Massmail.Ids.RoundTrip.{get_ids-join_ids, get_ids-nil}
use agamin_crm.Massmail.MailingOut.{
  MailingOut, Held, move_to_successful_ids, move_to_failed_ids, move_to_recipient_ids,
}

-- The three texts of the mailing are read as these lists.
pub record Lists (o : MailingOut) (todo good bad : List ℕ) : Type 0 where
  pub todo_text : get_ids o.recipient_ids ≡ some todo
  pub good_text : get_ids o.successful_ids ≡ some good
  pub bad_text : get_ids o.failed_ids ≡ some bad

module _ (a : ℕ) (h : Held) (todo good bad : List ℕ) (l : Lists h.obj todo good bad) where
  -- An id in line moves to the end of the successful ones, and the row is saved.
  pub move_to_successful_ids_lem :
      (rest : List ℕ)
      → remove a todo ≡ some rest
      → ((move_to_successful_ids a h).0 ≡ returned tt)
        × Lists (move_to_successful_ids a h).1.obj rest (good ++ a ∷ []) bad
        × ((move_to_successful_ids a h).1.row ≡ (move_to_successful_ids a h).1.obj)
  unfolding move_to_successful_ids
  move_to_successful_ids_lem rest r = ground (
    arith,
    l.todo_text,
    l.good_text,
    l.bad_text,
    get_ids-join_ids rest,
    get_ids-join_ids (good ++ a ∷ []),
  )

  pub move_to_failed_ids_lem :
      (rest : List ℕ)
      → remove a todo ≡ some rest
      → ((move_to_failed_ids a h).0 ≡ returned tt)
        × Lists (move_to_failed_ids a h).1.obj rest good (bad ++ a ∷ [])
        × ((move_to_failed_ids a h).1.row ≡ (move_to_failed_ids a h).1.obj)
  unfolding move_to_failed_ids
  move_to_failed_ids_lem rest r = ground (
    arith,
    l.todo_text,
    l.good_text,
    l.bad_text,
    get_ids-join_ids rest,
    get_ids-join_ids (bad ++ a ∷ []),
  )

  -- An id that is not in line is refused, and neither the object nor the row changes.
  pub move_missing :
      remove a todo ≡ none
      → (move_to_successful_ids a h ≡ (raised value_error, h))
        × (move_to_failed_ids a h ≡ (raised value_error, h))
  unfolding move_to_successful_ids move_to_failed_ids
  move_missing r = (ground (arith, l.todo_text), ground (arith, l.todo_text))

-- The failed recipients go to the end of the line, and the row is saved.
module _ (h : Held) (todo good bad : List ℕ) (l : Lists h.obj todo good bad) where
  pub move_to_recipient_ids_lem :
      ((move_to_recipient_ids h).0 ≡ returned tt)
      × Lists (move_to_recipient_ids h).1.obj (todo ++ bad) good []
      × ((move_to_recipient_ids h).1.row ≡ (move_to_recipient_ids h).1.obj)
  unfolding move_to_recipient_ids
  move_to_recipient_ids_lem =
      ground
        (arith, l.todo_text, l.good_text, l.bad_text, get_ids-join_ids (todo ++ bad), get_ids-nil)

-- The calls that move ids.
pub data Move : Type 0 where
  success failure : ℕ → Move
  retry : Move

pub move : Move → Action Held (Unit {0})
move (success a) = move_to_successful_ids a
move (failure a) = move_to_failed_ids a
move retry = move_to_recipient_ids

-- A raised `ValueError` ends only its own call.
pub moves : List Move → Held → Held
unfolding move
moves [] h = h
moves (m ∷ ms) h = moves ms (move m h).1

-- How often the mailing names an id, in any of the three lists.
abbrev pub tally : ℕ → List ℕ → List ℕ → List ℕ → ℕ
tally x todo good bad = count x todo + count x good + count x bad

-- The three texts can be read, and hold each id as often as `todo`, `good` and `bad` do together.
abbrev pub Keeps : MailingOut → List ℕ → List ℕ → List ℕ → Type 0
Keeps o todo good bad =
    (todo' : List ℕ) × (good' : List ℕ) × (bad' : List ℕ) × Lists o todo' good' bad'
    × ((x : ℕ) → tally x todo' good' bad' ≡ tally x todo good bad)

module _ (h : Held) (todo good bad : List ℕ) (l : Lists h.obj todo good bad) where
  success-Keeps : (a : ℕ) → Keeps (move_to_successful_ids a h).1.obj todo good bad
  success-Keeps a = elim (Option-cases (remove a todo)) [
    | inl missing ↦ rw (move_missing a h todo good bad l missing).0 (todo, good, bad, l, λ x. refl)
    | inr (rest, r) ↦ (
      rest,
      good ++ a ∷ [],
      bad,
      (move_to_successful_ids_lem a h todo good bad l rest r).1,
      λ x. ground (arith, count-remove x a todo rest r, count-append x good (a ∷ [])),
    )
  ]

  failure-Keeps : (a : ℕ) → Keeps (move_to_failed_ids a h).1.obj todo good bad
  failure-Keeps a = elim (Option-cases (remove a todo)) [
    | inl missing ↦ rw (move_missing a h todo good bad l missing).1 (todo, good, bad, l, λ x. refl)
    | inr (rest, r) ↦ (
      rest,
      good,
      bad ++ a ∷ [],
      (move_to_failed_ids_lem a h todo good bad l rest r).1,
      λ x. ground (arith, count-remove x a todo rest r, count-append x bad (a ∷ [])),
    )
  ]

  move-Keeps : (m : Move) → Keeps (move m h).1.obj todo good bad
  unfolding move
  move-Keeps (success a) = success-Keeps a
  move-Keeps (failure a) = failure-Keeps a
  move-Keeps retry = (
    todo ++ bad,
    good,
    [],
    (move_to_recipient_ids_lem h todo good bad l).1,
    λ x. omega (arith, count-append x todo bad),
  )

-- Whatever calls are made, in any order and whether or not they raise, the texts stay readable and
-- every id stays as often in the mailing as it was.
pub moves-Keeps :
    (ms : List Move) (h : Held) (todo good bad : List ℕ)
    → Lists h.obj todo good bad
    → Keeps (moves ms h).obj todo good bad
unfolding moves
moves-Keeps [] h todo good bad l = (todo, good, bad, l, λ x. refl)
moves-Keeps (m ∷ ms) h todo good bad l =
    let (t, g, b, l', same) = move-Keeps h todo good bad l m in
    let (t', g', b', l'', same') = moves-Keeps ms (move m h).1 t g b l' in
    (t', g', b', l'', λ x. same' x ∙ same x)
