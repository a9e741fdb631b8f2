-- ===== src/Massmail/Queue/Rotation.antt =====
-- The queue is fair, and holds each account once.
use agamin_crm.Prelude.{
  Bool-cases, List, Option, [], ap, arith, contains, contains-count, contains-eq-false, count,
  count-append, count-remove, get_elem?, inl, inr, length, refl, remove-total, suc, zero, ℕ, ◌++◌,
  ◌<◌, ◌∙◌, ◌∷◌, ◌≡◌, ◌≤◌,
}
use agamin_crm.Massmail.Queue.{EmlAccountsQueue, get_next, add_id, remove_id}
use mathlib.Core.List.{append_assoc, append-nil}

-- The state after n calls of `get_next`.
pub after : ℕ → EmlAccountsQueue → EmlAccountsQueue
after zero q = q
after (suc n) q = after n (get_next q).1

abbrev with_queue : Option ℕ → List ℕ → EmlAccountsQueue
with_queue o xs = record { owner = o; queue = xs }

after-with_queue :
    (o : Option ℕ) (xs ys : List ℕ)
    → after (length xs) (with_queue o (xs ++ ys)) ≡ with_queue o (ys ++ xs)
unfolding after get_next
after-with_queue o [] ys = rw append-nil
after-with_queue o (x ∷ xs) ys =
    ap (λ l. after (length xs) (with_queue o l)) (append_assoc xs ys (x ∷ []))
    ∙ after-with_queue o xs (ys ++ x ∷ [])
    ∙ ap (with_queue o) (append_assoc ys (x ∷ []) xs)

served_in_turn :
    (o : Option ℕ) (xs ys : List ℕ) (k : ℕ)
    → k < length xs
    → (get_next (after k (with_queue o (xs ++ ys)))).0 ≡ get_elem? xs k
unfolding after get_next
served_in_turn o [] ys k h = elim h [ ]
served_in_turn o (x ∷ xs) ys zero h = refl
served_in_turn o (x ∷ xs) ys (suc k) h =
    rw append_assoc (served_in_turn o xs (ys ++ x ∷ []) k (omega arith))

-- The calls of `get_next` go round: the k-th of a round gives the k-th account, and a whole round
-- leaves the queue as it was.
pub get_next_round :
    (q : EmlAccountsQueue) (k : ℕ)
    → k < length q.queue
    → ((get_next (after k q)).0 ≡ get_elem? q.queue k) × (after (length q.queue) q ≡ q)
get_next_round q k h = (
  rw append-nil at (served_in_turn q.owner q.queue [] k h),
  rw append-nil at (after-with_queue q.owner q.queue []),
)

-- An account stands in the queue once.
unfoldable pub IsUnique : EmlAccountsQueue → Type 0
IsUnique q = (a : ℕ) → count a q.queue ≤ 1

-- `add_id` keeps every account once at most in the queue.
add_id-IsUnique : (a : ℕ) (q : EmlAccountsQueue) → IsUnique q → IsUnique (add_id a q)
unfolding add_id IsUnique
add_id-IsUnique a q h b =
    ground (arith, h b, count-append b q.queue (a ∷ []), contains-eq-false a q.queue)

-- `remove_id` keeps every account once at most in a queue that had it so, and leaves the removed
-- one nowhere in it.
pub remove_id_lem :
    (a : ℕ) (q : EmlAccountsQueue)
    → IsUnique q
    → IsUnique (remove_id a q) × (count a (remove_id a q).queue ≡ 0)
unfolding remove_id IsUnique
remove_id_lem a q h = elim (Bool-cases (contains a q.queue)) [
  | inl there ↦
      let (r, e) = remove-total a q.queue (contains-count a q.queue there) in
      (
        λ b. ground (arith, h b, count-remove b a q.queue r e),
        ground (arith, h a, count-remove a a q.queue r e),
      )
  | inr gone ↦ (λ b. ground (arith, h b), ground (arith, contains-eq-false a q.queue gone))
]

-- Adding and removing an id keep the accounts of a queue distinct, and a removed id is gone.
pub edits-IsUnique :
    (a : ℕ) (q : EmlAccountsQueue)
    → IsUnique q
    → IsUnique (add_id a q) × IsUnique (remove_id a q) × (count a (remove_id a q).queue ≡ 0)
edits-IsUnique a q h =
    let (distinct, gone) = remove_id_lem a q h in (add_id-IsUnique a q h, distinct, gone)

pub owner-remove_id : (a : ℕ) (q : EmlAccountsQueue) → (remove_id a q).owner ≡ q.owner
unfolding remove_id
owner-remove_id a q = ground arith
