-- ===== src/Massmail/Account/Deletion.antt =====
-- A deleted account leaves its owner's queue.
use agamin_crm.Prelude.{
  All, Bool-cases, List, [], arith, count, inl, inr, opt_eq, refl, true, ◌==◌, ◌∷◌, ◌≡◌, ◌≢◌,
}
use agamin_crm.Prelude.Action.{Outcome, returned, raised, does_not_exist}
use agamin_crm.Massmail.Queue.{EmlAccountsQueue, remove_id}
use agamin_crm.Massmail.Queue.Rotation.{IsUnique, remove_id_lem}
use agamin_crm.Massmail.Account.{
  EmailAccount, Tables, owned_by, the_one, update_queue, delete, delete_with, drop_account,
}

-- No queue of the owner names the account.
abbrev pub Absent : EmailAccount → List EmlAccountsQueue → Type 0
Absent a = All (λ q. opt_eq q.owner a.owner ≡ true → count a.pk q.queue ≡ 0)

abbrev pub Uniques : List EmlAccountsQueue → Type 0
Uniques = All IsUnique

update-Absent :
    (a : EmailAccount) (qs : List EmlAccountsQueue)
    → Uniques qs
    → Absent a (update_queue a.owner (remove_id a.pk) qs)
unfolding update_queue
update-Absent a [] u = tt
update-Absent a (q ∷ qs) u = elim (Bool-cases (opt_eq q.owner a.owner)) [
  | inl own ↦ rw own ((λ _. (remove_id_lem a.pk q u.0).1), update-Absent a qs u.1)
  | inr other ↦ rw other ((λ same. cc), update-Absent a qs u.1)
]

missing-Absent :
    (a : EmailAccount) (qs : List EmlAccountsQueue) → owned_by a.owner qs ≡ [] → Absent a qs
unfolding owned_by
missing-Absent a [] h = tt
missing-Absent a (q ∷ qs) h = elim (Bool-cases (opt_eq q.owner a.owner)) [
  | inl own ↦ absurd (cc (rw (own, owned_by) at h))
  | inr other ↦ ((λ same. cc), missing-Absent a qs (ground arith))
]

delete_with-Absent :
    (a : EmailAccount) (t : Tables) (qs : List EmlAccountsQueue)
    → owned_by a.owner t.queues ≡ qs
    → Uniques t.queues
    → (delete_with a (the_one qs) t).0 ≡ returned tt
    → Absent a (delete_with a (the_one qs) t).1.queues
unfolding delete_with the_one
delete_with-Absent a t [] e u r = missing-Absent a t.queues e
delete_with-Absent a t (q ∷ []) e u r = update-Absent a t.queues u
delete_with-Absent a t (q ∷ q' ∷ qs) e u r = cc

gone : (a : EmailAccount) (xs : List EmailAccount) → All (λ b. b.pk ≢ a.pk) (drop_account a.pk xs)
unfolding drop_account
gone a [] = tt
gone a (x ∷ xs) = elim (Bool-cases (x.pk == a.pk)) [
  | inl same ↦ rw same (gone a xs)
  | inr other ↦ rw other (ground arith, gone a xs)
]

delete_with-gone :
    (a : EmailAccount) (t : Tables) (o : Outcome EmlAccountsQueue)
    → (delete_with a o t).0 ≡ returned tt
    → All (λ b. b.pk ≢ a.pk) (delete_with a o t).1.accounts
unfolding delete_with
delete_with-gone a t (raised does_not_exist) r = gone a t.accounts
delete_with-gone a t (raised e) r = cc
delete_with-gone a t (returned q) r = gone a t.accounts

-- A deletion returns where the owner has one queue.
pub delete-returns :
    (a : EmailAccount) (t : Tables) (q : EmlAccountsQueue)
    → the_one (owned_by a.owner t.queues) ≡ returned q
    → (delete a t).0 ≡ returned tt
unfolding delete delete_with
delete-returns a t q e = rw e refl

-- Where no queue names an account twice, a deletion that returns leaves no row of the account, and
-- no queue of its owner that names it.
pub delete_complete :
    (a : EmailAccount) (t : Tables)
    → Uniques t.queues
    → (delete a t).0 ≡ returned tt
    → All (λ b. b.pk ≢ a.pk) (delete a t).1.accounts × Absent a (delete a t).1.queues
unfolding delete
delete_complete a t u r = (
  delete_with-gone a t (the_one (owned_by a.owner t.queues)) r,
  delete_with-Absent a t (owned_by a.owner t.queues) refl u r,
)
