-- ===== src/Massmail/Queue.antt =====
-- massmail/models/eml_accounts_queue.py: the round robin of a user's email accounts. The field
-- `queue` holds a JSON array of ids; the model keeps the decoded list, since every method decodes
-- the text first and encodes the list that it stores.
pub mod Rotation
use agamin_crm.Prelude.{
  List, Option, [], contains, if◌then◌else◌, length, none, remove, some, ℕ, ◌++◌, ◌∷◌,
}

pub record EmlAccountsQueue : Type 0 where
  pub owner : Option ℕ
  pub queue : List ℕ

unfoldable pub get_queue : EmlAccountsQueue → List ℕ
get_queue q = q.queue

-- The property `length`.
pub queue_length : EmlAccountsQueue → ℕ
unfolding get_queue
queue_length q = length (get_queue q)

-- `queue.pop(0)` and `queue.append(account_id)` on a queue that is not empty.
unfoldable pub rotate : EmlAccountsQueue → List ℕ → Option ℕ × EmlAccountsQueue
rotate q [] = (none, q)
rotate q (account_id ∷ rest) = (some account_id, record q { queue = rest ++ account_id ∷ [] })

unfoldable pub get_next : EmlAccountsQueue → Option ℕ × EmlAccountsQueue
unfolding rotate get_queue
get_next q = rotate q (get_queue q)

pub add_id : ℕ → EmlAccountsQueue → EmlAccountsQueue
unfolding get_queue
add_id account_id q =
    let queue = get_queue q in
    if contains account_id queue then q else record q { queue = queue ++ account_id ∷ [] }

-- `queue.remove` cannot raise behind the test that the id is there.
pub remove_id : ℕ → EmlAccountsQueue → EmlAccountsQueue
unfolding get_queue
remove_id account_id q =
    let queue = get_queue q in
    if contains account_id queue
    then elim (remove account_id queue) [ none ↦ q | some rest ↦ record q { queue = rest } ]
    else q
