-- ===== src/Tasks/Memos/Access.antt =====
-- Who may see, change and delete a memo: `get_queryset` and the three `has_…_permission` of
-- tasks/site/memoadmin.py.
use agamin_crm.Prelude.{
  Bool, Bool-cases, Option, arith, contains, false, if◌then◌else◌, inl, inr, none, not, some, true,
  ◌&&◌, ◌==◌, ◌||◌, ◌≡◌, ◌⊎◌,
}
use agamin_crm.Tasks.Permissions.{User, is_privileged}
use agamin_crm.Tasks.Memos.{Memo, is_reviewed}

-- `value` is the answer of `super()`, and `none` an absent object.
pub has_change_permission : Bool → User → Option Memo → Bool
unfolding is_privileged is_reviewed
has_change_permission value user none = value
has_change_permission value user (some m) =
    if not value
    then false
    else if is_privileged user
    then true
    else if m.owner == user.id
    then not (is_reviewed m.stage)
    else true

pub has_delete_permission : Bool → User → Option Memo → Bool
unfolding has_change_permission
has_delete_permission value user none = value
has_delete_permission value user (some m) =
    if not value then false else has_change_permission value user (some m)

-- `user in (obj.owner, obj.to, obj.subscribers.all())` compares the user with the owner, with the
-- addressee and with a query set, which no user equals.
pub has_view_permission : Bool → User → Option Memo → Bool
unfolding is_privileged
has_view_permission value user none = value
has_view_permission value user (some m) =
    if not value
    then false
    else if not m.draft
    then (user.id == m.owner || user.id == m.to) || is_privileged user
    else user.id == m.owner

-- Whether `get_queryset` keeps the memo for the list.
pub is_listed : User → Memo → Bool
is_listed user m =
    if user.is_superuser
    then true
    else if user.is_chief || user.is_task_operator
    then not (m.draft && not (m.owner == user.id))
    else (m.to == user.id && not m.draft) || (m.owner == user.id || contains user.id m.subscribers)

-- Of a user who is no superuser and may use the model: what he may open is in his list, and what is
-- in his list he may open, unless he is there as a subscriber only.
pub is_listed_or_subscribed :
    (user : User) (m : Memo)
    → user.is_superuser ≡ false
    → (has_view_permission true user (some m) ≡ true → is_listed user m ≡ true)
      × (is_listed user m ≡ true
          → (has_view_permission true user (some m) ≡ true)
            ⊎ (contains user.id m.subscribers ≡ true))
unfolding is_listed has_view_permission is_privileged
is_listed_or_subscribed user m h = (
  λ v. elim (Bool-cases m.draft) [ inl d ↦ ground arith | inr d ↦ ground arith ],
  λ l. elim (Bool-cases (contains user.id m.subscribers)) [
    | inl subscribed ↦ inr subscribed
    | inr other ↦ inl elim (Bool-cases m.draft) [ inl d ↦ ground arith | inr d ↦ ground arith ]
  ],
)
