-- ===== src/Tasks/Permissions.antt =====
-- Who may see, change and delete a task: `get_queryset` and the three `has_…_permission` of
-- tasks/site/tasksbasemodeladmin.py, for a task. What `super()` answers, the permissions that
-- django.contrib.auth keeps, is a parameter.
pub mod Listed
use agamin_crm.Prelude.{
  Bool, List, Option, [], contains, false, first, if◌then◌else◌, is_some, none, not, opt_eq, select,
  some, true, ℕ, ◌&&◌, ◌==◌, ◌||◌, ◌∷◌,
}
use agamin_crm.Tasks.Models.{Task}

pub record User : Type 0 where
  pub id : ℕ
  pub is_superuser : Bool
  pub is_chief : Bool
  pub is_task_operator : Bool

-- `any((user.is_superuser, user.is_chief, user.is_task_operator))`
unfoldable pub is_privileged : User → Bool
is_privileged user = user.is_superuser || (user.is_chief || user.is_task_operator)

-- `user in (obj.owner, obj.co_owner)`
pub is_owning : User → Task → Bool
is_owning user t = opt_eq t.owner (some user.id) || opt_eq t.co_owner (some user.id)

-- `obj.responsible.count() == 1 and user == obj.responsible.first()`
pub is_sole_responsible : User → List ℕ → Bool
is_sole_responsible user (u ∷ []) = u == user.id
is_sole_responsible user _ = false

-- `Q(responsible=user) | Q(subscribers=user)`
pub takes_part : User → Task → Bool
takes_part user t = contains user.id t.responsible || contains user.id t.subscribers

-- `Q(id=obj.id) | Q(task=obj) | Q(id=obj.task.id)`, the last of a subtask only.
pub is_kin : Task → Task → Bool
is_kin t s =
    opt_eq s.id t.id
    || ((is_some s.task && opt_eq s.task t.id) || (is_some t.task && opt_eq s.id t.task))

-- `Q(task__subscribers=user)`
pub subscribes_main : List Task → User → Task → Bool
subscribes_main rows user t = is_some (
    first
      (select (λ m. (is_some t.task && opt_eq m.id t.task) && contains user.id m.subscribers) rows))

-- `value` is the answer of `super()`, and `none` an absent object.
pub has_change_permission : Bool → User → Option Task → Bool
unfolding is_privileged is_owning is_sole_responsible
has_change_permission value user none = value
has_change_permission value user (some t) =
    if not value
    then false
    else if is_owning user t || is_privileged user
    then true
    else is_sole_responsible user t.responsible

pub has_delete_permission : Bool → User → Option Task → Bool
unfolding is_privileged is_owning
has_delete_permission value user none = value
has_delete_permission value user (some t) =
    if not value then false else is_owning user t || is_privileged user

module _ (rows : List Task) where
  pub has_view_permission : Bool → User → Option Task → Bool
  unfolding is_privileged is_owning is_kin takes_part
  has_view_permission value user none = value
  has_view_permission value user (some t) =
      if not value
      then false
      else if is_owning user t || is_privileged user
      then true
      else is_some (first (select (λ s. is_kin t s && takes_part user s) rows))

  -- Whether `get_queryset` keeps the task for the list. The test `self.model.__class__ == Task` of
  -- the source never holds, since that class is Django's metaclass, so a filter of the list
  -- adds nothing.
  pub is_listed : User → Task → Bool
  unfolding is_privileged is_owning takes_part subscribes_main
  is_listed user t =
      is_privileged user || (is_owning user t || (takes_part user t || subscribes_main rows user t))
