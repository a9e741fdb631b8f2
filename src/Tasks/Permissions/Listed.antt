-- ===== src/Tasks/Permissions/Listed.antt =====
-- Who sees a task in the list may open it, and who may change or delete it may see it.
use mathlib.Core.List.Memᴰ.{Memᴰ, head, tail}
use agamin_crm.Prelude.{
  Bool, Bool-cases, List, Option, [], arith, contains, false, first, if◌then◌else◌, inl, inr,
  is_some, none, opt_eq, refl, select, some, subst, sym, true, ℕ, ◌&&◌, ◌||◌, ◌∷◌, ◌≡◌,
}
use agamin_crm.Tasks.Models.{Task}
use agamin_crm.Tasks.Permissions.{
  User, is_privileged, is_owning, is_sole_responsible, takes_part, is_kin, subscribes_main,
  has_change_permission, has_delete_permission, has_view_permission, is_listed,
}

select_finds :
    {A : Type 0} (p : A → Bool) (a : A) (xs : List A)
    → Memᴰ a xs
    → p a ≡ true
    → is_some (first (select p xs)) ≡ true
select_finds p a [] m h = elim m [ ]
select_finds p a (x ∷ xs) (head e) h = rw (sym e, h) refl
select_finds p a (x ∷ xs) (tail m) h = elim (Bool-cases (p x)) [
  | inl e ↦ rw e refl
  | inr e ↦ rw e (select_finds p a xs m h)
]

-- A search that finds something with a stronger test finds something with a weaker one.
select_weaker :
    {A : Type 0} (p q : A → Bool) (xs : List A)
    → ((x : A) → p x ≡ true → q x ≡ true)
    → is_some (first (select p xs)) ≡ true
    → is_some (first (select q xs)) ≡ true
select_weaker p q [] weaker h = h
select_weaker p q (x ∷ xs) weaker h = elim (Bool-cases (p x)) [
  | inl e ↦ rw (weaker x e) refl
  | inr e ↦ elim (Bool-cases (q x)) [
    | inl f ↦ rw f refl
    | inr f ↦ rw f (
        select_weaker p q xs weaker
          (subst (λ b. is_some (first (if b then x ∷ select p xs else select p xs)) ≡ true) e h))
  ]
]

opt_eq_refl : (o : Option ℕ) → opt_eq o o ≡ true
opt_eq_refl none = refl
opt_eq_refl (some a) = ground arith

-- Where a test of the list holds, so does that of the view.
takes_part-view :
    (rows : List Task) (user : User) (t : Task)
    → Memᴰ t rows
    → takes_part user t ≡ true
    → has_view_permission rows true user (some t) ≡ true
unfolding has_view_permission is_kin
takes_part-view rows user t m h = elim (Bool-cases (is_owning user t || is_privileged user)) [
  | inl e ↦ rw e refl
  | inr e ↦
      rw e (
        select_finds (λ s. is_kin t s && takes_part user s) t rows m
          (rw (opt_eq_refl t.id, h) refl))
]

sole_responsible-takes_part :
    (user : User) (us vs : List ℕ)
    → is_sole_responsible user us ≡ true
    → (contains user.id us || contains user.id vs) ≡ true
unfolding is_sole_responsible
sole_responsible-takes_part user [] vs h = ground arith
sole_responsible-takes_part user (u ∷ []) vs h = ground arith
sole_responsible-takes_part user (u ∷ v ∷ us) vs h = ground arith

change-part :
    (user : User) (t : Task)
    → (is_owning user t || is_privileged user) ≡ false
    → has_change_permission true user (some t) ≡ true
    → takes_part user t ≡ true
unfolding has_change_permission takes_part
change-part user t e c =
    sole_responsible-takes_part user t.responsible t.subscribers
      (subst (λ b. (if b then true else is_sole_responsible user t.responsible) ≡ true) e c)

is_privileged-view :
    (rows : List Task) (user : User) (t : Task)
    → (is_owning user t || is_privileged user) ≡ true
    → has_view_permission rows true user (some t) ≡ true
unfolding has_view_permission
is_privileged-view rows user t e = rw e refl

subscribes_main-kin :
    (user : User) (t m : Task)
    → ((is_some t.task && opt_eq m.id t.task) && contains user.id m.subscribers) ≡ true
    → (is_kin t m && takes_part user m) ≡ true
unfolding is_kin takes_part
subscribes_main-kin user t m h = ground arith

subscribes_main-view :
    (rows : List Task) (user : User) (t : Task)
    → subscribes_main rows user t ≡ true
    → has_view_permission rows true user (some t) ≡ true
unfolding has_view_permission subscribes_main
subscribes_main-view rows user t h = elim (Bool-cases (is_owning user t || is_privileged user)) [
  | inl e ↦ rw e refl
  | inr e ↦ rw e (
      select_weaker (λ m. (is_some t.task && opt_eq m.id t.task) && contains user.id m.subscribers)
        (λ s. is_kin t s && takes_part user s) rows (subscribes_main-kin user t) h)
]

-- A user who may use a model sees in the list only tasks that he may open.
is_listed-view :
    (rows : List Task) (user : User) (t : Task)
    → Memᴰ t rows
    → is_listed rows user t ≡ true
    → has_view_permission rows true user (some t) ≡ true
unfolding is_listed
is_listed-view rows user t m h = elim (Bool-cases (is_owning user t || is_privileged user)) [
  | inl e ↦ is_privileged-view rows user t e
  | inr e ↦ elim (Bool-cases (takes_part user t)) [
    | inl f ↦ takes_part-view rows user t m f
    | inr f ↦ subscribes_main-view rows user t (ground (arith, e, f, h))
  ]
]

-- Who may delete a task may change it, and who may change it may see it.
change-view :
    (rows : List Task) (value : Bool) (user : User) (t : Task)
    → Memᴰ t rows
    → (has_delete_permission value user (some t) ≡ true
        → has_change_permission value user (some t) ≡ true)
      × (has_change_permission value user (some t) ≡ true
          → has_view_permission rows value user (some t) ≡ true)
unfolding has_change_permission has_delete_permission
change-view rows false user t m = (λ d. ground arith, λ c. ground arith)
change-view rows true user t m = (
  λ d. elim (Bool-cases (is_owning user t || is_privileged user)) [
    | inl e ↦ ground arith
    | inr e ↦ ground arith
  ],
  λ c. elim (Bool-cases (is_owning user t || is_privileged user)) [
    | inl e ↦ is_privileged-view rows user t e
    | inr e ↦ takes_part-view rows user t m (change-part user t e c)
  ],
)

-- Of a task in the table: a user who may use the model may open it if it is in his list; who may
-- delete it may change it, and who may change it may open it.
pub permissions_ordered :
    (rows : List Task) (value : Bool) (user : User) (t : Task)
    → Memᴰ t rows
    → (is_listed rows user t ≡ true → has_view_permission rows true user (some t) ≡ true)
      × (has_delete_permission value user (some t) ≡ true
          → has_change_permission value user (some t) ≡ true)
      × (has_change_permission value user (some t) ≡ true
          → has_view_permission rows value user (some t) ≡ true)
permissions_ordered rows value user t m =
    let (delete_change, change_view) = change-view rows value user t m in
    (is_listed-view rows user t m, delete_change, change_view)
