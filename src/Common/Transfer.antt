-- ===== src/Common/Transfer.antt =====
-- Moving a user and what he owns to another department: `user_transfer` of
-- common/views/user_transfer.py, once the user and the department are found. Users, groups and rows
-- are their keys, and a list of groups is in the order of the keys. A row that a field refers to is
-- in its table; the date that a save sets is left out.
pub mod Moved
pub mod Outcomes
use agamin_crm.Prelude.{
  Bool, List, Option, String, [], contains, false, first, if◌then◌else◌, map, none, not, opt_eq,
  select, some, str_eq, true, ℕ, ◌&&◌, ◌++◌, ◌==◌, ◌||◌, ◌∷◌,
}
use agamin_crm.Prelude.Action.{Outcome, returned, raised, does_not_exist, multiple_objects_returned}

-- The models of `objects`.
pub data OwnedModel : Type 0 where
  request deal company contact lead crm_email email_account mailing_out signature eml_message :
      OwnedModel

pub data Attr : Type 0 where
  stage closing_reason type products industry tags : Attr

-- The tables whose rows belong to a department, but for the tags, which the code changes.
pub data Rel : Type 0 where
  stages closing_reasons client_types product_rows industries : Rel

pub data Target : Type 0 where
  tag_rows : Target
  named : Rel → Target

-- A row with the name that a department gives it.
pub record NamedRow : Type 0 where
  pub id : ℕ
  pub name : String
  pub department : Option ℕ

pub record Instance : Type 0 where
  pub owner : Option ℕ
  pub department : Option ℕ
  pub fk : Attr → Option ℕ
  pub m2m : Attr → List ℕ

pub fks : OwnedModel → List (Attr × Rel)
fks deal = (stage, stages) ∷ (closing_reason, closing_reasons) ∷ []
fks company = (type, client_types) ∷ []
fks lead = (type, client_types) ∷ []
fks _ = []

pub m2ms : OwnedModel → List (Attr × Target)
m2ms request = (products, named product_rows) ∷ []
m2ms deal = (tags, tag_rows) ∷ []
m2ms company = (industry, named industries) ∷ (tags, tag_rows) ∷ []
m2ms contact = (tags, tag_rows) ∷ []
m2ms lead = (industry, named industries) ∷ (tags, tag_rows) ∷ []
m2ms _ = []

pub same_attr : Attr → Attr → Bool
same_attr stage stage = true
same_attr closing_reason closing_reason = true
same_attr type type = true
same_attr products products = true
same_attr industry industry = true
same_attr tags tags = true
same_attr _ _ = false

pub set_fk : Attr → ℕ → Instance → Instance
unfolding same_attr
set_fk a k i = record i { fk = λ b. if same_attr b a then some k else i.fk b }

pub set_m2m : Attr → List ℕ → Instance → Instance
unfolding same_attr
set_m2m a ks i = record i { m2m = λ b. if same_attr b a then ks else i.m2m b }

-- What `related_model.objects.get` finds.
pub data Lookup : Type 0 where
  one : ℕ → Lookup
  missing many : Lookup

pub found_of : List NamedRow → Lookup
found_of [] = missing
found_of (r ∷ []) = one r.id
found_of (r ∷ s ∷ rs) = many

-- `except ClientType.DoesNotExist` catches what `ClientType.objects.get` raises, and no other
-- model's exception.
pub is_caught : Rel → Bool
is_caught client_types = true
is_caught _ = false

pub row_ids : List NamedRow → List ℕ
row_ids [] = []
row_ids (r ∷ rs) = r.id ∷ row_ids rs

pub is_named : List String → String → Bool
is_named [] n = false
is_named (m ∷ ms) n = str_eq n m || is_named ms n

module _ (owner : ℕ) (new_department : ℕ) (tables : Rel → List NamedRow) where
  pub is_owned : Instance → Bool
  is_owned i = opt_eq i.owner (some owner)

  -- The row that the field refers to is in the table, so the first branch is never reached.
  -- `related_model.objects.get(department=new_department, name=old_attr_value.name)`
  pub find_new : Rel → ℕ → Lookup
  unfolding found_of
  find_new r k = elim (first (select (λ n. n.id == k) (tables r))) [
    | none ↦ missing
    | some old ↦ found_of (
        select (λ n. opt_eq n.department (some new_department) && str_eq n.name old.name)
          (tables r))
  ]

  pub set_found : Attr → Rel → Lookup → Instance → Outcome (Unit {0}) × Instance
  unfolding set_fk is_caught
  set_found a r (one k) i = (returned tt, set_fk a k i)
  set_found a r missing i = if is_caught r then (returned tt, i) else (raised does_not_exist, i)
  set_found a r many i = (raised multiple_objects_returned, i)

  -- The loop over `item['fk']`; an exception leaves the row unsaved.
  pub move_fk : Attr → Rel → Option ℕ → Instance → Outcome (Unit {0}) × Instance
  unfolding find_new set_found
  move_fk a r none i = (returned tt, i)
  move_fk a r (some k) i = set_found a r (find_new r k) i

  pub move_fks : List (Attr × Rel) → Instance → Outcome (Unit {0}) × Instance
  unfolding move_fk
  move_fks [] i = (returned tt, i)
  move_fks ((a, r) ∷ fs) i =
      let (o, j) = move_fk a r (i.fk a) i in
      let rest = move_fks fs j in elim o [ returned u ↦ rest | raised e ↦ (raised e, j) ]

  pub names_of : Rel → List ℕ → List String
  names_of r ks = map (λ n. n.name) (select (λ n. contains n.id ks) (tables r))

  -- The rows of the new department with the names of the old ones; none clears the field.
  pub new_values : Rel → List ℕ → List ℕ
  unfolding names_of is_named row_ids
  new_values r ks = row_ids (
      select (λ n. opt_eq n.department (some new_department) && is_named (names_of r ks) n.name)
        (tables r))

  pub move_tags : List ℕ → List NamedRow → List NamedRow
  move_tags ks [] = []
  move_tags ks (n ∷ ns) =
      (if contains n.id ks then record n { department = some new_department } else n)
      ∷ move_tags ks ns

  -- The loop over `item.get('m2m', [])`, with the table of the tags.
  pub move_m2ms : List (Attr × Target) → Instance → List NamedRow → Instance × List NamedRow
  unfolding new_values set_m2m move_tags
  move_m2ms [] i tag_table = (i, tag_table)
  move_m2ms ((a, tag_rows) ∷ ms) i tag_table = move_m2ms ms i (move_tags (i.m2m a) tag_table)
  move_m2ms ((a, named r) ∷ ms) i tag_table =
      let old = i.m2m a in
      let changed = move_m2ms ms (set_m2m a (new_values r old) i) tag_table in
      let kept = move_m2ms ms i tag_table in elim old [ [] ↦ kept | k ∷ ks ↦ changed ]

  -- `update(department=new_department)` on the rows of the owner.
  pub update_department : Instance → Instance
  unfolding is_owned
  update_department i = if is_owned i then record i { department = some new_department } else i

  -- The loop over the instances of a model: what is left of the rows after an exception stays.
  pub move_rows :
      OwnedModel
      → List Instance
      → List NamedRow
      → Outcome (Unit {0}) × List Instance × List NamedRow
  unfolding is_owned move_fks move_m2ms fks m2ms
  move_rows m [] tag_table = (returned tt, [], tag_table)
  move_rows m (i ∷ is) tag_table =
      let (o, j) = move_fks (fks m) i in
      let (k, new_tags) = move_m2ms (m2ms m) j tag_table in
      let (after_o, after, after_tags) = move_rows m is new_tags in
      let (skip_o, skip, skip_tags) = move_rows m is tag_table in
      if is_owned i
      then elim o [
        | returned u ↦ (after_o, k ∷ after, after_tags)
        | raised e ↦ (raised e, i ∷ is, tag_table)
      ]
      else (skip_o, i ∷ skip, skip_tags)

  pub update_all : List Instance → List Instance
  unfolding update_department
  update_all is = map update_department is

  -- The loop over `objects`. A model of which the owner has nothing is left alone by both loops.
  pub move_models :
      List (OwnedModel × List Instance)
      → List NamedRow
      → Outcome (Unit {0}) × List (OwnedModel × List Instance) × List NamedRow
  unfolding update_all move_rows
  move_models [] tag_table = (returned tt, [], tag_table)
  move_models ((m, is) ∷ ms) tag_table =
      let (o, js, new_tags) = move_rows m (update_all is) tag_table in
      let (after_o, after, after_tags) = move_models ms new_tags in
      elim o [
        | returned u ↦ (after_o, (m, js) ∷ after, after_tags)
        | raised e ↦ (raised e, (m, js) ∷ ms, new_tags)
      ]

-- The groups of the user, the rows of the models in the order of `objects`, and the tags.
pub record Transferred : Type 0 where
  pub groups : List ℕ
  pub objects : List (OwnedModel × List Instance)
  pub tags : List NamedRow

-- `groups.remove(old_department)` and `groups.add(new_department)`
pub move_groups : (ℕ → Bool) → ℕ → List ℕ → List ℕ
move_groups is_department new_department gs =
    let left : List ℕ = elim (first (select is_department gs)) [
      | none ↦ gs
      | some old ↦ select (λ g. not (g == old)) gs
    ] in
    if contains new_department left then left else left ++ (new_department ∷ [])

pub user_transfer :
    (ℕ → Bool) → (Rel → List NamedRow) → ℕ → ℕ → Transferred → Outcome (Unit {0}) × Transferred
unfolding move_models move_groups
user_transfer is_department tables owner new_department w =
    let (o, after, after_tags) = move_models owner new_department tables w.objects w.tags in
    (
      o,
      record {
        groups = move_groups is_department new_department w.groups;
        objects = after;
        tags = after_tags;
      },
    )
