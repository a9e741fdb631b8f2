-- ===== src/Crm/Duplicates.antt =====
-- What becomes of the fields of an object when a duplicate of it is deleted: `get_data` and
-- `update_fields` of crm/views/delete_duplicate_object.py.
pub mod Fields
pub mod Relink
use agamin_crm.Prelude.{
  List, String, [], contains, if◌then◌else◌, not, select, str_eq, ℕ, ◌&&◌, ◌++◌, ◌∷◌,
}
use agamin_crm.Crm.Records.{Text, given}

-- The models that have duplicates.
pub data Model : Type 0 where
  company contact lead city : Model

pub data Related : Type 0 where
  deals contacts emails requests companies leads : Related

-- `get_data`: the foreign key to the object, and the models that have it.
pub get_data : Model → String × List Related
get_data company = ("company", deals ∷ contacts ∷ emails ∷ requests ∷ [])
get_data contact = ("contact", deals ∷ requests ∷ emails ∷ [])
get_data lead = ("lead", deals ∷ emails ∷ requests ∷ [])
get_data city = ("city", companies ∷ requests ∷ leads ∷ [])

-- The fields with one value, and those with many.
pub fields : Model → List String
fields company =
    "address" ∷ "city_name" ∷ "city" ∷ "country" ∷ "description" ∷ "email" ∷ "full_name"
    ∷ "lead_source" ∷ "phone" ∷ "registration_number" ∷ "type" ∷ "was_in_touch" ∷ "website" ∷ []
fields contact =
    "address" ∷ "birth_date" ∷ "city_name" ∷ "city" ∷ "company" ∷ "country" ∷ "description"
    ∷ "email" ∷ "first_name" ∷ "last_name" ∷ "lead_source" ∷ "middle_name" ∷ "mobile"
    ∷ "other_phone" ∷ "phone" ∷ "secondary_email" ∷ "sex" ∷ "title" ∷ "token" ∷ "was_in_touch" ∷ []
fields lead =
    "address" ∷ "birth_date" ∷ "city_name" ∷ "city" ∷ "company_address" ∷ "company_email"
    ∷ "company_name" ∷ "company_phone" ∷ "country" ∷ "description" ∷ "email" ∷ "first_name"
    ∷ "last_name" ∷ "lead_source" ∷ "middle_name" ∷ "mobile" ∷ "other_phone" ∷ "phone"
    ∷ "secondary_email" ∷ "sex" ∷ "title" ∷ "type" ∷ "was_in_touch" ∷ "website" ∷ []
fields city = "name" ∷ "alternative_names" ∷ "country" ∷ []

pub m2m_fields : Model → List String
m2m_fields company = "industry" ∷ "tags" ∷ []
m2m_fields contact = "tags" ∷ []
m2m_fields lead = "industry" ∷ "tags" ∷ []
m2m_fields city = []

-- An object by the names of its fields: a value, empty where its truth value is false, and the keys
-- that a many-to-many field relates it to.
pub record Obj : Type 0 where
  pub value : String → Text
  pub related : String → List ℕ

-- `setattr(self.original, f, getattr(self.duplicate, f))` where only the duplicate has a value.
pub fill_one : Obj → String → Obj → Obj
fill_one duplicate f original = record original {
  value = λ g.
      if str_eq g f && (not (given (original.value f)) && given (duplicate.value f))
      then duplicate.value f
      else original.value g;
}

pub fill : Obj → List String → Obj → Obj
unfolding fill_one
fill duplicate [] original = original
fill duplicate (f ∷ fs) original = fill duplicate fs (fill_one duplicate f original)

-- `getattr(self.original, f).add(*objects)`: a key that is there is not added again.
pub add_one : Obj → String → Obj → Obj
add_one duplicate f original = record original {
  related = λ g.
      if str_eq g f
      then original.related f
        ++ select (λ k. not (contains k (original.related f))) (duplicate.related f)
      else original.related g;
}

pub add_all : Obj → List String → Obj → Obj
unfolding add_one
add_all duplicate [] original = original
add_all duplicate (f ∷ fs) original = add_all duplicate fs (add_one duplicate f original)

pub update_fields : Model → Obj → Obj → Obj
unfolding fill add_all fields m2m_fields
update_fields model duplicate original =
    add_all duplicate (m2m_fields model) (fill duplicate (fields model) original)
