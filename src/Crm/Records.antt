-- ===== src/Crm/Records.antt =====
-- The objects that a request is matched with: crm/models/request.py, contact.py, lead.py, company.py
-- and base_contact.py. A text is the list of its code points. A foreign key to a company or a person
-- is the object that it leads to, any other is a key, and objects are compared by their ids, as
-- Django does. The fields are those that the class itself declares, files left out, and of the
-- inherited ones those that the modelled code reads or writes.
use agamin_crm.Prelude.{
  Bool, List, Option, [], false, if◌then◌else◌, leb, ltb, none, some, true, ℕ, ◌&&◌, ◌+◌, ◌==◌, ◌∷◌,
}

abbrev pub Text : Type 0
Text = List ℕ

-- The truth value of a text, a list or a query set.
abbrev pub given {ℓ} : {A : Type ℓ} → List A → Bool
given [] = false
given (x ∷ xs) = true

pub record Company : Type 0 where
  pub id : ℕ
  pub owner : Option ℕ
  pub full_name : Text
  pub alternative_names : Text
  pub email : Text
  pub website : Text
  pub active : Bool
  pub phone : Text
  pub city_name : Text
  pub registration_number : Text
  pub country : Option ℕ
  pub city : Option ℕ
  pub type : Option ℕ
  pub industry : List ℕ

pub record Contact : Type 0 where
  pub id : ℕ
  pub owner : Option ℕ
  pub department : Option ℕ
  pub first_name : Text
  pub last_name : Text
  pub email : Text
  pub phone : Text
  pub country : Option ℕ
  pub company : Company

pub record Lead : Type 0 where
  pub id : ℕ
  pub owner : Option ℕ
  pub department : Option ℕ
  pub first_name : Text
  pub last_name : Text
  pub email : Text
  pub phone : Text
  pub lead_source : Option ℕ
  pub country : Option ℕ
  pub city : Option ℕ
  pub city_name : Text
  pub disqualified : Bool
  pub company_name : Text
  pub company_phone : Text
  pub company_address : Text
  pub company_email : Text
  pub website : Text
  pub type : Option ℕ
  pub contact : Option ℕ
  pub company : Option Company
  pub industry : List ℕ

pub record Request : Type 0 where
  pub owner : Option ℕ
  pub department : Option ℕ
  pub request_for : Text
  pub first_name : Text
  pub middle_name : Text
  pub last_name : Text
  pub email : Text
  pub phone : Text
  pub website : Text
  pub lead_source : Option ℕ
  pub company_name : Text
  pub receipt_date : Option ℕ
  pub lead : Option Lead
  pub contact : Option Contact
  pub company : Option Company
  pub deal : Option ℕ
  pub products : List ℕ
  pub country : Option ℕ
  pub city : Option ℕ
  pub city_name : Text
  pub description : Text
  pub translation : Text
  pub remark : Text
  pub pending : Bool
  pub subsequent : Bool
  pub duplicate : Bool
  pub verification_required : Bool
  pub ticket : Text
  pub co_owner : Option ℕ

-- A row of one of the two tables that persons are searched in.
pub data Person : Type 0 where
  of_contact : Contact → Person
  of_lead : Lead → Person

-- `==` of two objects that may be `None`.
abbrev pub same_company : Option Company → Company → Bool
same_company none d = false
same_company (some c) d = c.id == d.id

-- The digits of ASCII; those of other scripts, which Python counts too, are left out.
unfoldable pub is_digit : ℕ → Bool
is_digit c = leb 48 c && leb c 57

-- `add_phone_q_params` of common/utils/helpers.py gives no condition for less than five digits.
unfoldable pub digits : Text → ℕ
unfolding is_digit
digits [] = 0
digits (c ∷ cs) = (if is_digit c then 1 else 0) + digits cs

unfoldable pub has_phone_query : Text → Bool
has_phone_query phone = ltb 4 (digits phone)

-- What the database decides: how a row's texts compare with those of a request, and the tables, in
-- the order of their keys. `in_email` is the search for a domain.
pub record Db : Type 0 where
  pub contacts : List Contact
  pub leads : List Lead
  pub companies : List Company
  pub by_first_name : Request → Person → Bool
  pub by_last_name : Request → Person → Bool
  pub by_email : Request → Person → Bool
  pub by_phone : Request → Person → Bool
  pub by_company : Request → Person → Bool
  pub by_name : Request → Company → Bool
  pub by_website : Text → Company → Bool
  pub by_domain : Text → Company → Bool
  pub email_domain : Text → Text
  pub departments : ℕ → List ℕ
