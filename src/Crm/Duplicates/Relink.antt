-- ===== src/Crm/Duplicates/Relink.antt =====
-- What is related to a duplicate: `relate_to` and `post` of crm/views/delete_duplicate_object.py. A
-- text is the list of its code points, 44 the comma; the key of the duplicate comes from the URL,
-- that of the original from the form, and both are written in decimal digits.
pub mod Scan
pub mod Replace
pub mod Unlinked
use agamin_crm.Prelude.{
  Bool, List, Option, [], false, if◌then◌else◌, is_some, length, map, none, not, opt_eq, select,
  some, suc, true, zero, ℕ, ◌&&◌, ◌++◌, ◌==◌, ◌||◌, ◌∷◌,
}
use agamin_crm.Massmail.Ids.{str}
use agamin_crm.Massmail.World.{MassContact}
use agamin_crm.Crm.Duplicates.{
  Model, Related, deals, contacts, emails, requests, companies, leads, get_data, Obj, update_fields,
}

pub text_eq : List ℕ → List ℕ → Bool
text_eq [] [] = true
text_eq (a ∷ s) (b ∷ t) = a == b && text_eq s t
text_eq _ _ = false

-- What follows a prefix of a text.
pub after_prefix : List ℕ → List ℕ → Option (List ℕ)
after_prefix [] t = some t
after_prefix (a ∷ p) [] = none
after_prefix (a ∷ p) (b ∷ t) = if a == b then after_prefix p t else none

-- The searches `^d,`, `,d,` and `,d$` for the digits `d` of the duplicate.
pub found_start : List ℕ → List ℕ → Bool
unfolding after_prefix
found_start d t = is_some (after_prefix (d ++ (44 ∷ [])) t)

pub found_mid : List ℕ → List ℕ → Bool
unfolding after_prefix
found_mid d [] = false
found_mid d (c ∷ t) = is_some (after_prefix (44 ∷ (d ++ (44 ∷ []))) (c ∷ t)) || found_mid d t

pub found_end : List ℕ → List ℕ → Bool
unfolding text_eq
found_end d [] = false
found_end d (c ∷ t) = text_eq (44 ∷ d) (c ∷ t) || found_end d t

-- `re.sub(fr"^{d},", f"{o},", ids)`
pub sub_start : List ℕ → List ℕ → List ℕ → List ℕ
unfolding after_prefix
sub_start d o t = elim (after_prefix (d ++ (44 ∷ [])) t) [ none ↦ t | some rest ↦ o ++ (44 ∷ rest) ]

-- `re.sub(fr",{d},", f",{o},", ids)`: the matches do not overlap; the number counts the characters
-- of a match that are left.
pub sub_mid : List ℕ → List ℕ → ℕ → List ℕ → List ℕ
unfolding after_prefix
sub_mid d o k [] = []
sub_mid d o (suc k) (c ∷ t) = sub_mid d o k t
sub_mid d o zero (c ∷ t) =
    let replaced = sub_mid d o (suc (length d)) t in
    let kept = sub_mid d o zero t in
    if is_some (after_prefix (44 ∷ (d ++ (44 ∷ []))) (c ∷ t))
    then 44 ∷ (o ++ (44 ∷ replaced))
    else c ∷ kept

-- `re.sub(fr",{d}$", f",{o}", ids)`
pub sub_end : List ℕ → List ℕ → List ℕ → List ℕ
unfolding text_eq
sub_end d o [] = []
sub_end d o (c ∷ t) =
    let rest = sub_end d o t in if text_eq (44 ∷ d) (c ∷ t) then 44 ∷ o else c ∷ rest

-- What becomes of the text of ids of a mailing.
pub relink_text : ℕ → ℕ → List ℕ → List ℕ
unfolding found_start found_mid found_end sub_start sub_mid sub_end
relink_text duplicate original ids =
    let d = str duplicate in
    let o = str original in
    if found_start d ids || (found_mid d ids || found_end d ids)
    then sub_end d o (sub_mid d o zero (sub_start d o ids))
    else ids

-- The tables that refer to the objects of the model: for each related model the foreign key of
-- every row, the key `partner_contact` of every deal, which is no part of `get_data`, the texts of
-- ids of the mailings, and the content type and key of every file.
pub record Links : Type 0 where
  pub keys : Related → List (Option ℕ)
  pub partner_contacts : List (Option ℕ)
  pub mailings : List (List ℕ)
  pub files : List (ℕ × ℕ)
  pub mass_contacts : List MassContact

pub relation : Related → ℕ
relation deals = 0
relation contacts = 1
relation emails = 2
relation requests = 3
relation companies = 4
relation leads = 5

module _ (content_type duplicate original : ℕ) where
  pub relink_key : Option ℕ → Option ℕ
  relink_key k = if opt_eq k (some duplicate) then some original else k

  -- `objects.update(**kwarg2)`, for one related model.
  pub relink_keys : Related → Links → Links
  unfolding relink_key relation
  relink_keys r w = record w {
    keys = λ s. if relation s == relation r then map relink_key (w.keys s) else w.keys s;
  }

  pub relink_file : ℕ × ℕ → ℕ × ℕ
  relink_file (t, k) = if t == content_type && k == duplicate then (t, original) else (t, k)

  pub relink_models : List Related → Links → Links
  unfolding relink_keys
  relink_models [] w = w
  relink_models (r ∷ rs) w = relink_models rs (relink_keys r w)

  pub relate_to : Model → Links → Links
  unfolding relink_models relink_text relink_file get_data
  relate_to model w =
      let v = relink_models (get_data model).1 w in
      record v {
        mailings = map (relink_text duplicate original) v.mailings;
        files = map relink_file v.files;
      }

  -- What `post` does with both objects, here those of the duplicate and of the original, once the
  -- form is valid and both are found. `delete` is what `self.duplicate.delete()` makes of the tables,
  -- where the database deletes in turn what still refers to the duplicate.
  pub post : (Links → Links) → Model → Obj → Obj → Links → Obj × Links
  unfolding relate_to update_fields
  post delete model duplicate_obj original_obj w =
      let v = delete (relate_to model w) in
      (
        update_fields model duplicate_obj original_obj,
        record v {
          mass_contacts =
              select (λ mc. not (mc.content_type == content_type && mc.object_id == duplicate))
                v.mass_contacts;
        },
      )
