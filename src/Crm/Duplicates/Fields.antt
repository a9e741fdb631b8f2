-- ===== src/Crm/Duplicates/Fields.antt =====
-- Which value every field has after `update_fields`.
use agamin_crm.Prelude.{
  Bool, Bool-cases, List, String, [], ap, eq_iff, false, if◌then◌else◌, inl, inr, not, refl, str_eq,
  subst, sym, true, ◌&&◌, ◌||◌, ◌∙◌, ◌∷◌, ◌≡◌,
}
use agamin_crm.Crm.Records.{Text, given}
use agamin_crm.Crm.Duplicates.{
  Model, fields, m2m_fields, Obj, fill_one, fill, add_one, add_all, update_fields,
}

-- Whether a name stands in a list.
abbrev pub named : String → List String → Bool
named g [] = false
named g (f ∷ fs) = str_eq g f || named g fs

-- The value that a field is to have.
pub merged : Bool → Text → Text → Text
merged listed own other = if listed && not (given own) then other else own

no_text : (t : Text) → given t ≡ false → t ≡ []
no_text [] e = refl
no_text (c ∷ t) e = absurd (cc)

-- Filling a field once more changes nothing.
merged_twice :
    (listed : Bool) (own other : Text)
    → merged listed (if not (given own) && given other then other else own) other
      ≡ merged true own other
unfolding merged
merged_twice true [] [] = refl
merged_twice false [] [] = refl
merged_twice true [] (d ∷ ds) = refl
merged_twice false [] (d ∷ ds) = refl
merged_twice true (c ∷ cs) other = refl
merged_twice false (c ∷ cs) other = refl

module _ (duplicate original : Obj) (f : String) (fs : List String) where
  -- Filling the field `f` before the others, seen from the field `g`.
  Step : String → Type 0
  Step g =
      merged (named g fs) ((fill_one duplicate f original).value g) (duplicate.value g)
      ≡ merged (named g (f ∷ fs)) (original.value g) (duplicate.value g)

  same_field : str_eq f f ≡ true → Step f
  unfolding fill_one Step
  same_field e = rw e (merged_twice (named f fs) (original.value f) (duplicate.value f))

  each_field : (g : String) → Step g
  unfolding fill_one Step
  each_field g = elim (Bool-cases (str_eq g f)) [
    | inl e ↦
        let here : g ≡ f = (eq_iff g f).0 e in
        subst Step (sym here) (same_field (subst (λ h. str_eq h f ≡ true) here e))
    | inr e ↦ rw e refl
  ]

fill-merged :
    (duplicate : Obj) (fs : List String) (original : Obj) (g : String)
    → (fill duplicate fs original).value g
      ≡ merged (named g fs) (original.value g) (duplicate.value g)
unfolding fill Step
fill-merged duplicate [] original g = unfold merged in refl
fill-merged duplicate (f ∷ fs) original g =
    fill-merged duplicate fs (fill_one duplicate f original) g
    ∙ each_field duplicate original f fs g

add_all-value :
    (duplicate : Obj) (fs : List String) (original : Obj)
    → (add_all duplicate fs original).value ≡ original.value
unfolding add_all add_one
add_all-value duplicate [] original = refl
add_all-value duplicate (f ∷ fs) original =
    add_all-value duplicate fs (add_one duplicate f original)

-- After `update_fields` a field that the source lists has the duplicate's value if its own was
-- empty; every other field, and every field with a value, keeps what it had.
pub update_fields-merged :
    (model : Model) (duplicate original : Obj) (g : String)
    → (update_fields model duplicate original).value g
      ≡ merged (named g (fields model)) (original.value g) (duplicate.value g)
unfolding update_fields
update_fields-merged model duplicate original g =
    ap (λ v. v g)
      (add_all-value duplicate (m2m_fields model) (fill duplicate (fields model) original))
    ∙ fill-merged duplicate (fields model) original g
