-- ===== src/Crm/Duplicates/Relink/Unlinked.antt =====
-- What `relate_to` and `post` of crm/views/delete_duplicate_object.py leave of the references to the
-- duplicate.
use agamin_crm.Prelude.{
  All, Bool, Bool-cases, List, Option, [], ap, arith, false, if◌then◌else◌, inl, inr, map, none,
  not, opt_eq, refl, select, some, subst, sym, true, ℕ, ◌&&◌, ◌==◌, ◌||◌, ◌∙◌, ◌∷◌, ◌≡◌, ◌⊎◌,
}
use agamin_crm.Massmail.World.{MassContact}
use agamin_crm.Crm.Request.Search.Result.{In}
use agamin_crm.Crm.Duplicates.{Model, Related, get_data, Obj}
use agamin_crm.Crm.Duplicates.Relink.{
  Links, relation, relink_key, relink_keys, relink_file, relink_models, relate_to, post,
}

-- Whether a related model is among those of a list.
pub is_related : Related → List Related → Bool
unfolding relation
is_related r [] = false
is_related r (s ∷ ss) = relation r == relation s || is_related r ss

-- A deletion deletes rows or sets keys to none, and adds nothing.
pub record Shrinks (delete : Links → Links) : Type 0 where
  pub no_key :
      (w : Links) (r : Related) (k : Option ℕ)
      → In k ((delete w).keys r)
      → (k ≡ none) ⊎ In k (w.keys r)
  pub no_file : (w : Links) (f : ℕ × ℕ) → In f (delete w).files → In f w.files

among :
    {A : Type 0} (p : A → Bool) (xs : List A)
    → ((x : A) → In x xs → p x ≡ false)
    → All (λ x. p x ≡ false) xs
among p [] h = tt
among p (x ∷ xs) h = (h x (inl refl), among p xs (λ y i. h y (inr i)))

each :
    {A : Type 0} (p : A → Bool) (x : A) (xs : List A)
    → All (λ y. p y ≡ false) xs
    → In x xs
    → p x ≡ false
each p x [] h i = absurd i
each p x (y ∷ ys) h (inl e) = subst (λ z. p z ≡ false) (sym e) h.0
each p x (y ∷ ys) h (inr i) = each p x ys h.1 i

module _ (content_type duplicate original : ℕ) where
  -- No key is that of the duplicate.
  abbrev pub Free : List (Option ℕ) → Type 0
  Free = All (λ k. opt_eq k (some duplicate) ≡ false)

  relink_key-free :
      (k : Option ℕ)
      → (original == duplicate) ≡ false
      → opt_eq (relink_key content_type duplicate original k) (some duplicate) ≡ false
  unfolding relink_key
  relink_key-free k ne = elim (Bool-cases (opt_eq k (some duplicate))) [
    | inl e ↦ rw e ne
    | inr e ↦ rw (e, e) refl
  ]

  map-Free :
      (ks : List (Option ℕ))
      → (original == duplicate) ≡ false
      → Free (map (relink_key content_type duplicate original) ks)
  map-Free [] ne = tt
  map-Free (k ∷ ks) ne = (relink_key-free k ne, map-Free ks ne)

  if-Free :
      (b : Bool) (ks : List (Option ℕ))
      → (original == duplicate) ≡ false
      → (b ≡ true) ⊎ Free ks
      → Free (if b then map (relink_key content_type duplicate original) ks else ks)
  if-Free true ks ne h = map-Free ks ne
  if-Free false ks ne (inl e) = cc
  if-Free false ks ne (inr h) = h

  step :
      (r s : Related) (ss : List Related) (w : Links)
      → (original == duplicate) ≡ false
      → (is_related r (s ∷ ss) ≡ true) ⊎ Free (w.keys r)
      → (is_related r ss ≡ true) ⊎ Free ((relink_keys content_type duplicate original s w).keys r)
  unfolding relink_keys is_related
  step r s ss w ne (inl listed) = elim (Bool-cases (relation r == relation s)) [
    | inl e ↦ inr (if-Free (relation r == relation s) (w.keys r) ne (inl e))
    | inr e ↦ inl (ground (arith, e, listed))
  ]
  step r s ss w ne (inr h) = inr (if-Free (relation r == relation s) (w.keys r) ne (inr h))

  relink_models-Free :
      (r : Related) (ss : List Related) (w : Links)
      → (original == duplicate) ≡ false
      → (is_related r ss ≡ true) ⊎ Free (w.keys r)
      → Free ((relink_models content_type duplicate original ss w).keys r)
  unfolding relink_models relink_keys is_related
  relink_models-Free r [] w ne (inl e) = cc
  relink_models-Free r [] w ne (inr h) = h
  relink_models-Free r (s ∷ ss) w ne h =
      relink_models-Free r ss (relink_keys content_type duplicate original s w) ne
        (step r s ss w ne h)

  file-free :
      (t k : ℕ)
      → (original == duplicate) ≡ false
      → let f = relink_file content_type duplicate original (t, k) in
        (f.0 == content_type && f.1 == duplicate) ≡ false
  unfolding relink_file
  file-free t k ne = elim (Bool-cases (t == content_type && k == duplicate)) [
    | inl e ↦ ground (arith, e, ne)
    | inr e ↦ ground (arith, e)
  ]

  files-free :
      (fs : List (ℕ × ℕ))
      → (original == duplicate) ≡ false
      → All
          (λ f. (f.0 == content_type && f.1 == duplicate) ≡ false)
          (map (relink_file content_type duplicate original) fs)
  unfolding relink_file
  files-free [] ne = tt
  files-free ((t, k) ∷ fs) ne = (file-free t k ne, files-free fs ne)

  select-not :
      (p : MassContact → Bool) (xs : List MassContact)
      → All (λ x. p x ≡ false) (select (λ x. not (p x)) xs)
  select-not p [] = tt
  select-not p (x ∷ xs) = elim (Bool-cases (p x)) [
    | inl e ↦ rw e (select-not p xs)
    | inr e ↦ rw e (e, select-not p xs)
  ]

  same_partners :
      (rs : List Related) (w : Links)
      → (relink_models content_type duplicate original rs w).partner_contacts ≡ w.partner_contacts
  unfolding relink_models relink_keys
  same_partners [] w = refl
  same_partners (r ∷ rs) w = same_partners rs (relink_keys content_type duplicate original r w)

  -- The key of the original in the place of that of the duplicate.
  abbrev pub moved : Option ℕ → Option ℕ
  moved none = none
  moved (some k) = if k == duplicate then some original else some k

  relink_key-moved : (k : Option ℕ) → relink_key content_type duplicate original k ≡ moved k
  unfolding relink_key
  relink_key-moved none = refl
  relink_key-moved (some k) = refl

  map-moved :
      (ks : List (Option ℕ)) → map (relink_key content_type duplicate original) ks ≡ map moved ks
  map-moved [] = refl
  map-moved (k ∷ ks) = rw (relink_key-moved k, map-moved ks) refl

  abbrev relinked : (r : Related) (model : Model) → Links → List (Option ℕ)
  relinked r model w = (relink_models content_type duplicate original (get_data model).1 w).keys r

  relinked-eq :
      (r : Related) (model : Model) (w : Links)
      → relinked r model w ≡ (
          if is_related r (get_data model).1
          then map (relink_key content_type duplicate original) (w.keys r)
          else w.keys r)
  unfolding relink_models relink_keys is_related relation get_data
  relinked-eq Related.deals Model.company w = refl
  relinked-eq Related.contacts Model.company w = refl
  relinked-eq Related.emails Model.company w = refl
  relinked-eq Related.requests Model.company w = refl
  relinked-eq Related.companies Model.company w = refl
  relinked-eq Related.leads Model.company w = refl
  relinked-eq Related.deals Model.contact w = refl
  relinked-eq Related.contacts Model.contact w = refl
  relinked-eq Related.emails Model.contact w = refl
  relinked-eq Related.requests Model.contact w = refl
  relinked-eq Related.companies Model.contact w = refl
  relinked-eq Related.leads Model.contact w = refl
  relinked-eq Related.deals Model.lead w = refl
  relinked-eq Related.contacts Model.lead w = refl
  relinked-eq Related.emails Model.lead w = refl
  relinked-eq Related.requests Model.lead w = refl
  relinked-eq Related.companies Model.lead w = refl
  relinked-eq Related.leads Model.lead w = refl
  relinked-eq Related.deals Model.city w = refl
  relinked-eq Related.contacts Model.city w = refl
  relinked-eq Related.emails Model.city w = refl
  relinked-eq Related.requests Model.city w = refl
  relinked-eq Related.companies Model.city w = refl
  relinked-eq Related.leads Model.city w = refl

  delete-Free :
      (delete : Links → Links) (r : Related) (w : Links)
      → Shrinks delete
      → Free (w.keys r)
      → Free ((delete w).keys r)
  delete-Free delete r w shrinks h =
      among (λ k. opt_eq k (some duplicate)) _
        (λ k i. elim (shrinks.no_key w r k i) [
          | inl e ↦ subst (λ z. opt_eq z (some duplicate) ≡ false) (sym e) refl
          | inr old ↦ each (λ z. opt_eq z (some duplicate)) k (w.keys r) h old
        ])

  -- If the original is another object than the duplicate, and the deletion of the duplicate adds no
  -- row and no key, then `relate_to` puts the original in the place of the duplicate in the foreign
  -- keys of the related models, and leaves all other keys as they were, those in partner_contact of a
  -- deal too. After `post`, no key of the related models, no file and no mass contact refers to the
  -- duplicate.
  pub post_unlinked :
      (delete : Links → Links) (model : Model) (d o : Obj) (w : Links)
      → (original == duplicate) ≡ false
      → Shrinks delete
      → let u = relate_to content_type duplicate original model w in
        let v = (post content_type duplicate original delete model d o w).1 in
        ((r : Related)
          → u.keys r ≡ (if is_related r (get_data model).1 then map moved (w.keys r) else w.keys r))
        × (u.partner_contacts ≡ w.partner_contacts)
        × ((r : Related) → is_related r (get_data model).1 ≡ true → Free (v.keys r))
        × All (λ f. (f.0 == content_type && f.1 == duplicate) ≡ false) v.files
        × All
            (λ mc. (mc.content_type == content_type && mc.object_id == duplicate) ≡ false)
            v.mass_contacts
  unfolding post relate_to
  post_unlinked delete model d o w ne shrinks =
      let u = relate_to content_type duplicate original model w in
      let p : ℕ × ℕ → Bool = λ f. f.0 == content_type && f.1 == duplicate in
      (
        λ r.
            relinked-eq r model w
            ∙ ap (λ ks. if is_related r (get_data model).1 then ks else w.keys r)
                (map-moved (w.keys r)),
        same_partners (get_data model).1 w,
        λ r listed.
            delete-Free delete r u shrinks
              (relink_models-Free r (get_data model).1 w ne (inl listed)),
        among p (delete u).files
            (λ f i. each p f u.files (files-free _ ne) (shrinks.no_file u f i)),
        select-not (λ mc. mc.content_type == content_type && mc.object_id == duplicate)
            (delete u).mass_contacts,
      )
