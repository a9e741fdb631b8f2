-- ===== src/Common/Transfer/Moved.antt =====
-- Where the rows are after a transfer.
use agamin_crm.Prelude.{
  Bool, Bool-cases, List, Option, [], ap, false, if◌then◌else◌, inl, inr, none, refl, some, subst,
  true, ℕ, ◌∙◌, ◌∷◌, ◌≡◌,
}
use agamin_crm.Prelude.Action.{Outcome, returned, raised}
use agamin_crm.Common.Transfer.{
  OwnedModel, Attr, Rel, Target, tag_rows, named, NamedRow, Instance, fks, m2ms, set_fk, set_m2m,
  Lookup, one, missing, many, is_caught, is_owned, find_new, set_found, move_fk, move_fks,
  new_values, move_m2ms, update_department, update_all, move_rows, move_models, Transferred,
  user_transfer,
}

no_confusion : {b : Bool} → b ≡ true → b ≡ false → ⊥
no_confusion h k = cc

module _ (owner new_department : ℕ) (tables : Rel → List NamedRow) where
  -- A row whose owner and department are those of another.
  Like : Instance → Instance → Type 0
  Like i j = (j.owner ≡ i.owner) × (j.department ≡ i.department)

  set_found-Like :
      (a : Attr) (r : Rel) (f : Lookup) (i : Instance)
      → Like i (set_found owner new_department tables a r f i).1
  unfolding set_found Like set_fk
  set_found-Like a r (one k) i = (refl, refl)
  set_found-Like a r missing i = elim (Bool-cases (is_caught r)) [
    | inl e ↦ rw e (refl, refl)
    | inr e ↦ rw e (refl, refl)
  ]
  set_found-Like a r many i = (refl, refl)

  move_fk-Like :
      (a : Attr) (r : Rel) (o : Option ℕ) (i : Instance)
      → Like i (move_fk owner new_department tables a r o i).1
  unfolding move_fk Like
  move_fk-Like a r none i = (refl, refl)
  move_fk-Like a r (some k) i =
      unfold Like in set_found-Like a r (find_new owner new_department tables r k) i

  Like-trans : (i j k : Instance) → Like i j → Like j k → Like i k
  unfolding Like
  Like-trans i j k h l = (l.0 ∙ h.0, l.1 ∙ h.1)

  pick-Like :
      (o : Outcome (Unit {0})) (i j : Instance) (rest : Outcome (Unit {0}) × Instance)
      → Like i j
      → Like i rest.1
      → Like i
          (elim o as (λ _. Outcome (Unit {0}) × Instance) [
            | returned u ↦ rest
            | raised e ↦ (raised e, j)
          ]).1
  pick-Like (returned u) i j rest h l = l
  pick-Like (raised e) i j rest h l = h

  move_fks-Like :
      (fs : List (Attr × Rel)) (i : Instance) → Like i (move_fks owner new_department tables fs i).1
  unfolding move_fks
  move_fks-Like [] i = unfold Like in (refl, refl)
  move_fks-Like ((a, r) ∷ fs) i =
      let j = (move_fk owner new_department tables a r (i.fk a) i).1 in
      let here = move_fk-Like a r (i.fk a) i in
      pick-Like (move_fk owner new_department tables a r (i.fk a) i).0 i j
        (move_fks owner new_department tables fs j) here
        (Like-trans i j _ here (move_fks-Like fs j))

  pick_m2m :
      (old : List ℕ) (i : Instance) (x y : Instance × List NamedRow)
      → Like i x.0
      → Like i y.0
      → Like i (elim old as (λ _. Instance × List NamedRow) [ [] ↦ y | k ∷ ks ↦ x ]).0
  pick_m2m [] i x y h l = l
  pick_m2m (k ∷ ks) i x y h l = h

  move_m2ms-Like :
      (ms : List (Attr × Target)) (i : Instance) (ts : List NamedRow)
      → Like i (move_m2ms owner new_department tables ms i ts).0
  unfolding move_m2ms
  move_m2ms-Like [] i ts = unfold Like in (refl, refl)
  move_m2ms-Like ((a, tag_rows) ∷ ms) i ts = move_m2ms-Like ms i _
  move_m2ms-Like ((a, named r) ∷ ms) i ts =
      pick_m2m (i.m2m a) i _ _
        (Like-trans i (set_m2m a (new_values owner new_department tables r (i.m2m a)) i) _
          (unfold Like set_m2m in (refl, refl))
          (move_m2ms-Like ms (set_m2m a (new_values owner new_department tables r (i.m2m a)) i) ts))
        (move_m2ms-Like ms i ts)

  -- A row after the loop over the instances: a row of another owner is untouched.
  Passed : Instance → Instance → Type 0
  Passed i j = Like i j × (is_owned owner new_department tables i ≡ false → j ≡ i)

  AllPassed : List Instance → List Instance → Type 0
  AllPassed [] [] = Unit
  AllPassed (i ∷ is) (j ∷ js) = Passed i j × AllPassed is js
  AllPassed _ _ = ⊥

  AllPassed-refl : (is : List Instance) → AllPassed is is
  unfolding AllPassed Passed Like
  AllPassed-refl [] = tt
  AllPassed-refl (i ∷ is) = (((refl, refl), λ e. refl), AllPassed-refl is)

  if-AllPassed :
      (b : Bool) (l : List Instance) (x y : Outcome (Unit {0}) × List Instance × List NamedRow)
      → (b ≡ true → AllPassed l x.1)
      → (b ≡ false → AllPassed l y.1)
      → AllPassed l (if b then x else y).1
  if-AllPassed true l x y h k = h refl
  if-AllPassed false l x y h k = k refl

  pick-AllPassed :
      (o : Outcome (Unit {0})) (l : List Instance) (ts : List NamedRow)
      (x : Outcome (Unit {0}) × List Instance × List NamedRow)
      → AllPassed l x.1
      → AllPassed l
          (elim o as (λ _. Outcome (Unit {0}) × List Instance × List NamedRow) [
            | returned u ↦ x
            | raised e ↦ (raised e, l, ts)
          ]).1
  pick-AllPassed (returned u) l ts x h = h
  pick-AllPassed (raised e) l ts x h = AllPassed-refl l

  move_rows-Passed :
      (m : OwnedModel) (is : List Instance) (ts : List NamedRow)
      → AllPassed is (move_rows owner new_department tables m is ts).1
  unfolding move_rows AllPassed
  move_rows-Passed m [] ts = tt
  move_rows-Passed m (i ∷ is) ts =
      let j = (move_fks owner new_department tables (fks m) i).1 in
      let k = (move_m2ms owner new_department tables (m2ms m) j ts).0 in
      let new_tags = (move_m2ms owner new_department tables (m2ms m) j ts).1 in
      let like = Like-trans i j k (move_fks-Like (fks m) i) (move_m2ms-Like (m2ms m) j ts) in
      if-AllPassed (is_owned owner new_department tables i) (i ∷ is) _ _
        (λ e. pick-AllPassed (move_fks owner new_department tables (fks m) i).0 (i ∷ is) ts _ (
          (unfold Passed in (like, λ f. absurd (no_confusion e f))),
          move_rows-Passed m is new_tags,
        ))
        (λ e. ((unfold Passed Like in ((refl, refl), λ f. refl)), move_rows-Passed m is ts))

  -- A row of the owner is in the new department, and a row of another owner is as it was.
  pub IsMoved : Instance → Instance → Type 0
  IsMoved i j =
      (j.owner ≡ i.owner)
      × (is_owned owner new_department tables i ≡ true → j.department ≡ some new_department)
      × (is_owned owner new_department tables i ≡ false → j ≡ i)

  pub RowsMoved : List Instance → List Instance → Type 0
  RowsMoved [] [] = Unit
  RowsMoved (i ∷ is) (j ∷ js) = IsMoved i j × RowsMoved is js
  RowsMoved _ _ = ⊥

  -- The same models with the rows of each moved.
  pub AllMoved : List (OwnedModel × List Instance) → List (OwnedModel × List Instance) → Type 0
  unfolding RowsMoved
  AllMoved [] [] = Unit
  AllMoved ((m, is) ∷ ms) ((n, js) ∷ ns) = (n ≡ m) × RowsMoved is js × AllMoved ms ns
  AllMoved _ _ = ⊥

  pub update_department-own :
      (i : Instance)
      → is_owned owner new_department tables i ≡ true
      → update_department owner new_department tables i
        ≡ record i { department = some new_department }
  unfolding update_department
  update_department-own i e =
      ap (λ b. if b then record i { department = some new_department } else i) e

  pub update_department-other :
      (i : Instance)
      → is_owned owner new_department tables i ≡ false
      → update_department owner new_department tables i ≡ i
  unfolding update_department
  update_department-other i e =
      ap (λ b. if b then record i { department = some new_department } else i) e

  Passed-IsMoved :
      (i j : Instance) → Passed (update_department owner new_department tables i) j → IsMoved i j
  unfolding Passed IsMoved Like
  Passed-IsMoved i j h = elim (Bool-cases (is_owned owner new_department tables i)) [
    | inl e ↦
        let p = subst (λ x. Passed x j) (update_department-own i e) h in
        (p.0.0, λ t. p.0.1, λ f. absurd (no_confusion e f))
    | inr e ↦
        let p = subst (λ x. Passed x j) (update_department-other i e) h in
        (p.0.0, λ t. absurd (no_confusion t e), λ f. p.1 e)
  ]

  RowsMoved-update :
      (is js : List Instance)
      → AllPassed (update_all owner new_department tables is) js
      → RowsMoved is js
  unfolding AllPassed RowsMoved update_all
  RowsMoved-update [] [] h = tt
  RowsMoved-update [] (j ∷ js) h = h
  RowsMoved-update (i ∷ is) [] h = h
  RowsMoved-update (i ∷ is) (j ∷ js) h = (Passed-IsMoved i j h.0, RowsMoved-update is js h.1)

  pick-AllMoved :
      (o : Outcome (Unit {0})) (m : OwnedModel) (is js : List Instance)
      (ms : List (OwnedModel × List Instance)) (ts : List NamedRow)
      (x : Outcome (Unit {0}) × List (OwnedModel × List Instance) × List NamedRow)
      → RowsMoved is js
      → (x.0 ≡ returned tt → AllMoved ms x.1)
      → let y =
          elim o as (λ _. Outcome (Unit {0}) × List (OwnedModel × List Instance) × List NamedRow) [
            | returned u ↦ (x.0, (m, js) ∷ x.1, x.2)
            | raised e ↦ (raised e, (m, js) ∷ ms, ts)
          ] in
        y.0 ≡ returned tt → AllMoved ((m, is) ∷ ms) y.1
  unfolding AllMoved
  pick-AllMoved (returned u) m is js ms ts x rows more h = (refl, rows, more h)
  pick-AllMoved (raised e) m is js ms ts x rows more h = cc

  move_models-AllMoved :
      (ms : List (OwnedModel × List Instance)) (ts : List NamedRow)
      → (move_models owner new_department tables ms ts).0 ≡ returned tt
      → AllMoved ms (move_models owner new_department tables ms ts).1
  unfolding move_models AllMoved
  move_models-AllMoved [] ts h = tt
  move_models-AllMoved ((m, is) ∷ ms) ts h =
      let (o, js, new_tags) =
        move_rows owner new_department tables m (update_all owner new_department tables is) ts in
      pick-AllMoved o m is js ms new_tags (move_models owner new_department tables ms new_tags)
        (RowsMoved-update is js (move_rows-Passed m (update_all owner new_department tables is) ts))
        (move_models-AllMoved ms new_tags) h

-- If the transfer returns, every row of the owner in the ten models is in the new department, and
-- every row of another owner is as it was.
pub user_transfer-AllMoved :
    (is_department : ℕ → Bool) (tables : Rel → List NamedRow) (owner new_department : ℕ)
    (w : Transferred)
    → (user_transfer is_department tables owner new_department w).0 ≡ returned tt
    → AllMoved owner new_department tables w.objects
        (user_transfer is_department tables owner new_department w).1.objects
unfolding user_transfer
user_transfer-AllMoved is_department tables owner new_department w h =
    move_models-AllMoved owner new_department tables w.objects w.tags h
