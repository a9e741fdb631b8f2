-- ===== src/Common/Transfer/Outcomes.antt =====
-- When a transfer fails.
use agamin_crm.Prelude.{
  Bool, Bool-cases, List, Option, [], ap, false, if◌then◌else◌, inl, inr, none, not, refl, some,
  true, ℕ, ◌&&◌, ◌||◌, ◌∙◌, ◌∷◌, ◌≡◌,
}
use agamin_crm.Prelude.Action.{Outcome, returned, raised, Error}
use agamin_crm.Common.Transfer.Moved.{
  update_department-own, update_department-other, AllMoved, user_transfer-AllMoved,
}
use agamin_crm.Common.Transfer.{
  OwnedModel, request, deal, company, contact, lead, crm_email, email_account, mailing_out,
  signature, eml_message, Attr, Rel, NamedRow, Instance, fks, m2ms, same_attr, set_fk, Lookup, one,
  missing, many, is_caught, is_owned, find_new, set_found, move_fk, move_fks, move_m2ms, update_all,
  move_rows, move_models, Transferred, user_transfer,
}

pub returns : {A : Type 0} → Outcome A → Bool
returns (returned a) = true
returns (raised e) = false

pub fits_found : Rel → Lookup → Bool
fits_found r (one k) = true
fits_found r missing = is_caught r
fits_found r many = false

-- What is left out of a sequence after an exception does not matter.
pick-returns :
    {T : Type 0} (out : T → Outcome (Unit {0})) (o : Outcome (Unit {0})) (x : T) (f : Error → T)
    → ((e : Error) → returns (out (f e)) ≡ false)
    → returns (out (elim o as (λ _. T) [ returned u ↦ x | raised e ↦ f e ]))
      ≡ (returns o && returns (out x))
unfolding returns
pick-returns out (returned u) x f h = refl
pick-returns out (raised e) x f h = h e

if-returns :
    {T : Type 0} (out : T → Outcome (Unit {0})) (b : Bool) (x y : T)
    → returns (out (if b then x else y)) ≡ (if b then returns (out x) else returns (out y))
if-returns out true x y = refl
if-returns out false x y = refl

either_way : (b c d : Bool) → (if b then c && d else d) ≡ ((not b || c) && d)
either_way true c d = refl
either_way false c d = refl

-- No two of the fields are the same.
Apart : Attr → List (Attr × Rel) → Type 0
Apart a [] = Unit
Apart a ((b, r) ∷ fs) = (same_attr b a ≡ false) × Apart a fs

Distinct : List (Attr × Rel) → Type 0
unfolding Apart
Distinct [] = Unit
Distinct ((a, r) ∷ fs) = Apart a fs × Distinct fs

fks-Distinct : (m : OwnedModel) → Distinct (fks m)
unfolding Distinct Apart fks same_attr
fks-Distinct request = tt
fks-Distinct deal = ((refl, tt), (tt, tt))
fks-Distinct company = (tt, tt)
fks-Distinct contact = tt
fks-Distinct lead = (tt, tt)
fks-Distinct crm_email = tt
fks-Distinct email_account = tt
fks-Distinct mailing_out = tt
fks-Distinct signature = tt
fks-Distinct eml_message = tt

module _ (owner new_department : ℕ) (tables : Rel → List NamedRow) where
  pub fits_key : Rel → Option ℕ → Bool
  unfolding fits_found
  fits_key r none = true
  fits_key r (some k) = fits_found r (find_new owner new_department tables r k)

  -- Every field that has a value has one counterpart in the new department, or none where the
  -- exception is caught.
  pub fits_all : List (Attr × Rel) → Instance → Bool
  unfolding fits_key
  fits_all [] i = true
  fits_all ((a, r) ∷ fs) i = fits_key r (i.fk a) && fits_all fs i

  set_found-returns :
      (a : Attr) (r : Rel) (f : Lookup) (i : Instance)
      → returns (set_found owner new_department tables a r f i).0 ≡ fits_found r f
  unfolding set_found returns fits_found
  set_found-returns a r (one k) i = refl
  set_found-returns a r missing i = elim (Bool-cases (is_caught r)) [
    | inl e ↦ rw e refl
    | inr e ↦ rw e refl
  ]
  set_found-returns a r many i = refl

  move_fk-returns :
      (a : Attr) (r : Rel) (o : Option ℕ) (i : Instance)
      → returns (move_fk owner new_department tables a r o i).0 ≡ fits_key r o
  unfolding move_fk fits_key
  move_fk-returns a r none i = unfold returns in refl
  move_fk-returns a r (some k) i =
      set_found-returns a r (find_new owner new_department tables r k) i

  set_found-other :
      (a b : Attr) (r : Rel) (f : Lookup) (i : Instance)
      → same_attr b a ≡ false
      → (set_found owner new_department tables a r f i).1.fk b ≡ i.fk b
  unfolding set_found set_fk
  set_found-other a b r (one k) i e = ap (λ c. if c then some k else i.fk b) e
  set_found-other a b r missing i e = elim (Bool-cases (is_caught r)) [
    | inl c ↦ rw c refl
    | inr c ↦ rw c refl
  ]
  set_found-other a b r many i e = refl

  move_fk-other :
      (a b : Attr) (r : Rel) (o : Option ℕ) (i : Instance)
      → same_attr b a ≡ false
      → (move_fk owner new_department tables a r o i).1.fk b ≡ i.fk b
  unfolding move_fk
  move_fk-other a b r none i e = refl
  move_fk-other a b r (some k) i e =
      set_found-other a b r (find_new owner new_department tables r k) i e

  fits_all-other :
      (a : Attr) (r : Rel) (o : Option ℕ) (i : Instance) (fs : List (Attr × Rel))
      → Apart a fs
      → fits_all fs (move_fk owner new_department tables a r o i).1 ≡ fits_all fs i
  unfolding fits_all Apart
  fits_all-other a r o i [] h = refl
  fits_all-other a r o i ((b, s) ∷ fs) h =
      ap (λ k. fits_key s k && fits_all fs (move_fk owner new_department tables a r o i).1)
        (move_fk-other a b r o i h.0)
      ∙ ap (λ c. fits_key s (i.fk b) && c) (fits_all-other a r o i fs h.1)

  move_fks-returns :
      (fs : List (Attr × Rel)) (i : Instance)
      → Distinct fs
      → returns (move_fks owner new_department tables fs i).0 ≡ fits_all fs i
  unfolding move_fks fits_all Distinct
  move_fks-returns [] i h = unfold returns in refl
  move_fks-returns ((a, r) ∷ fs) i h =
      let (o, j) = move_fk owner new_department tables a r (i.fk a) i in
      pick-returns (λ v. v.0) o (move_fks owner new_department tables fs j) (λ e. (raised e, j))
        (λ e. unfold returns in refl)
      ∙ ap (λ c. c && returns (move_fks owner new_department tables fs j).0)
          (move_fk-returns a r (i.fk a) i)
      ∙ ap (λ c. fits_key r (i.fk a) && c)
          (move_fks-returns fs j h.1 ∙ fits_all-other a r (i.fk a) i fs h.0)

  pub rows_fit : OwnedModel → List Instance → Bool
  unfolding fits_all
  rows_fit m [] = true
  rows_fit m (i ∷ is) =
      (not (is_owned owner new_department tables i) || fits_all (fks m) i) && rows_fit m is

  -- Every row of the owner fits the new department.
  pub models_fit : List (OwnedModel × List Instance) → Bool
  unfolding rows_fit
  models_fit [] = true
  models_fit ((m, is) ∷ ms) = rows_fit m is && models_fit ms

  move_rows-returns :
      (m : OwnedModel) (is : List Instance) (ts : List NamedRow)
      → returns (move_rows owner new_department tables m is ts).0 ≡ rows_fit m is
  unfolding move_rows rows_fit
  move_rows-returns m [] ts = unfold returns in refl
  move_rows-returns m (i ∷ is) ts =
      let (o, j) = move_fks owner new_department tables (fks m) i in
      let (k, new_tags) = move_m2ms owner new_department tables (m2ms m) j ts in
      let (after_o, after, after_tags) = move_rows owner new_department tables m is new_tags in
      let own = is_owned owner new_department tables i in
      let out : Outcome (Unit {0}) × List Instance × List NamedRow → Outcome (Unit {0}) =
        λ v. v.0 in
      if-returns out own _ _
      ∙ ap (λ c. if own then c else returns (move_rows owner new_department tables m is ts).0)
          (pick-returns out o (after_o, k ∷ after, after_tags) (λ e. (raised e, i ∷ is, ts))
              (λ e. unfold returns in refl)
            ∙ ap (λ c. c && returns after_o) (move_fks-returns (fks m) i (fks-Distinct m))
            ∙ ap (λ c. fits_all (fks m) i && c) (move_rows-returns m is new_tags))
      ∙ ap (λ c. if own then fits_all (fks m) i && rows_fit m is else c) (move_rows-returns m is ts)
      ∙ either_way own (fits_all (fks m) i) (rows_fit m is)

  fits_all-department :
      (fs : List (Attr × Rel)) (i : Instance)
      → fits_all fs (record i { department = some new_department }) ≡ fits_all fs i
  unfolding fits_all
  fits_all-department [] i = refl
  fits_all-department ((a, r) ∷ fs) i =
      ap (λ c. fits_key r (i.fk a) && c) (fits_all-department fs i)

  rows_fit-update :
      (m : OwnedModel) (is : List Instance)
      → rows_fit m (update_all owner new_department tables is) ≡ rows_fit m is
  unfolding rows_fit update_all is_owned
  rows_fit-update m [] = refl
  rows_fit-update m (i ∷ is) = elim (Bool-cases (is_owned owner new_department tables i)) [
    | inl e ↦
        let moved = update_department-own owner new_department tables i e in
        ap
          (λ j.
            (not (is_owned owner new_department tables j) || fits_all (fks m) j)
            && rows_fit m (update_all owner new_department tables is))
          moved
        ∙ ap
            (λ c.
              (not (is_owned owner new_department tables i) || c)
              && rows_fit m (update_all owner new_department tables is))
            (fits_all-department (fks m) i)
        ∙ ap (λ c. (not (is_owned owner new_department tables i) || fits_all (fks m) i) && c)
            (rows_fit-update m is)
    | inr e ↦
        ap
          (λ j.
            (not (is_owned owner new_department tables j) || fits_all (fks m) j)
            && rows_fit m (update_all owner new_department tables is))
          (update_department-other owner new_department tables i e)
        ∙ ap (λ c. (not (is_owned owner new_department tables i) || fits_all (fks m) i) && c)
            (rows_fit-update m is)
  ]

  move_models-returns :
      (ms : List (OwnedModel × List Instance)) (ts : List NamedRow)
      → returns (move_models owner new_department tables ms ts).0 ≡ models_fit ms
  unfolding move_models models_fit
  move_models-returns [] ts = unfold returns in refl
  move_models-returns ((m, is) ∷ ms) ts =
      let (o, js, new_tags) =
        move_rows owner new_department tables m (update_all owner new_department tables is) ts in
      let (after_o, after, after_tags) = move_models owner new_department tables ms new_tags in
      let out : Outcome (Unit {0}) × List (OwnedModel × List Instance) × List NamedRow
          → Outcome (Unit {0}) =
        λ v. v.0 in
      pick-returns out o (after_o, (m, js) ∷ after, after_tags)
        (λ e. (raised e, (m, js) ∷ ms, new_tags)) (λ e. unfold returns in refl)
      ∙ ap (λ c. c && returns after_o)
          (move_rows-returns m (update_all owner new_department tables is) ts
            ∙ rows_fit-update m is)
      ∙ ap (λ c. rows_fit m is && c) (move_models-returns ms new_tags)

-- The transfer returns exactly if every field `stage`, `closing_reason` and `type` of the rows of
-- the user that has a value finds one row of its name in the new department; only a client type
-- may be missing there.
user_transfer-returns :
    (is_department : ℕ → Bool) (tables : Rel → List NamedRow) (owner new_department : ℕ)
    (w : Transferred)
    → returns (user_transfer is_department tables owner new_department w).0
      ≡ models_fit owner new_department tables w.objects
unfolding user_transfer
user_transfer-returns is_department tables owner new_department w =
    move_models-returns owner new_department tables w.objects w.tags

-- The transfer returns exactly if every field `stage`, `closing_reason` and `type` of the rows of
-- the user that has a value finds one row of its name in the new department, where only a client
-- type may be missing; and if it returns, every row of the user in the models of `objects` is in
-- the new department, and every row of another owner is as it was.
pub user_transfer_lem :
    (is_department : ℕ → Bool) (tables : Rel → List NamedRow) (owner new_department : ℕ)
    (w : Transferred)
    → (returns (user_transfer is_department tables owner new_department w).0
        ≡ models_fit owner new_department tables w.objects)
      × ((user_transfer is_department tables owner new_department w).0 ≡ returned tt
          → AllMoved owner new_department tables w.objects
              (user_transfer is_department tables owner new_department w).1.objects)
user_transfer_lem is_department tables owner new_department w = (
  user_transfer-returns is_department tables owner new_department w,
  user_transfer-AllMoved is_department tables owner new_department w,
)
