-- ===== src/Prelude/Lists.antt =====
-- Lists measured and indexed by native numbers, and lists of ids with their counts.
use Prim.Native.Nat.{ℕ, zero, suc, ◌+◌, ◌<◌}
use mathlib.Core.Path.{◌≡◌, refl}
use mathlib.Core.Logic.{inl, inr}
use mathlib.Core.Bool.{Bool, true, false, ◌||◌}
use mathlib.Core.List.{List, [], ◌∷◌, ◌++◌}
use mathlib.Core.Option.{Option, none, some}
use native.Mathlib.Omega.{arith}
use agamin_crm.Prelude.Tests.{◌==◌, if◌then◌else◌, Bool-cases, Option-cases}

module _ {ℓ} {A : Type ℓ} where
  abbrev pub length : List A → ℕ
  length [] = 0
  length (x ∷ xs) = suc (length xs)

  abbrev pub get_elem? : List A → ℕ → Option A
  get_elem? [] i = none
  get_elem? (x ∷ xs) zero = some x
  get_elem? (x ∷ xs) (suc i) = get_elem? xs i

  pub length-append : (xs ys : List A) → length (xs ++ ys) ≡ length xs + length ys
  length-append [] ys = omega arith
  length-append (x ∷ xs) ys = omega (arith, length-append xs ys)

  -- Every element has the property.
  abbrev pub All {κ} : (A → Type κ) → List A → Type κ
  All P [] = Unit
  All P (x ∷ xs) = P x × All P xs

  abbrev pub first : List A → Option A
  first [] = none
  first (x ∷ xs) = some x

  -- A query set's `filter`, in its order.
  abbrev pub select : (A → Bool) → List A → List A
  select p [] = []
  select p (x ∷ xs) = if p x then x ∷ select p xs else select p xs

pub select-append {ℓ} :
    {A : Type ℓ} (p : A → Bool) (xs ys : List A) → select p (xs ++ ys) ≡ select p xs ++ select p ys
select-append p [] ys = refl
select-append p (x ∷ xs) ys = elim (Bool-cases (p x)) [
  | inl e ↦ rw (e, select-append p xs ys) refl
  | inr e ↦ rw (e, select-append p xs ys) refl
]

-- Python's `in` on a list of ids.
abbrev pub contains : ℕ → List ℕ → Bool
contains a [] = false
contains a (x ∷ xs) = a == x || contains a xs

-- How often an id occurs.
abbrev pub count : ℕ → List ℕ → ℕ
count a [] = 0
count a (x ∷ xs) = if a == x then suc (count a xs) else count a xs

-- Python's `list.remove`, which raises `ValueError` where the value is missing.
abbrev pub remove : ℕ → List ℕ → Option (List ℕ)
remove a [] = none
remove a (x ∷ xs) =
    if a == x then some xs else elim (remove a xs) [ none ↦ none | some r ↦ some (x ∷ r) ]

pub count-append : (a : ℕ) (xs ys : List ℕ) → count a (xs ++ ys) ≡ count a xs + count a ys
count-append a [] ys = omega arith
count-append a (x ∷ xs) ys = ground (arith, count-append a xs ys)

-- What a successful `remove` leaves: one occurrence less of the value, and all else as before.
pub count-remove :
    (b a : ℕ) (xs r : List ℕ)
    → remove a xs ≡ some r
    → count b xs ≡ count b r + (if b == a then 1 else 0)
count-remove b a [] r h = ground arith
count-remove b a (x ∷ xs) r h = elim (Option-cases (remove a xs)) [
  | inl missing ↦ ground arith
  | inr (s, e) ↦ ground (arith, count-remove b a xs s e)
]

-- `remove` raises exactly where the value does not occur.
pub remove-eq-none : (a : ℕ) (xs : List ℕ) → count a xs ≡ 0 → remove a xs ≡ none
remove-eq-none a [] h = refl
remove-eq-none a (x ∷ xs) h = ground (arith, remove-eq-none a xs)

pub remove-total : (a : ℕ) (xs : List ℕ) → 0 < count a xs → (r : List ℕ) × (remove a xs ≡ some r)
remove-total a [] h = elim h [ ]
remove-total a (x ∷ xs) h = elim (Bool-cases (a == x)) [
  | inl same ↦ (xs, ground arith)
  | inr other ↦ let (s, e) = remove-total a xs (ground arith) in (x ∷ s, ground arith)
]

pub contains-count : (a : ℕ) (xs : List ℕ) → contains a xs ≡ true → 0 < count a xs
contains-count a [] h = cc
contains-count a (x ∷ xs) h = ground (arith, contains-count a xs)

pub contains-eq-false : (a : ℕ) (xs : List ℕ) → contains a xs ≡ false → count a xs ≡ 0
contains-eq-false a [] h = refl
contains-eq-false a (x ∷ xs) h = ground (arith, contains-eq-false a xs)

pub length-remove : (a : ℕ) (xs r : List ℕ) → remove a xs ≡ some r → length xs ≡ suc (length r)
length-remove a [] r h = ground arith
length-remove a (x ∷ xs) r h = elim (Option-cases (remove a xs)) [
  | inl missing ↦ ground arith
  | inr (s, e) ↦ ground (arith, length-remove a xs s e)
]
