-- ===== src/Massmail/Ids/RoundTrip.antt =====
-- What the program writes as a list of ids it reads back as that list.
use agamin_crm.Prelude.{
  All, Bool-cases, List, [], ap, arith, inl, inr, ltb, map, refl, some, suc, true, zero, ℕ, ◌%◌,
  ◌++◌, ◌+◌, ◌/◌, ◌<◌, ◌∙◌, ◌∷◌, ◌≡◌, ◌≢◌,
}
use agamin_crm.Massmail.Ids.{
  show_from, str, is_digit, read_from, int, split, join, ints, get_ids, join_ids,
}

read_from-show_from :
    (f n : ℕ) (acc : List ℕ) → n < f → read_from 0 (show_from f n acc) ≡ read_from n acc
unfolding read_from show_from
read_from-show_from zero n acc h = elim h [ ]
read_from-show_from (suc f) n acc h = elim (Bool-cases (ltb n 10)) [
  | inl small ↦ ground arith
  | inr large ↦ ground (arith, read_from-show_from f (n / 10) ((48 + n % 10) ∷ acc))
]

-- Decimal digits only, so no comma.
abbrev pub Digits : List ℕ → Type 0
Digits = All (λ c. is_digit c ≡ true)

show_from-Digits : (f n : ℕ) (acc : List ℕ) → Digits acc → Digits (show_from f n acc)
unfolding show_from is_digit
show_from-Digits zero n acc h = h
show_from-Digits (suc f) n acc h = elim (Bool-cases (ltb n 10)) [
  | inl small ↦ rw small (ground arith, h)
  | inr large ↦ rw large (show_from-Digits f (n / 10) ((48 + n % 10) ∷ acc) (ground arith, h))
]

-- A text of digits that begins like a number.
abbrev pub IsNumber : List ℕ → Type 0
IsNumber w = Digits w × (w ≢ [])

show_from-ne-nil : (f n c : ℕ) (acc : List ℕ) → show_from f n (c ∷ acc) ≢ []
unfolding show_from
show_from-ne-nil zero n c acc = λ e. cc
show_from-ne-nil (suc f) n c acc = elim (Bool-cases (ltb n 10)) [
  | inl small ↦ rw small (λ e. cc)
  | inr large ↦ rw large (show_from-ne-nil f (n / 10) (48 + n % 10) (c ∷ acc))
]

str-ne-nil : (n : ℕ) → str n ≢ []
unfolding str show_from
str-ne-nil n = elim (Bool-cases (ltb n 10)) [
  | inl small ↦ rw small (λ e. cc)
  | inr large ↦ rw large (show_from-ne-nil n (n / 10) (48 + n % 10) [])
]

pub str-IsNumber : (n : ℕ) → IsNumber (str n)
unfolding str
str-IsNumber n = (show_from-Digits (suc n) n [] tt, str-ne-nil n)

int-eq-read_from : (w : List ℕ) → w ≢ [] → int w ≡ read_from 0 w
unfolding int
int-eq-read_from [] h = absurd (h refl)
int-eq-read_from (c ∷ cs) h = refl

pub int-str : (n : ℕ) → int (str n) ≡ some n
int-str n =
    int-eq-read_from (str n) (str-ne-nil n)
    ∙ unfold str read_from in read_from-show_from (suc n) n [] (omega arith)

split_one : (w rest : List ℕ) → Digits w → split (w ++ (44 ∷ rest)) ≡ w ∷ split rest
unfolding split is_digit
split_one [] rest h = refl
split_one (c ∷ w) rest h = rw (split_one w rest h.1) (ground arith)

split_last : (w : List ℕ) → Digits w → split w ≡ w ∷ []
unfolding split is_digit
split_last [] h = refl
split_last (c ∷ w) h = rw (split_last w h.1) (ground arith)

-- Splitting undoes joining, for words without a comma.
split-join :
    (w : List ℕ) (ws : List (List ℕ)) → All Digits (w ∷ ws) → split (join (w ∷ ws)) ≡ w ∷ ws
unfolding join
split-join w [] h = split_last w h.0
split-join w (v ∷ ws) h = rw (split_one w (join (v ∷ ws)) h.0, split-join v ws h.1)

str-All : (ids : List ℕ) → All Digits (map str ids)
str-All [] = tt
str-All (n ∷ ids) = ((str-IsNumber n).0, str-All ids)

ints-str : (ids : List ℕ) → ints (map str ids) ≡ some ids
unfolding ints
ints-str [] = refl
ints-str (n ∷ ids) = ground (arith, int-str n, ints-str ids)

join-ne-nil : (w : List ℕ) (ws : List (List ℕ)) → w ≢ [] → join (w ∷ ws) ≢ []
unfolding join
join-ne-nil w [] h = h
join-ne-nil [] (v ∷ ws) h = absurd (h refl)
join-ne-nil (c ∷ w) (v ∷ ws) h = λ e. cc

get_ids_ne : (t : List ℕ) → t ≢ [] → get_ids t ≡ ints (split t)
unfolding get_ids
get_ids_ne [] h = absurd (h refl)
get_ids_ne (c ∷ t) h = refl

-- A list of ids that is joined to a text is read back from it as it was.
pub get_ids-join_ids : (ids : List ℕ) → get_ids (join_ids ids) ≡ some ids
unfolding join_ids
get_ids-join_ids [] = unfold get_ids join in refl
get_ids-join_ids (n ∷ ids) =
    get_ids_ne (join (str n ∷ map str ids)) (join-ne-nil (str n) (map str ids) (str-ne-nil n))
    ∙ ap ints (split-join (str n) (map str ids) (str-All (n ∷ ids)))
    ∙ ints-str (n ∷ ids)

pub get_ids-nil : get_ids [] ≡ some []
unfolding get_ids
get_ids-nil = refl
