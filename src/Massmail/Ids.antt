-- ===== src/Massmail/Ids.antt =====
-- The text of a list of ids: `get_ids` of massmail/models/mailing_out.py, and the joins
-- `",".join(map(str, ids))` of its methods. A text is the list of its code points; `int` is modelled
-- on the texts of decimal digits, which are all that the program writes, and raises on any other.
pub mod RoundTrip
pub mod Texts
use agamin_crm.Prelude.{
  Bool, List, Option, [], if◌then◌else◌, leb, ltb, map, none, some, suc, zero, ℕ, ◌%◌, ◌&&◌, ◌*◌,
  ◌++◌, ◌+◌, ◌-◌, ◌/◌, ◌==◌, ◌∷◌,
}

-- `str(n)`; the fuel is one more than the number.
show_from : ℕ → ℕ → List ℕ → List ℕ
show_from zero n acc = acc
show_from (suc f) n acc =
    let more = show_from f (n / 10) ((48 + n % 10) ∷ acc) in
    if ltb n 10 then (48 + n % 10) ∷ acc else more

pub str : ℕ → List ℕ
unfolding show_from
str n = show_from (suc n) n []

pub is_digit : ℕ → Bool
is_digit c = leb 48 c && leb c 57

read_from : ℕ → List ℕ → Option ℕ
unfolding is_digit
read_from n [] = some n
read_from n (c ∷ cs) =
    let more = read_from (n * 10 + (c - 48)) cs in if is_digit c then more else none

-- `int(text)`; `none` is a `ValueError`.
pub int : List ℕ → Option ℕ
unfolding read_from
int [] = none
int (c ∷ cs) = read_from 0 (c ∷ cs)

unfoldable pub put_char : ℕ → List (List ℕ) → List (List ℕ)
put_char c [] = (c ∷ []) ∷ []
put_char c (w ∷ ws) = (c ∷ w) ∷ ws

-- `text.split(',')`
unfoldable pub split : List ℕ → List (List ℕ)
unfolding put_char
split [] = [] ∷ []
split (c ∷ cs) = let ws = split cs in if c == 44 then [] ∷ ws else put_char c ws

-- `",".join(words)`
pub join : List (List ℕ) → List ℕ
join [] = []
join (w ∷ []) = w
join (w ∷ v ∷ ws) = w ++ (44 ∷ join (v ∷ ws))

ints : List (List ℕ) → Option (List ℕ)
unfolding int
ints [] = some []
ints (w ∷ ws) = elim (int w) [
  | none ↦ none
  | some n ↦ elim (ints ws) [ none ↦ none | some ns ↦ some (n ∷ ns) ]
]

-- `MailingOut.get_ids`
pub get_ids : List ℕ → Option (List ℕ)
unfolding ints split
get_ids [] = some []
get_ids (c ∷ cs) = ints (split (c ∷ cs))

-- `",".join(map(str, ids))`
pub join_ids : List ℕ → List ℕ
unfolding join str
join_ids ids = join (map str ids)
