-- ===== src/Common/FullName.antt =====
-- common/utils/parse_full_name.py: a full name is taken apart into first, middle and last name. A
-- text is the list of its code points; `truncatechars` is Django's.
pub mod Words
pub mod Titled
use agamin_crm.Prelude.{
  Bool, List, Option, [], false, if◌then◌else◌, leb, length, none, not, select, some, suc, true,
  zero, ℕ, ◌&&◌, ◌++◌, ◌+◌, ◌-◌, ◌==◌, ◌||◌, ◌∷◌,
}
use agamin_crm.Prelude.Action.{Outcome, returned, raised, index_error}

abbrev pub Text : Type 0
Text = List ℕ

-- Where `splitlines` ends a line.
unfoldable pub is_break : ℕ → Bool
is_break c =
    (leb 10 c && leb c 13) || (leb 28 c && leb c 30) || c == 133 || (leb 8232 c && leb c 8233)

-- `\s`
unfoldable pub is_space : ℕ → Bool
is_space c =
    (leb 9 c && leb c 13)
    || (leb 28 c && leb c 32)
    || c == 133
    || c == 160
    || c == 5760
    || (leb 8192 c && leb c 8202)
    || (leb 8232 c && leb c 8233)
    || c == 8239
    || c == 8287
    || c == 12288

-- `''.join(full_name.splitlines())`
unfoldable pub drop_breaks : Text → Text
unfolding is_break
drop_breaks t = select (λ c. not (is_break c)) t

unfoldable pub starts_blank : Text → Bool
starts_blank [] = false
starts_blank (c ∷ t) = c == 32

-- `re.sub(' +', ' ', full_name)`
unfoldable pub collapse : Text → Text
unfolding starts_blank
collapse [] = []
collapse (c ∷ t) = let rest = collapse t in if c == 32 && starts_blank rest then rest else c ∷ rest

-- How a letter compares where case is ignored; 383 is the long s.
unfoldable pub fold_case : ℕ → ℕ
fold_case c = if leb 65 c && leb c 90 then c + 32 else if c == 383 then 115 else c

-- The titles of `regex`, in its order: md, mr, ms, mrs, miss, phd, dr, eng.
abbrev pub titles : List Text
titles =
    (109 ∷ 100 ∷ [])
    ∷ (109 ∷ 114 ∷ [])
    ∷ (109 ∷ 115 ∷ [])
    ∷ (109 ∷ 114 ∷ 115 ∷ [])
    ∷ (109 ∷ 105 ∷ 115 ∷ 115 ∷ [])
    ∷ (112 ∷ 104 ∷ 100 ∷ [])
    ∷ (100 ∷ 114 ∷ [])
    ∷ (101 ∷ 110 ∷ 103 ∷ [])
    ∷ []

-- One alternative: the title at the start of the text and a full stop or a space behind it, which
-- `rstrip` takes away again.
unfoldable pub match_title : Text → Text → Option Text
unfolding is_space fold_case
match_title w [] = none
match_title [] (c ∷ t) = if c == 46 then some (46 ∷ []) else if is_space c then some [] else none
match_title (a ∷ w) (c ∷ t) =
    if fold_case c == a
    then elim (match_title w t) [ none ↦ none | some p ↦ some (c ∷ p) ]
    else none

unfoldable pub find_title : List Text → Text → Option Text
unfolding match_title
find_title [] t = none
find_title (w ∷ ws) t = elim (match_title w t) [ none ↦ find_title ws t | some p ↦ some p ]

-- The title as a regular expression: a full stop is any character.
unfoldable pub matches_at : Text → Text → Bool
matches_at [] t = true
matches_at (a ∷ p) [] = false
matches_at (a ∷ p) (c ∷ t) = (a == 46 || a == c) && matches_at p t

-- `re.sub(prefix, '', full_name)`; the number counts the characters of a match that are left.
unfoldable pub erase : Text → ℕ → Text → Text
unfolding matches_at
erase p k [] = []
erase p (suc k) (c ∷ t) = erase p k t
erase p zero (c ∷ t) =
    let gone = erase p (length p - 1) t in
    let kept = erase p zero t in if matches_at p (c ∷ t) then gone else c ∷ kept

-- `prefix[0:1].upper() + prefix[1:]`
pub capitalize : Text → Text
capitalize [] = []
capitalize (c ∷ p) = (if leb 97 c && leb c 122 then c - 32 else c) ∷ p

unfoldable pub put_letter : ℕ → List Text → List Text
put_letter c [] = (c ∷ []) ∷ []
put_letter c (w ∷ ws) = (c ∷ w) ∷ ws

-- `split(" ")`
unfoldable pub split_blanks : Text → List Text
unfolding put_letter
split_blanks [] = [] ∷ []
split_blanks (c ∷ t) = let ws = split_blanks t in if c == 32 then [] ∷ ws else put_letter c ws

unfoldable pub is_word : Text → Bool
is_word [] = false
is_word (c ∷ w) = true

-- `list(filter(None, splitted_name))`
unfoldable pub words : Text → List Text
unfolding split_blanks is_word
words t = select is_word (split_blanks t)

-- `" ".join(ws)`
unfoldable pub join_words : List Text → Text
join_words [] = []
join_words (w ∷ []) = w
join_words (w ∷ v ∷ ws) = w ++ (32 ∷ join_words (v ∷ ws))

-- `splitted_name[1:-1]` and `splitted_name[-1]` of the words behind the first.
unfoldable pub but_last : List Text → List Text
but_last [] = []
but_last (w ∷ []) = []
but_last (w ∷ v ∷ ws) = w ∷ but_last (v ∷ ws)

pub last_word : List Text → Text
last_word [] = []
last_word (w ∷ []) = w
last_word (w ∷ v ∷ ws) = last_word (v ∷ ws)

pub record FullName : Type 0 where
  pub first_name : Text
  pub middle_name : Text
  pub last_name : Text

module _ (truncatechars : ℕ → Text → Text) where
  -- The branches on the number of words.
  pub name_of : Text → List Text → Outcome FullName
  unfolding join_words but_last last_word
  name_of t [] = raised index_error
  name_of t (w ∷ []) = returned (record { first_name = t; middle_name = []; last_name = [] })
  name_of t (w ∷ v ∷ []) = returned (record { first_name = w; middle_name = []; last_name = v })
  name_of t (w ∷ v ∷ u ∷ ws) = returned (record {
    first_name = w;
    middle_name = truncatechars 90 (join_words (but_last (v ∷ u ∷ ws)));
    last_name = last_word (v ∷ u ∷ ws);
  })

  pub with_title : Option Text → Outcome FullName → Outcome FullName
  unfolding capitalize
  with_title none o = o
  with_title (some p) (raised e) = raised e
  with_title (some p) (returned n) =
      returned (record n { first_name = capitalize p ++ (32 ∷ n.first_name) })

  pub untitled : Option Text → Text → Text
  unfolding erase
  untitled none t = t
  untitled (some p) t = erase p 0 t

  -- What is parsed: no line breaks, and single blanks.
  unfoldable pub tidy : Text → Text
  unfolding drop_breaks collapse
  tidy t = collapse (drop_breaks t)

  pub parse_full_name : Text → Outcome FullName
  unfolding tidy find_title untitled words name_of with_title
  parse_full_name [] = returned (record { first_name = []; middle_name = []; last_name = [] })
  parse_full_name (c ∷ t) =
      let title = find_title titles (tidy (c ∷ t)) in
      let rest = untitled title (tidy (c ∷ t)) in with_title title (name_of rest (words rest))
