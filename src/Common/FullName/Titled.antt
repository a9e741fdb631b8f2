-- ===== src/Common/FullName/Titled.antt =====
-- What becomes of one word behind a title.
use agamin_crm.Prelude.{
  All, Bool-cases, Option, [], ap, false, inl, inr, length, refl, some, suc, true, zero, ℕ, ◌-◌,
  ◌==◌, ◌∙◌, ◌∷◌, ◌≡◌,
}
use agamin_crm.Prelude.Action.{Outcome, returned}
use agamin_crm.Common.FullName.{
  Text, is_break, fold_case, drop_breaks, starts_blank, collapse, match_title, titles, find_title,
  matches_at, erase, capitalize, split_blanks, is_word, words, FullName, name_of, with_title,
  untitled, tidy, parse_full_name,
}
use agamin_crm.Common.FullName.Words.{Plain, words-one}

-- Neither a blank nor a line break.
abbrev pub OneWord : Text → Type 0
OneWord = All (λ c. ((c == 32) ≡ false) × (is_break c ≡ false))

OneWord-Plain : (w : Text) → OneWord w → Plain w
OneWord-Plain [] h = tt
OneWord-Plain (c ∷ w) h = (h.0.0, OneWord-Plain w h.1)

drop_breaks_same : (w : Text) → OneWord w → drop_breaks w ≡ w
unfolding drop_breaks
drop_breaks_same [] h = refl
drop_breaks_same (c ∷ w) h = rw h.0.1 (ap (λ v. c ∷ v) (drop_breaks_same w h.1))

collapse_same : (w : Text) → OneWord w → collapse w ≡ w
unfolding collapse
collapse_same [] h = refl
collapse_same (c ∷ w) h = rw (collapse_same w h.1, h.0.0) refl

not_blank : (w : Text) → OneWord w → starts_blank w ≡ false
unfolding starts_blank
not_blank [] h = refl
not_blank (c ∷ w) h = h.0.0

abbrev pub mr : Text
mr = b'M' ∷ b'r' ∷ b'.' ∷ []

tidy-mr :
    (truncatechars : ℕ → Text → Text) (w : Text)
    → OneWord w
    → tidy truncatechars (b'M' ∷ b'r' ∷ b'.' ∷ 32 ∷ w) ≡ b'M' ∷ b'r' ∷ b'.' ∷ 32 ∷ w
unfolding tidy
tidy-mr truncatechars w h =
    ap (λ v. collapse (b'M' ∷ b'r' ∷ b'.' ∷ 32 ∷ v)) (drop_breaks_same w h)
    ∙ unfold collapse in rw (collapse_same w h, not_blank w h) refl

find_title-mr : (w : Text) → find_title titles (b'M' ∷ b'r' ∷ b'.' ∷ 32 ∷ w) ≡ some mr
unfolding find_title match_title fold_case
find_title-mr w = refl

erase-mr : (w : Text) → erase mr 0 (b'M' ∷ b'r' ∷ b'.' ∷ 32 ∷ w) ≡ 32 ∷ erase mr 0 w
unfolding erase matches_at
erase-mr w = refl

erase-Plain : (p : Text) (k : ℕ) (w : Text) → Plain w → Plain (erase p k w)
unfolding erase
erase-Plain p k [] h = tt
erase-Plain p (suc k) (c ∷ w) h = erase-Plain p k w h.1
erase-Plain p zero (c ∷ w) h = elim (Bool-cases (matches_at p (c ∷ w))) [
  | inl e ↦ rw e (erase-Plain p (length p - 1) w h.1)
  | inr e ↦ rw e (h.0, erase-Plain p zero w h.1)
]

words-blank : (w : Text) → words (32 ∷ w) ≡ words w
unfolding words split_blanks is_word
words-blank w = refl

module _ (truncatechars : ℕ → Text → Text) where
  -- What follows once the title is known.
  abbrev parsed : Option Text → Text → Outcome FullName
  parsed o r = with_title truncatechars o (name_of truncatechars r (words r))

  parse-mr :
      (w : Text)
      → OneWord w
      → is_word (erase mr 0 w) ≡ true
      → parse_full_name truncatechars (b'M' ∷ b'r' ∷ b'.' ∷ 32 ∷ w)
        ≡ parsed (some mr) (32 ∷ erase mr 0 w)
  unfolding parse_full_name untitled
  parse-mr w h left =
      ap (λ s. parsed (find_title titles s) (untitled truncatechars (find_title titles s) s))
        (tidy-mr truncatechars w h)
      ∙ ap (λ o. parsed o (untitled truncatechars o (b'M' ∷ b'r' ∷ b'.' ∷ 32 ∷ w)))
          (find_title-mr w)
      ∙ ap (parsed (some mr)) (erase-mr w)

  parsed-mr :
      (w : Text)
      → Plain w
      → is_word w ≡ true
      → parsed (some mr) (32 ∷ w)
        ≡ returned (record {
          first_name = b'M' ∷ b'r' ∷ b'.' ∷ 32 ∷ 32 ∷ w;
          middle_name = [];
          last_name = [];
        })
  unfolding name_of with_title capitalize
  parsed-mr w h left =
      ap (λ ws. with_title truncatechars (some mr) (name_of truncatechars (32 ∷ w) ws))
        (words-blank w ∙ words-one w (left, h))

-- The word `w` behind the title `Mr.` becomes the first name with two blanks before it, and without
-- every `Mr` in it and the letter behind each, if anything is left of it; no last name is set.
title_lem :
    (truncatechars : ℕ → Text → Text) (w : Text)
    → OneWord w
    → is_word (erase mr 0 w) ≡ true
    → (parse_full_name truncatechars (b'M' ∷ b'r' ∷ b'.' ∷ 32 ∷ w)
        ≡ returned (record {
          first_name = b'M' ∷ b'r' ∷ b'.' ∷ 32 ∷ 32 ∷ erase mr 0 w;
          middle_name = [];
          last_name = [];
        }))
      × ((c : ℕ) (v : Text) → erase mr 0 (b'M' ∷ b'r' ∷ c ∷ v) ≡ erase mr 0 v)
title_lem truncatechars w h left = (
  parse-mr truncatechars w h left
      ∙ parsed-mr truncatechars (erase mr 0 w) (erase-Plain mr 0 w (OneWord-Plain w h)) left,
  λ c v. unfold erase matches_at in refl,
)
