-- ===== src/Common/FullName/Words.antt =====
-- A name without a title keeps its words.
use agamin_crm.Prelude.{All, List, [], false, refl, true, ◌++◌, ◌==◌, ◌∷◌, ◌≡◌}
use agamin_crm.Prelude.Action.{Outcome, returned, raised, index_error}
use agamin_crm.Common.FullName.{Text, put_letter, split_blanks, is_word, words, but_last, FullName}

-- No blank.
abbrev pub Plain : Text → Type 0
Plain = All (λ c. (c == 32) ≡ false)

abbrev pub Word : Text → Type 0
Word w = (is_word w ≡ true) × Plain w

split_blanks-last : (w : Text) → Plain w → split_blanks w ≡ w ∷ []
unfolding split_blanks put_letter
split_blanks-last [] h = refl
split_blanks-last (c ∷ w) h = rw (split_blanks-last w h.1, h.0) refl

pub words-one : (w : Text) → Word w → words w ≡ w ∷ []
unfolding words
words-one w h = rw (split_blanks-last w h.1, h.0) refl

-- The words between the first and the last.
unfoldable pub middle_words : List Text → List Text
unfolding but_last
middle_words [] = []
middle_words (w ∷ ws) = but_last ws

pub all_words : FullName → List Text
all_words n = words n.first_name ++ (words n.middle_name ++ words n.last_name)

-- A name of the words, and an exception where there is none.
pub Keeps : List Text → Outcome FullName → Type 0
Keeps [] o = o ≡ raised index_error
Keeps (w ∷ ws) o = (n : FullName) × (o ≡ returned n) × (all_words n ≡ w ∷ ws)
