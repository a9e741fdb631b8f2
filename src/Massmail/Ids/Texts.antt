-- ===== src/Massmail/Ids/Texts.antt =====
-- How the text of a list of ids is made up: words without a comma, one for each id.
use mathlib.Core.List.{append-nil}
use agamin_crm.Prelude.{All, List, [], ap, arith, false, sym, ℕ, ◌++◌, ◌==◌, ◌∙◌, ◌∷◌, ◌≡◌, ◌≢◌}
use agamin_crm.Massmail.Ids.{str, int, is_digit, join, join_ids}
use agamin_crm.Massmail.Ids.RoundTrip.{Digits, str-IsNumber, int-str}

-- No comma.
abbrev pub Plain : List ℕ → Type 0
Plain = All (λ c. (c == 44) ≡ false)

Digits-Plain : (w : List ℕ) → Digits w → Plain w
unfolding is_digit
Digits-Plain [] h = tt
Digits-Plain (c ∷ w) h = (ground (arith, h.0), Digits-Plain w h.1)

pub str-Plain : (n : ℕ) → Plain (str n)
str-Plain n = Digits-Plain (str n) (str-IsNumber n).0

pub str-ne : (a b : ℕ) → (a == b) ≡ false → str a ≢ str b
str-ne a b h e = ground (arith, h, sym (int-str a) ∙ (ap int e ∙ int-str b))

-- What follows the first word.
unfoldable pub tail_of : List ℕ → List ℕ
tail_of [] = []
tail_of (n ∷ ids) = 44 ∷ (str n ++ tail_of ids)

pub join_ids-cons : (n : ℕ) (ids : List ℕ) → join_ids (n ∷ ids) ≡ str n ++ tail_of ids
unfolding join_ids join tail_of
join_ids-cons n [] = sym (append-nil (str n))
join_ids-cons n (k ∷ ids) = ap (λ t. str n ++ (44 ∷ t)) (join_ids-cons k ids)
