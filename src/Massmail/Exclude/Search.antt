-- ===== src/Massmail/Exclude/Search.antt =====
-- The search of `exclude_recipients` finds every id of a text.
use agamin_crm.Prelude.{
  Bool-cases, List, [], ap, arith, inl, inr, refl, sym, true, ℕ, ◌&&◌, ◌==◌, ◌||◌, ◌∙◌, ◌∷◌, ◌≡◌,
}
use agamin_crm.Massmail.Ids.{split, put_char}
use agamin_crm.Massmail.Exclude.{word_at, after_comma, has_id, same_word, is_word}

first_word : List (List ℕ) → List ℕ
first_word [] = []
first_word (w ∷ ws) = w

rest_words : List (List ℕ) → List (List ℕ)
rest_words [] = []
rest_words (w ∷ ws) = ws

-- What the words of a text say of the search in it.
Covers : List ℕ → List (List ℕ) → Type 0
Covers t ws =
    ((w : List ℕ) → same_word w (first_word ws) ≡ true → word_at w t ≡ true)
    × ((w : List ℕ) → is_word w (rest_words ws) ≡ true → after_comma w t ≡ true)

Covers-has_id :
    (t : List ℕ) (ws : List (List ℕ)) (w : List ℕ)
    → Covers t ws
    → is_word w ws ≡ true
    → has_id w t ≡ true
unfolding Covers has_id is_word first_word rest_words
Covers-has_id t [] w h e = absurd (ground (arith, e))
Covers-has_id t (v ∷ vs) w h e = elim (Bool-cases (same_word w v)) [
  | inl f ↦ let k = h.0 w f in rw k refl
  | inr f ↦ let k = h.1 w (ap (λ b. b || is_word w vs) (sym f) ∙ e) in ground (arith, k)
]

first_empty :
    (c : ℕ) (t w : List ℕ) → (c == 44) ≡ true → same_word w [] ≡ true → word_at w (c ∷ t) ≡ true
unfolding same_word word_at
first_empty c t [] e h = e
first_empty c t (a ∷ w) e h = absurd (ground (arith, h))

at_comma :
    (c : ℕ) (t : List ℕ) (ws : List (List ℕ))
    → (c == 44) ≡ true
    → Covers t ws
    → Covers (c ∷ t) ([] ∷ ws)
at_comma c t ws e h =
    let both = Covers-has_id t ws in
    unfold Covers in
    (
      (λ w k. first_empty c t w e (unfold first_word in k)),
      λ w k.
          let found = both w h (unfold rest_words in k) in
          unfold after_comma in rw e (unfold has_id in found),
    )

first_other :
    (c : ℕ) (t v w : List ℕ)
    → ((u : List ℕ) → same_word u v ≡ true → word_at u t ≡ true)
    → same_word w (c ∷ v) ≡ true
    → word_at w (c ∷ t) ≡ true
unfolding same_word word_at
first_other c t v [] h k = absurd (ground (arith, k))
first_other c t v (a ∷ w) h k =
    let same : (a == c) ≡ true = ground (arith, k) in
    let rest = h w (ap (λ b. b && same_word w v) (sym same) ∙ k) in rw (same, rest) refl

at_other : (c : ℕ) (t : List ℕ) (ws : List (List ℕ)) → Covers t ws → Covers (c ∷ t) (put_char c ws)
unfolding Covers put_char first_word rest_words after_comma
at_other c t [] h =
    ((λ w k. first_other c t [] w h.0 k), λ w k. let u = h.1 w k in ground (arith, u))
at_other c t (v ∷ vs) h =
    ((λ w k. first_other c t v w h.0 k), λ w k. let u = h.1 w k in ground (arith, u))

first_none : (w : List ℕ) → same_word w [] ≡ true → word_at w [] ≡ true
unfolding same_word word_at
first_none [] h = refl
first_none (a ∷ w) h = absurd (ground (arith, h))

split-Covers : (t : List ℕ) → Covers t (split t)
unfolding split
split-Covers [] =
    unfold Covers first_word rest_words is_word in (first_none, λ w k. absurd (ground (arith, k)))
split-Covers (c ∷ t) = elim (Bool-cases (c == 44)) [
  | inl e ↦ rw e (at_comma c t (split t) e (split-Covers t))
  | inr e ↦ rw e (at_other c t (split t) (split-Covers t))
]

-- The search finds every word of a text.
pub is_word-has_id : (w t : List ℕ) → is_word w (split t) ≡ true → has_id w t ≡ true
is_word-has_id w t h = Covers-has_id t (split t) w (split-Covers t) h
