-- ===== src/Crm/Duplicates/Relink/Scan.antt =====
-- The scans of a text, word by word.
use agamin_crm.Prelude.{
  ==_iff, Bool-cases, List, [], arith, false, inl, inr, length, none, refl, some, suc, true, zero,
  ℕ, ◌++◌, ◌==◌, ◌∷◌, ◌≡◌, ◌≢◌,
}
use agamin_crm.Massmail.Ids.Texts.{Plain}
use agamin_crm.Crm.Duplicates.Relink.{text_eq, after_prefix, sub_start, sub_mid, sub_end}

pub after_prefix-same : (p t : List ℕ) → after_prefix p (p ++ t) ≡ some t
unfolding after_prefix
after_prefix-same [] t = refl
after_prefix-same (a ∷ p) t = ground (arith, after_prefix-same p t)

-- A word with the comma behind it is a prefix only where it stands as the whole first word.
pub after_prefix-other :
    (p q t u : List ℕ)
    → Plain p
    → Plain q
    → p ≢ q
    → after_prefix (p ++ (44 ∷ t)) (q ++ (44 ∷ u)) ≡ none
unfolding after_prefix
after_prefix-other [] [] t u hp hq ne = absurd (ne refl)
after_prefix-other [] (b ∷ q) t u hp hq ne = ground (arith, hq.0)
after_prefix-other (a ∷ p) [] t u hp hq ne = ground (arith, hp.0)
after_prefix-other (a ∷ p) (b ∷ q) t u hp hq ne = elim (Bool-cases (a == b)) [
  | inl e ↦ rw e (after_prefix-other p q t u hp.1 hq.1 (λ h. ne (rw ((==_iff a b).0 e, h) refl)))
  | inr e ↦ rw e refl
]

pub after_prefix-last : (p q t : List ℕ) → Plain p → Plain q → after_prefix (p ++ (44 ∷ t)) q ≡ none
unfolding after_prefix
after_prefix-last [] [] t hp hq = refl
after_prefix-last [] (b ∷ q) t hp hq = ground (arith, hq.0)
after_prefix-last (a ∷ p) [] t hp hq = refl
after_prefix-last (a ∷ p) (b ∷ q) t hp hq = ground (arith, after_prefix-last p q t hp.1 hq.1)

pub text_eq_refl : (w : List ℕ) → text_eq w w ≡ true
unfolding text_eq
text_eq_refl [] = refl
text_eq_refl (a ∷ w) = ground (arith, text_eq_refl w)

pub text_eq-other : (p q : List ℕ) → p ≢ q → text_eq p q ≡ false
unfolding text_eq
text_eq-other [] [] ne = absurd (ne refl)
text_eq-other [] (b ∷ q) ne = refl
text_eq-other (a ∷ p) [] ne = refl
text_eq-other (a ∷ p) (b ∷ q) ne = elim (Bool-cases (a == b)) [
  | inl e ↦ rw e (text_eq-other p q (λ h. ne (rw ((==_iff a b).0 e, h) refl)))
  | inr e ↦ rw e refl
]

-- A word is not a text that goes on after a comma.
pub text_eq-longer : (p q u : List ℕ) → Plain p → text_eq p (q ++ (44 ∷ u)) ≡ false
unfolding text_eq
text_eq-longer [] [] u hp = refl
text_eq-longer [] (b ∷ q) u hp = refl
text_eq-longer (a ∷ p) [] u hp = ground (arith, hp.0)
text_eq-longer (a ∷ p) (b ∷ q) u hp = ground (arith, text_eq-longer p q u hp.1)

-- The scans pass over a word.
pub sub_mid-word :
    (d o w t : List ℕ) → Plain w → sub_mid d o zero (w ++ t) ≡ w ++ sub_mid d o zero t
unfolding sub_mid after_prefix
sub_mid-word d o [] t h = refl
sub_mid-word d o (c ∷ w) t h = ground (arith, h.0, sub_mid-word d o w t h.1)

pub sub_end-word : (d o w t : List ℕ) → Plain w → sub_end d o (w ++ t) ≡ w ++ sub_end d o t
unfolding sub_end text_eq
sub_end-word d o [] t h = refl
sub_end-word d o (c ∷ w) t h = ground (arith, h.0, sub_end-word d o w t h.1)

pub sub_mid-skip : (d o p t : List ℕ) → sub_mid d o (length p) (p ++ t) ≡ sub_mid d o zero t
unfolding sub_mid
sub_mid-skip d o [] t = refl
sub_mid-skip d o (c ∷ p) t = sub_mid-skip d o p t

-- The steps of the scans at a comma.
pub sub_mid-hit :
    (d o t u : List ℕ)
    → after_prefix (d ++ (44 ∷ [])) t ≡ some u
    → sub_mid d o zero (44 ∷ t) ≡ 44 ∷ (o ++ (44 ∷ sub_mid d o (suc (length d)) t))
unfolding sub_mid after_prefix
sub_mid-hit d o t u h = rw h refl

pub sub_mid-miss :
    (d o t : List ℕ)
    → after_prefix (d ++ (44 ∷ [])) t ≡ none
    → sub_mid d o zero (44 ∷ t) ≡ 44 ∷ sub_mid d o zero t
unfolding sub_mid after_prefix
sub_mid-miss d o t h = rw h refl

pub sub_end-hit : (d o t : List ℕ) → text_eq d t ≡ true → sub_end d o (44 ∷ t) ≡ 44 ∷ o
unfolding sub_end text_eq
sub_end-hit d o t h = rw h refl

pub sub_end-miss :
    (d o t : List ℕ) → text_eq d t ≡ false → sub_end d o (44 ∷ t) ≡ 44 ∷ sub_end d o t
unfolding sub_end text_eq
sub_end-miss d o t h = rw h refl

pub sub_start-hit :
    (d o t u : List ℕ) → after_prefix (d ++ (44 ∷ [])) t ≡ some u → sub_start d o t ≡ o ++ (44 ∷ u)
unfolding sub_start
sub_start-hit d o t u h = rw (sub_start, h) refl

pub sub_start-miss : (d o t : List ℕ) → after_prefix (d ++ (44 ∷ [])) t ≡ none → sub_start d o t ≡ t
unfolding sub_start
sub_start-miss d o t h = rw (sub_start, h) refl

-- A word in front of a comma is found there.
pub after_prefix-comma : (d u : List ℕ) → after_prefix (d ++ (44 ∷ [])) (d ++ (44 ∷ u)) ≡ some u
unfolding after_prefix
after_prefix-comma [] u = refl
after_prefix-comma (c ∷ d) u = ground (arith, after_prefix-comma d u)

pub skip_over :
    (d o w t : List ℕ) → sub_mid d o (suc (length w)) (w ++ (44 ∷ t)) ≡ sub_mid d o zero t
unfolding sub_mid
skip_over d o [] t = refl
skip_over d o (c ∷ w) t = skip_over d o w t
