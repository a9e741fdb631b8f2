-- ===== src/Crm/Duplicates/Relink/Replace.antt =====
-- Replacing in the text of ids is replacing in the list of ids.
use mathlib.Core.List.{append-nil}
use agamin_crm.Prelude.{
  ==_iff, Bool-cases, List, Option-cases, [], ap, arith, false, if◌then◌else◌, inl, inr, map, none,
  refl, subst, sym, true, zero, ℕ, ◌&&◌, ◌++◌, ◌==◌, ◌||◌, ◌∙◌, ◌∷◌, ◌≡◌, ◌≢◌,
}
use agamin_crm.Massmail.Ids.{str, join_ids}
use agamin_crm.Massmail.Ids.Texts.{str-Plain, str-ne, tail_of, join_ids-cons}
use agamin_crm.Crm.Duplicates.Relink.{
  text_eq, after_prefix, found_start, found_mid, found_end, sub_start, sub_mid, sub_end,
  relink_text,
}
use agamin_crm.Crm.Duplicates.Relink.Scan.{
  after_prefix-other, after_prefix-last, text_eq_refl, text_eq-other, text_eq-longer, sub_mid-word,
  sub_end-word, sub_mid-hit, sub_mid-miss, sub_end-hit, sub_end-miss, sub_start-hit, sub_start-miss,
  after_prefix-comma, skip_over,
}

module _ (d o : ℕ) where
  -- The key that an id becomes.
  pub swap : ℕ → ℕ
  swap n = if n == d then o else n

  swap-hit : (n : ℕ) → (n == d) ≡ true → swap n ≡ o
  unfolding swap
  swap-hit n e = rw e refl

  swap-miss : (n : ℕ) → (n == d) ≡ false → swap n ≡ n
  unfolding swap
  swap-miss n e = rw e refl

  -- What the replacement between commas does: of two neighbours it may leave out the second.
  swap_inner : List ℕ → List ℕ
  swap_inner [] = []
  swap_inner (y ∷ []) = y ∷ []
  swap_inner (y ∷ z ∷ r) =
      let skipped = swap_inner r in
      let rest = swap_inner (z ∷ r) in if y == d then o ∷ z ∷ skipped else y ∷ rest

  swap_inner-hit :
      (y z : ℕ) (r : List ℕ) → (y == d) ≡ true → swap_inner (y ∷ z ∷ r) ≡ o ∷ z ∷ swap_inner r
  unfolding swap_inner
  swap_inner-hit y z r e = rw e refl

  swap_inner-miss :
      (y z : ℕ) (r : List ℕ) → (y == d) ≡ false → swap_inner (y ∷ z ∷ r) ≡ y ∷ swap_inner (z ∷ r)
  unfolding swap_inner
  swap_inner-miss y z r e = rw e refl

  swap_last : List ℕ → List ℕ
  unfolding swap
  swap_last [] = []
  swap_last (y ∷ []) = swap y ∷ []
  swap_last (y ∷ z ∷ r) = y ∷ swap_last (z ∷ r)

  ne_of : (x : ℕ) → (x == d) ≡ false → str d ≢ str x
  ne_of x e h = str-ne x d e (sym h)

  sub_start_lem :
      (x : ℕ) (u : List ℕ)
      → sub_start (str d) (str o) (str x ++ (44 ∷ u)) ≡ str (swap x) ++ (44 ∷ u)
  sub_start_lem x u = elim (Bool-cases (x == d)) [
    | inl e ↦
        ap (λ n. sub_start (str d) (str o) (str n ++ (44 ∷ u))) ((==_iff x d).0 e)
        ∙ sub_start-hit (str d) (str o) _ u (after_prefix-comma (str d) u)
        ∙ ap (λ n. str n ++ (44 ∷ u)) (sym (swap-hit x e))
    | inr e ↦
        sub_start-miss (str d) (str o) _
          (after_prefix-other (str d) (str x) [] u (str-Plain d) (str-Plain x) (ne_of x e))
        ∙ ap (λ n. str n ++ (44 ∷ u)) (sym (swap-miss x e))
  ]

  sub_mid_lem : (ys : List ℕ) → sub_mid (str d) (str o) zero (tail_of ys) ≡ tail_of (swap_inner ys)
  unfolding tail_of swap_inner sub_mid
  sub_mid_lem [] = refl
  sub_mid_lem (y ∷ []) =
      sub_mid-miss (str d) (str o) (str y ++ []) (
        subst (λ w. after_prefix (str d ++ (44 ∷ [])) w ≡ none) (sym (append-nil (str y)))
          (after_prefix-last (str d) (str y) [] (str-Plain d) (str-Plain y)))
      ∙ ap (λ v. 44 ∷ v) (sub_mid-word (str d) (str o) (str y) [] (str-Plain y))
  sub_mid_lem (y ∷ z ∷ r) =
      let v = str z ++ tail_of r in
      let word = sub_mid-word (str d) (str o) (str z) (tail_of r) (str-Plain z) in
      elim (Bool-cases (y == d)) [
        | inl e ↦
            ap (λ n. sub_mid (str d) (str o) zero (44 ∷ (str n ++ (44 ∷ v)))) ((==_iff y d).0 e)
            ∙ sub_mid-hit (str d) (str o) _ v (after_prefix-comma (str d) v)
            ∙ ap (λ t. 44 ∷ (str o ++ (44 ∷ t)))
                (skip_over (str d) (str o) (str d) v ∙ word ∙ ap (λ t. str z ++ t) (sub_mid_lem r))
            ∙ ap tail_of (sym (swap_inner-hit y z r e))
        | inr e ↦
            sub_mid-miss (str d) (str o) _
              (after_prefix-other (str d) (str y) [] v (str-Plain d) (str-Plain y) (ne_of y e))
            ∙ ap (λ t. 44 ∷ t)
                (sub_mid-word (str d) (str o) (str y) (44 ∷ v) (str-Plain y)
                  ∙ ap (λ t. str y ++ t) (sub_mid_lem (z ∷ r)))
            ∙ ap tail_of (sym (swap_inner-miss y z r e))
      ]

  sub_end_lem : (ys : List ℕ) → sub_end (str d) (str o) (tail_of ys) ≡ tail_of (swap_last ys)
  unfolding tail_of swap_last sub_end
  sub_end_lem [] = refl
  sub_end_lem (y ∷ []) = elim (Bool-cases (y == d)) [
    | inl e ↦
        sub_end-hit (str d) (str o) (str y ++ []) (
          subst (λ w. text_eq (str d) w ≡ true)
            (ap str (sym ((==_iff y d).0 e)) ∙ sym (append-nil (str y))) (text_eq_refl (str d)))
        ∙ ap (λ w. 44 ∷ w) (sym (append-nil (str o)))
        ∙ ap (λ n. 44 ∷ (str n ++ [])) (sym (swap-hit y e))
    | inr e ↦
        sub_end-miss (str d) (str o) (str y ++ []) (
          subst (λ w. text_eq (str d) w ≡ false) (sym (append-nil (str y)))
            (text_eq-other (str d) (str y) (ne_of y e)))
        ∙ ap (λ w. 44 ∷ w) (sub_end-word (str d) (str o) (str y) [] (str-Plain y))
        ∙ ap (λ n. 44 ∷ (str n ++ [])) (sym (swap-miss y e))
  ]
  sub_end_lem (y ∷ z ∷ r) =
      sub_end-miss (str d) (str o) _ (text_eq-longer (str d) (str y) _ (str-Plain d))
      ∙ ap (λ w. 44 ∷ w)
          (sub_end-word (str d) (str o) (str y) (tail_of (z ∷ r)) (str-Plain y)
            ∙ ap (λ t. str y ++ t) (sub_end_lem (z ∷ r)))

  -- The duplicate does not stand twice side by side.
  unfoldable pub NoTwins : List ℕ → Type 0
  NoTwins [] = Unit
  NoTwins (y ∷ []) = Unit
  NoTwins (y ∷ z ∷ r) = ((y == d && z == d) ≡ false) × NoTwins (z ∷ r)

  NoTwins-rest : (y : ℕ) (r : List ℕ) → NoTwins (y ∷ r) → NoTwins r
  unfolding NoTwins
  NoTwins-rest y [] h = tt
  NoTwins-rest y (z ∷ r) h = h.1

  swap_last-cons :
      (y z : ℕ) (r : List ℕ)
      → swap_last (y ∷ swap_inner (z ∷ r)) ≡ y ∷ swap_last (swap_inner (z ∷ r))
  unfolding swap_last swap_inner
  swap_last-cons y z [] = refl
  swap_last-cons y z (x ∷ r) = elim (Bool-cases (z == d)) [ inl e ↦ rw e refl | inr e ↦ rw e refl ]

  -- Behind a duplicate stands an id that is kept.
  swap_last-kept :
      (z : ℕ) (r : List ℕ)
      → (z == d) ≡ false
      → swap_last (z ∷ swap_inner r) ≡ swap z ∷ swap_last (swap_inner r)
  unfolding swap_last swap_inner
  swap_last-kept z [] e = refl
  swap_last-kept z (x ∷ r) e =
      swap_last-cons z x r ∙ ap (λ n. n ∷ swap_last (swap_inner (x ∷ r))) (sym (swap-miss z e))

  both_swaps : (ys : List ℕ) → NoTwins ys → swap_last (swap_inner ys) ≡ map swap ys
  unfolding swap_last swap_inner NoTwins
  both_swaps [] h = refl
  both_swaps (y ∷ []) h = refl
  both_swaps (y ∷ z ∷ r) h = elim (Bool-cases (y == d)) [
    | inl e ↦
        let kept : (z == d) ≡ false = ground (arith, e, h.0) in
        ap swap_last (swap_inner-hit y z r e)
        ∙ ap (λ t. o ∷ t)
            (swap_last-kept z r kept ∙ ap (λ t. swap z ∷ t) (both_swaps r (NoTwins-rest z r h.1)))
        ∙ ap (λ n. n ∷ swap z ∷ map swap r) (sym (swap-hit y e))
    | inr e ↦
        ap swap_last (swap_inner-miss y z r e)
        ∙ swap_last-cons y z r
        ∙ ap (λ t. y ∷ t) (both_swaps (z ∷ r) h.1)
        ∙ ap (λ n. n ∷ map swap (z ∷ r)) (sym (swap-miss y e))
  ]

mid_unfound : (d o t : List ℕ) → found_mid d t ≡ false → sub_mid d o zero t ≡ t
unfolding found_mid sub_mid
mid_unfound d o [] h = refl
mid_unfound d o (c ∷ t) h = ground (arith, h, mid_unfound d o t)

end_unfound : (d o t : List ℕ) → found_end d t ≡ false → sub_end d o t ≡ t
unfolding found_end sub_end
end_unfound d o [] h = refl
end_unfound d o (c ∷ t) h = ground (arith, h, end_unfound d o t)

start_unfound : (d o t : List ℕ) → found_start d t ≡ false → sub_start d o t ≡ t
unfolding found_start
start_unfound d o t h = elim (Option-cases (after_prefix (d ++ (44 ∷ [])) t)) [
  | inl e ↦ sub_start-miss d o t e
  | inr (u, e) ↦ ground (arith, h, e)
]

-- The search before the replacement saves work only.
relink_text_all :
    (d o : ℕ) (t : List ℕ)
    → relink_text d o t
      ≡ sub_end (str d) (str o) (sub_mid (str d) (str o) zero (sub_start (str d) (str o) t))
unfolding relink_text
relink_text_all d o t =
    elim (Bool-cases (found_start (str d) t || (found_mid (str d) t || found_end (str d) t))) [
      | inl e ↦ rw e refl
      | inr e ↦
          let m = mid_unfound (str d) (str o) t (ground (arith, e)) in
          let u = end_unfound (str d) (str o) t (ground (arith, e)) in
          rw e (
            sym (
              ap (λ v. sub_end (str d) (str o) (sub_mid (str d) (str o) zero v))
                (start_unfound (str d) (str o) t (ground (arith, e)))
              ∙ ap (sub_end (str d) (str o)) m
              ∙ u))
    ]

-- In the text of two ids or more in which the duplicate does not stand twice side by side, the
-- replacement puts the original wherever the duplicate stands, and nothing else.
relink_text-join_ids :
    (d o x y : ℕ) (ids : List ℕ)
    → NoTwins d o (x ∷ y ∷ ids)
    → relink_text d o (join_ids (x ∷ y ∷ ids)) ≡ join_ids (map (swap d o) (x ∷ y ∷ ids))
unfolding tail_of NoTwins
relink_text-join_ids d o x y ids h =
    let p = str d in
    let q = str o in
    let n = swap d o x in
    let scan : List ℕ → List ℕ = λ t. sub_end p q (sub_mid p q zero t) in
    relink_text_all d o (join_ids (x ∷ y ∷ ids))
    ∙ ap (λ t. scan (sub_start p q t)) (join_ids-cons x (y ∷ ids))
    ∙ ap scan (sub_start_lem d o x (str y ++ tail_of ids))
    ∙ ap (sub_end p q) (
        sub_mid-word p q (str n) (tail_of (y ∷ ids)) (str-Plain n)
        ∙ ap (λ t. str n ++ t) (sub_mid_lem d o (y ∷ ids)))
    ∙ sub_end-word p q (str n) (tail_of (swap_inner d o (y ∷ ids))) (str-Plain n)
    ∙ ap (λ t. str n ++ t)
        (sub_end_lem d o (swap_inner d o (y ∷ ids)) ∙ ap tail_of (both_swaps d o (y ∷ ids) h.1))
    ∙ sym (join_ids-cons n (map (swap d o) (y ∷ ids)))

-- The text of one id stays as it is, also where it is the duplicate.
relink_text-alone : (d o x : ℕ) → relink_text d o (join_ids (x ∷ [])) ≡ join_ids (x ∷ [])
unfolding tail_of sub_mid sub_end
relink_text-alone d o x =
    let p = str d in
    let q = str o in
    let t = str x ++ [] in
    let whole = join_ids-cons x [] in
    let miss : after_prefix (p ++ (44 ∷ [])) t ≡ none =
      subst (λ w. after_prefix (p ++ (44 ∷ [])) w ≡ none) (sym (append-nil (str x)))
        (after_prefix-last p (str x) [] (str-Plain d) (str-Plain x)) in
    relink_text_all d o (join_ids (x ∷ []))
    ∙ ap (λ w. sub_end p q (sub_mid p q zero (sub_start p q w))) whole
    ∙ ap (λ w. sub_end p q (sub_mid p q zero w)) (sub_start-miss p q t miss)
    ∙ ap (sub_end p q) (sub_mid-word p q (str x) [] (str-Plain x))
    ∙ sub_end-word p q (str x) [] (str-Plain x)
    ∙ sym whole

-- The regular expressions put the original wherever the duplicate stands in a list of two ids or
-- more, if it does not stand twice side by side; a list of one id they leave as it is, also where
-- it is the duplicate.
pub relink_text_lem :
    (d o x y : ℕ) (ids : List ℕ)
    → NoTwins d o (x ∷ y ∷ ids)
    → (relink_text d o (join_ids (x ∷ y ∷ ids)) ≡ join_ids (map (swap d o) (x ∷ y ∷ ids)))
      × (relink_text d o (join_ids (d ∷ [])) ≡ join_ids (d ∷ []))
relink_text_lem d o x y ids h = (relink_text-join_ids d o x y ids h, relink_text-alone d o d)
