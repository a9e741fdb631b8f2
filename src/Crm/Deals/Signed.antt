-- ===== src/Crm/Deals/Signed.antt =====
-- The next step that another user than the owner writes is signed within its field.
use agamin_crm.Prelude.{
  Bool-cases, [], arith, inl, inr, length, length-append, ltb, opt_eq, refl, some, true, ℕ, ◌++◌,
  ◌+◌, ◌-◌, ◌∷◌, ◌≡◌, ◌≤◌, ◌⊎◌,
}
use agamin_crm.Crm.Records.{Text}
use agamin_crm.Crm.Deals.{Deal, DealForm, signature, sign}

length-signature :
    (truncatechars : ℕ → Text → Text) (f : DealForm)
    → length (signature truncatechars f) ≡ length f.username + 3
unfolding signature
length-signature truncatechars f = omega (arith, length-append {0} f.username (41 ∷ []))

-- A text that Django's `truncatechars` gives is no longer than asked for. If the username is not
-- longer than 150 and the next step fits its field of 250, then the next step fits once it is
-- signed; by another user than the owner it then ends with his signature.
pub sign-fits :
    (truncatechars : ℕ → Text → Text)
    → ((n : ℕ) (t : Text) → length (truncatechars n t) ≤ n)
    → (f : DealForm) (d : Deal) → length f.username ≤ 150
    → length d.next_step ≤ 250
    → (length (sign truncatechars f d).next_step ≤ 250)
      × ((opt_eq d.owner (some f.user) ≡ true)
          ⊎ ((t : Text) × ((sign truncatechars f d).next_step ≡ t ++ signature truncatechars f)))
unfolding sign
sign-fits truncatechars law f d short fits =
    let mark = signature truncatechars f in
    let cut = truncatechars (250 - length mark) d.next_step in
    let whole = length-append d.next_step mark in
    let parts = length-append cut mark in
    let size = length-signature truncatechars f in
    let bound = law (250 - length mark) d.next_step in
    elim (Bool-cases (opt_eq d.owner (some f.user))) [
      | inl own ↦ simp own (fits, inl refl)
      | inr other ↦ elim (Bool-cases (ltb 250 (length (d.next_step ++ mark)))) [
        | inl long ↦ simp (other, long) (omega (arith, parts, size, bound, short), inr (cut, refl))
        | inr whole_fits ↦
            simp (other, whole_fits) (ground (arith, whole_fits), inr (d.next_step, refl))
      ]
    ]
