-- ===== src/Crm/Payments/Unique.antt =====
-- There is one rate at most for a currency and a day.
use agamin_crm.Prelude.{
  ==_iff, Bool-cases, List, Option, [], ap, arith, false, first, if◌then◌else◌, inl, inr, length,
  length-append, none, refl, select, select-append, some, subst, sym, true, ℕ, ◌++◌, ◌==◌, ◌∙◌, ◌∷◌,
  ◌≡◌, ◌≤◌,
}
use agamin_crm.Crm.Records.{given}
use agamin_crm.Crm.Payments.{
  Currency, Payment, Rate, is_for, Books, approximate_rate, save_payment, add_rate, ensure_rate,
  is_received,
}

unfoldable pub IsUnique : List Rate → Type 0
IsUnique rates = (k date : ℕ) → length (select (is_for k date) rates) ≤ 1

not_given : {A : Type 0} (xs : List A) → given xs ≡ false → xs ≡ []
not_given [] e = refl
not_given (x ∷ xs) e = absurd (cc)

same_key :
    (k date j day : ℕ) (r : Rate)
    → is_for k date r ≡ true
    → is_for j day r ≡ true
    → (k ≡ j) × (date ≡ day)
unfolding is_for
same_key k date j day r h g = (ground arith, ground arith)

pub append-IsUnique :
    (rates : List Rate) (k date : ℕ) (r : Rate)
    → is_for k date r ≡ true
    → select (is_for k date) rates ≡ []
    → IsUnique rates
    → IsUnique (rates ++ (r ∷ []))
unfolding IsUnique
append-IsUnique rates k date r own new u j day = elim (Bool-cases (is_for j day r)) [
  | inl fits ↦
      let (e, d) = same_key k date j day r own fits in
      let nothing : select (is_for j day) rates ≡ [] =
        subst (λ x. select (is_for x day) rates ≡ []) e
          (subst (λ x. select (is_for k x) rates ≡ []) d new) in
      rw (select-append (is_for j day) rates (r ∷ []), nothing, fits) (omega arith)
  | inr other ↦
      rw (select-append (is_for j day) rates (r ∷ []), other, length-append {0})
        (omega (arith, u j day))
]

approximate_rate-key :
    (c : Currency) (k date : ℕ) → c.id ≡ k → is_for k date (approximate_rate c date) ≡ true
unfolding approximate_rate is_for
approximate_rate-key c k date e = ground (arith, e)

-- The row that is found has the key that is searched.
found-key :
    (k : ℕ) (cs : List Currency) (c : Currency)
    → first (select (λ c. c.id == k) cs) ≡ some c
    → c.id ≡ k
found-key k [] c e = absurd (cc)
found-key k (d ∷ cs) c e = elim (Bool-cases (d.id == k)) [
  | inl fits ↦
      let same : some d ≡ some c =
        subst
          (λ b.
            first (if b then d ∷ select (λ c. c.id == k) cs else select (λ c. c.id == k) cs)
            ≡ some c)
          fits e in
      let here : d ≡ c = cc in sym (ap (λ x. x.id) here) ∙ (==_iff d.id k).0 fits
  | inr other ↦ found-key k cs c (
      subst
        (λ b.
          first (if b then d ∷ select (λ c. c.id == k) cs else select (λ c. c.id == k) cs) ≡ some c)
        other e)
]

add_rate-IsUnique :
    (b : Books) (k date : ℕ) (o : Option Currency)
    → ((c : Currency) → o ≡ some c → c.id ≡ k)
    → select (is_for k date) b.rates ≡ []
    → IsUnique b.rates
    → IsUnique (add_rate o date b).1.rates
unfolding add_rate
add_rate-IsUnique b k date none key new u = u
add_rate-IsUnique b k date (some c) key new u =
    append-IsUnique b.rates k date (approximate_rate c date)
      (approximate_rate-key c k date (key c refl)) new u

ensure_rate-IsUnique :
    (o : Option ℕ) (date : ℕ) (b : Books)
    → IsUnique b.rates
    → IsUnique (ensure_rate o date b).1.rates
unfolding ensure_rate
ensure_rate-IsUnique none date b u = u
ensure_rate-IsUnique (some k) date b u =
    elim (Bool-cases (given (select (is_for k date) b.rates))) [
      | inl there ↦ rw there u
      | inr new ↦
          rw new (add_rate-IsUnique b k date _ (found-key k b.currencies) (not_given _ new) u)
    ]

-- Where there is one rate at most for a currency and a day, saving a payment, whether it raises or
-- not, leaves one at most.
pub save_payment-IsUnique :
    (p : Payment) (b : Books) → IsUnique b.rates → IsUnique (save_payment p b).1.rates
unfolding save_payment
save_payment-IsUnique p b u = elim (Bool-cases (is_received p.status)) [
  | inl yes_received ↦ rw yes_received (
      ensure_rate-IsUnique p.currency p.payment_date
        (record b { payments = b.payments ++ (p ∷ []) }) u)
  | inr other ↦ rw other u
]
