-- ===== src/Crm/Rates/Unique.antt =====
-- `get_rates` leaves one rate at most for a currency and a day.
use agamin_crm.Prelude.{
  Bool-cases, List, [], arith, inl, inr, length, map, refl, select, some, subst, true, ℕ, ◌++◌, ◌∷◌,
  ◌≡◌, ◌≤◌,
}
use agamin_crm.Crm.Payments.{Rate, is_for}
use agamin_crm.Crm.Payments.Unique.{IsUnique, append-IsUnique}
use agamin_crm.Crm.Rates.{Quote, make_official, official_rate, store, set_rate}

make_official-key :
    (k date : ℕ) (q : Quote) (j day : ℕ) (r : Rate)
    → is_for j day (make_official k date q r) ≡ is_for j day r
unfolding make_official is_for
make_official-key k date q j day r = ground arith

length-make_official :
    (k date : ℕ) (q : Quote) (j day : ℕ) (rates : List Rate)
    → length (select (is_for j day) (map (make_official k date q) rates))
      ≡ length (select (is_for j day) rates)
length-make_official k date q j day [] = refl
length-make_official k date q j day (r ∷ rates) = elim (Bool-cases (is_for j day r)) [
  | inl fits ↦
      rw (make_official-key k date q j day r, fits, length-make_official k date q j day rates) refl
  | inr other ↦
      rw (make_official-key k date q j day r, other) (length-make_official k date q j day rates)
]

official_rate-key : (k date : ℕ) (q : Quote) → is_for k date (official_rate k date q) ≡ true
unfolding official_rate is_for
official_rate-key k date q = ground arith

store-IsUnique :
    (k date : ℕ) (q : Quote) (rates found : List Rate)
    → select (is_for k date) rates ≡ found
    → IsUnique rates
    → (after : List Rate) × (store k date q rates found ≡ some after) × IsUnique after
unfolding store IsUnique
store-IsUnique k date q rates [] e u = (
  rates ++ (official_rate k date q ∷ []),
  refl,
  append-IsUnique rates k date (official_rate k date q) (official_rate-key k date q) e u,
)
store-IsUnique k date q rates (r ∷ []) e u = (
  map (make_official k date q) rates,
  refl,
  λ j day. rw (length-make_official k date q j day rates) (u j day),
)
store-IsUnique k date q rates (r ∷ s ∷ rs) e u =
    let two : length (r ∷ s ∷ rs) ≤ 1 = subst (λ x. length x ≤ 1) e (u k date) in
    absurd (omega (arith, two))

-- Where there is one rate at most for a currency and a day, the second loop of `get_rates` finds
-- none or one (`Rate.objects.get` does not raise MultipleObjectsReturned), and what it stores
-- leaves one at most again.
pub set_rate-IsUnique :
    (k date : ℕ) (q : Quote) (rates : List Rate)
    → IsUnique rates
    → (after : List Rate) × (set_rate k date q rates ≡ some after) × IsUnique after
unfolding set_rate
set_rate-IsUnique k date q rates u = store-IsUnique k date q rates _ refl u
