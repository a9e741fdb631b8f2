-- ===== src/Crm/Rates/Ends.antt =====
-- The second loop of `get_rates` ends: every turn gives a payment its official rate.
use agamin_crm.Prelude.{
  Bool, Bool-cases, List, Option, [], ap, arith, false, first, if◌then◌else◌, inl, inr, length, map,
  none, refl, select, some, subst, suc, sym, true, zero, ℕ, ◌&&◌, ◌++◌, ◌<◌, ◌∙◌, ◌∷◌, ◌≡◌, ◌≤◌,
  ◌⊎◌,
}
use agamin_crm.Crm.Records.{given}
use agamin_crm.Crm.Payments.{Currency, Payment, Rate, is_for, is_official}
use agamin_crm.Crm.Rates.{
  Quote, Backend, has_official, is_pending, make_official, official_rate, store, set_rate, stored,
  End, no_payment_left, next_payment, record_quote, ask_for, rate_for, turn, load,
}

some_inj : {A : Type 0} (x y : A) → some x ≡ some y → x ≡ y
some_inj x y e = cc

module _ {A : Type 0} where
  given-tail :
      (f : A → Bool) (x : A) (xs : List A)
      → given (select f xs) ≡ true
      → given (select f (x ∷ xs)) ≡ true
  given-tail f x xs e = elim (Bool-cases (f x)) [ inl fits ↦ rw fits refl | inr other ↦ rw other e ]

  given-head : (f : A → Bool) (x : A) (xs : List A) → f x ≡ true → given (select f (x ∷ xs)) ≡ true
  given-head f x xs e = rw e refl

  -- Whether the first row fits, or one of the others.
  given-cons :
      (f : A → Bool) (x : A) (xs : List A)
      → given (select f (x ∷ xs)) ≡ true
      → (f x ≡ true) ⊎ (given (select f xs) ≡ true)
  given-cons f x xs e = elim (Bool-cases (f x)) [
    | inl fits ↦ inl fits
    | inr other ↦
        inr (subst (λ b. given (if b then x ∷ select f xs else select f xs) ≡ true) other e)
  ]

  given-map :
      (f g : A → Bool) (h : A → A) (xs : List A)
      → ((x : A) → f x ≡ true → g (h x) ≡ true)
      → given (select f xs) ≡ true
      → given (select g (map h xs)) ≡ true
  given-map f g h [] k e = e
  given-map f g h (x ∷ xs) k e = elim (given-cons f x xs e) [
    | inl fits ↦ given-head g (h x) (map h xs) (k x fits)
    | inr later ↦ given-tail g (h x) (map h xs) (given-map f g h xs k later)
  ]

  given-append :
      (f : A → Bool) (xs ys : List A)
      → given (select f xs) ≡ true
      → given (select f (xs ++ ys)) ≡ true
  given-append f [] ys e = absurd (cc)
  given-append f (x ∷ xs) ys e = elim (given-cons f x xs e) [
    | inl fits ↦ given-head f x (xs ++ ys) fits
    | inr later ↦ given-tail f x (xs ++ ys) (given-append f xs ys later)
  ]

  given-last :
      (f : A → Bool) (xs : List A) (y : A) → f y ≡ true → given (select f (xs ++ (y ∷ []))) ≡ true
  given-last f [] y e = given-head f y [] e
  given-last f (x ∷ xs) y e = given-tail f x (xs ++ (y ∷ [])) (given-last f xs y e)

  -- Fewer fit a narrower test, by one at least where the first that fits the wider one does not.
  length-narrow :
      (f g : A → Bool) (xs : List A)
      → ((x : A) → f x ≡ true → g x ≡ true)
      → length (select f xs) ≤ length (select g xs)
  length-narrow f g [] k = omega arith
  length-narrow f g (x ∷ xs) k =
      let rest = length-narrow f g xs k in
      elim (Bool-cases (f x)) [
        | inl fits ↦ rw (fits, k x fits) (omega (arith, rest))
        | inr other ↦ elim (Bool-cases (g x)) [
          | inl wide ↦ rw (other, wide) (omega (arith, rest))
          | inr none_fits ↦ rw (other, none_fits) rest
        ]
      ]

  length-drop :
      (f g : A → Bool) (xs : List A) (y : A)
      → ((x : A) → f x ≡ true → g x ≡ true)
      → first (select g xs) ≡ some y
      → f y ≡ false
      → suc (length (select f xs)) ≤ length (select g xs)
  length-drop f g [] y k e out = absurd (cc)
  length-drop f g (x ∷ xs) y k e out = elim (Bool-cases (g x)) [
    | inl wide ↦
        let same : some x ≡ some y =
          subst (λ b. first (if b then x ∷ select g xs else select g xs) ≡ some y) wide e in
        let gone : f x ≡ false = ap f (some_inj x y same) ∙ out in
        rw (gone, wide) (omega (arith, length-narrow f g xs k))
    | inr narrow ↦
        let later =
          subst (λ b. first (if b then x ∷ select g xs else select g xs) ≡ some y) narrow e in
        let gone : f x ≡ false = elim (Bool-cases (f x)) [
          | inl fits ↦ absurd (let wide = k x fits in cc)
          | inr other ↦ other
        ] in
        rw (gone, narrow) (length-drop f g xs y k later out)
  ]

-- What a new official rate does to the payments that wait for one.
made-official :
    (k date : ℕ) (q : Quote) (r : Rate)
    → is_for k date r ≡ true
    → is_for k date (make_official k date q r) && is_official (make_official k date q r).rate_type
      ≡ true
unfolding make_official is_for is_official
made-official k date q r fits = rw fits (ground (arith, fits))

new-official :
    (k date : ℕ) (q : Quote)
    → is_for k date (official_rate k date q) && is_official (official_rate k date q).rate_type
      ≡ true
unfolding official_rate is_for is_official
new-official k date q = ground arith

module _ (k date : ℕ) (q : Quote) where
  kept-official :
      (j day : ℕ) (r : Rate)
      → is_for j day r && is_official r.rate_type ≡ true
      → is_for j day (make_official k date q r) && is_official (make_official k date q r).rate_type
        ≡ true
  unfolding make_official is_for is_official
  kept-official j day r h = elim (Bool-cases (is_for k date r)) [
    | inl fits ↦ rw fits (ground (arith, h))
    | inr other ↦ rw other h
  ]

  module _ (rates after : List Rate) (done : set_rate k date q rates ≡ some after) where
    -- Either one rate was there, or none.
    stored_cases :
        (after ≡ map (make_official k date q) rates) × (given (select (is_for k date) rates) ≡ true)
        ⊎ (after ≡ rates ++ (official_rate k date q ∷ []))
    unfolding set_rate store
    stored_cases = go (select (is_for k date) rates) refl done
      where
        go :
            (found : List Rate)
            → select (is_for k date) rates ≡ found
            → store k date q rates found ≡ some after
            → (after ≡ map (make_official k date q) rates)
                × (given (select (is_for k date) rates) ≡ true)
              ⊎ (after ≡ rates ++ (official_rate k date q ∷ []))
        go [] e d = inr (sym (some_inj _ _ d))
        go (r ∷ []) e d = inl (sym (some_inj _ _ d), ap given e)
        go (r ∷ s ∷ rs) e d = absurd (cc)

    set_rate-official : has_official after (some k) date ≡ true
    unfolding has_official
    set_rate-official = elim stored_cases [
      | inl (e, there) ↦ rw e (
          given-map (is_for k date) _ (make_official k date q) rates (made-official k date q) there)
      | inr e ↦ rw e (given-last _ rates (official_rate k date q) (new-official k date q))
    ]

    set_rate-keeps :
        (j : Option ℕ) (day : ℕ) → has_official rates j day ≡ true → has_official after j day ≡ true
    unfolding has_official
    set_rate-keeps none day h = h
    set_rate-keeps (some j) day h = elim stored_cases [
      | inl (e, there) ↦ rw e (given-map _ _ (make_official k date q) rates (kept-official j day) h)
      | inr e ↦ rw e (given-append _ rates (official_rate k date q ∷ []) h)
    ]

module _ (ask : Backend) (today : ℕ) (currencies : List Currency) (payments : List Payment) where
  -- How many received payments of the days before wait for an official rate.
  pub waiting : List Rate → ℕ
  waiting rates = length (select (is_pending today rates) payments)

  -- What a turn does: it ends the loop, or one payment less waits.
  Turned : Option Payment → List Rate → End ⊎ List Rate → Type 0
  Turned o rates (inl e) = (e ≡ no_payment_left) → o ≡ none
  Turned o rates (inr after) = suc (waiting after) ≤ waiting rates

  is_pending-kept :
      (p : Payment) (k date : ℕ) (q : Quote) (rates after : List Rate)
      → set_rate k date q rates ≡ some after
      → is_pending today after p ≡ true
      → is_pending today rates p ≡ true
  unfolding is_pending
  is_pending-kept p k date q rates after done h =
      elim (Bool-cases (has_official rates p.currency p.payment_date)) [
        | inl there ↦
            let kept = set_rate-keeps k date q rates after done p.currency p.payment_date there in
            ground arith
        | inr missing ↦ ground (arith, h, missing)
      ]

  is_pending-done :
      (p : Payment) (k : ℕ) (q : Quote) (rates after : List Rate)
      → p.currency ≡ some k
      → set_rate k p.payment_date q rates ≡ some after
      → is_pending today after p ≡ false
  unfolding is_pending
  is_pending-done p k q rates after e done =
      let there : has_official after p.currency p.payment_date ≡ true =
        rw e (set_rate-official k p.payment_date q rates after done) in
      ground arith

  pending-less :
      (p : Payment) (k : ℕ) (q : Quote) (rates after : List Rate)
      → p.currency ≡ some k
      → next_payment ask today currencies payments rates ≡ some p
      → set_rate k p.payment_date q rates ≡ some after
      → suc (waiting after) ≤ waiting rates
  unfolding waiting next_payment
  pending-less p k q rates after e n done =
      length-drop (is_pending today after) (is_pending today rates) payments p
        (λ x. is_pending-kept x k p.payment_date q rates after done) n
        (is_pending-done p k q rates after e done)

  recorded-Turned :
      (p : Payment) (k : ℕ) (q : Option Quote) (rates : List Rate)
      → p.currency ≡ some k
      → next_payment ask today currencies payments rates ≡ some p
      → Turned (some p) rates (record_quote ask today currencies payments k p.payment_date rates q)
  unfolding record_quote Turned stored
  recorded-Turned p k none rates e n = λ h. absurd (cc)
  recorded-Turned p k (some q) rates e n = go (set_rate k p.payment_date q rates) refl
    where
      go :
          (o : Option (List Rate))
          → set_rate k p.payment_date q rates ≡ o
          → Turned (some p) rates (stored o)
      go none d = λ h. absurd (cc)
      go (some after) d = pending-less p k q rates after e n d

  asked-Turned :
      (p : Payment) (k : ℕ) (c : Option Currency) (rates : List Rate)
      → p.currency ≡ some k
      → next_payment ask today currencies payments rates ≡ some p
      → Turned (some p) rates (ask_for ask today currencies payments k p.payment_date rates c)
  unfolding ask_for Turned
  asked-Turned p k none rates e n = λ h. absurd (cc)
  asked-Turned p k (some c) rates e n = recorded-Turned p k (ask c.name p.payment_date) rates e n

  rated-Turned :
      (p : Payment) (k : Option ℕ) (rates : List Rate)
      → p.currency ≡ k
      → next_payment ask today currencies payments rates ≡ some p
      → Turned (some p) rates (rate_for ask today currencies payments k p.payment_date rates)
  unfolding rate_for Turned
  rated-Turned p none rates e n = λ h. absurd (cc)
  rated-Turned p (some k) rates e n = asked-Turned p k _ rates e n

  turn-Turned :
      (o : Option Payment) (rates : List Rate)
      → next_payment ask today currencies payments rates ≡ o
      → Turned o rates (turn ask today currencies payments o rates)
  unfolding turn Turned
  turn-Turned none rates n = λ h. refl
  turn-Turned (some p) rates n = rated-Turned p p.currency rates refl n

  -- How the loop ended, and with which rates; where it says that no payment is left, none waits.
  abbrev pub Ended : Option (End × List Rate) → Type 0
  Ended none = ⊥
  Ended (some (e, rates)) = e ≡ no_payment_left → waiting rates ≡ 0

  none_waits :
      (rates : List Rate)
      → next_payment ask today currencies payments rates ≡ none
      → waiting rates ≡ 0
  unfolding next_payment waiting
  none_waits rates n = empty (select (is_pending today rates) payments) n
    where
      empty : (ps : List Payment) → first ps ≡ none → length ps ≡ 0
      empty [] e = refl
      empty (x ∷ ps) e = absurd (cc)

  go_on :
      (n : ℕ) (rates : List Rate) (x : End ⊎ List Rate)
      → Turned (next_payment ask today currencies payments rates) rates x
      → waiting rates < suc n
      → ((after : List Rate)
          → waiting after < n
          → Ended (load ask today currencies payments n after))
      → Ended (elim x [
        | inl e ↦ some (e, rates)
        | inr after ↦ load ask today currencies payments n after
      ])
  unfolding Turned
  go_on n rates (inl e) t h rest = λ left. none_waits rates (t left)
  go_on n rates (inr after) t h rest = rest after (omega (arith, t, h))

  -- The second loop of `get_rates` ends, after one turn more at most than there are received
  -- payments of earlier days that wait for an official rate; and it breaks for want of a payment
  -- only when none waits any more.
  pub load_ends :
      (n : ℕ) (rates : List Rate)
      → waiting rates < n
      → Ended (load ask today currencies payments n rates)
  unfolding load
  load_ends zero rates h = absurd (omega arith)
  load_ends (suc n) rates h = go_on n rates _ (turn-Turned _ rates refl) h (load_ends n)
