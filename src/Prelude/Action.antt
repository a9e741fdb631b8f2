-- ===== src/Prelude/Action.antt =====
-- Methods that change objects and may raise. What was assigned before an exception stays assigned,
-- so an action gives back the state in both cases.
use mathlib.Core.Path.{◌≡◌, refl, subst, sym}
use mathlib.Core.Bool.{Bool, true, false}
use agamin_crm.Prelude.Lists.{All}
use agamin_crm.Prelude.Tests.{if◌then◌else◌}
use mathlib.Core.Option.{Option, none, some}
use mathlib.Core.List.{List, [], ◌∷◌}

-- The exception classes that the modelled code raises or meets.
pub data Error : Type 0 where
  value_error key_error index_error attribute_error type_error : Error
  does_not_exist multiple_objects_returned integrity_error validation_error : Error

pub data Outcome {ℓ} (A : Type ℓ) : Type ℓ where
  returned : A → Outcome A
  raised : Error → Outcome A

abbrev pub Action {ℓ} : Type ℓ → Type ℓ → Type ℓ
Action S A = S → Outcome A × S

module _ {ℓ} {S A : Type ℓ} where
  abbrev pub pure : A → Action S A
  pure a s = (returned a, s)

  abbrev pub raise : Error → Action S A
  raise e s = (raised e, s)

  abbrev pub reads : (S → A) → Action S A
  reads f s = (returned (f s), s)

  -- A call of a function that gives `none` where it raises `e`.
  abbrev pub or_raise : Option A → Error → Action S A
  or_raise none e s = (raised e, s)
  or_raise (some a) e s = (returned a, s)

abbrev pub modify : {S : Type 0} → (S → S) → Action S (Unit {0})
modify f s = (returned tt, f s)

infixl 5 ◌>>=◌ ◌>>◌
abbrev pub ◌>>=◌ {ℓ} : {S A B : Type ℓ} → Action S A → (A → Action S B) → Action S B
◌>>=◌ m f s = let (r, t) = m s in elim r [ returned a ↦ f a t | raised e ↦ (raised e, t) ]

abbrev pub ◌>>◌ {ℓ} : {S A B : Type ℓ} → Action S A → Action S B → Action S B
m >> k = m >>= λ _. k

-- An action on one object of a larger state.
abbrev pub focus : {S T A : Type 0} → (S → T) → (T → S → S) → Action T A → Action S A
focus get put m s = let (r, t) = m (get s) in (r, put t s)

-- A loop over a list; an exception ends it.
pub for_each : {S A : Type 0} → List A → (A → Action S (Unit {0})) → Action S (Unit {0})
for_each [] f s = (returned tt, s)
for_each (x ∷ xs) f s = (f x >> for_each xs f) s

-- What holds before an action holds after it, whether it returns or raises.
pub record Preserves {S A : Type 0} (P : S → Type 0) (m : Action S A) : Type 0 where
  pub at : (s : S) → P s → P (m s).1

resume : {S A B : Type 0} → (A → Action S B) → Outcome A → S → Outcome B × S
resume f (returned a) t = f a t
resume f (raised e) t = (raised e, t)

module _ {S A B : Type 0} where
  resume-eq :
      (f : A → Action S B) (r : Outcome A) (t : S)
      → resume f r t ≡ elim r [ returned a ↦ f a t | raised e ↦ (raised e, t) ]
  unfolding resume
  resume-eq f (returned a) t = refl
  resume-eq f (raised e) t = refl

module _ {S A B : Type 0} {P : S → Type 0} where
  resume-keeps :
      (f : A → Action S B)
      → ((a : A) → Preserves P (f a))
      → (r : Outcome A) (t : S) → P t
      → P (resume f r t).1
  unfolding resume
  resume-keeps f keep (returned a) t h = (keep a).at t h
  resume-keeps f keep (raised e) t h = h

  -- A sequence keeps what both parts keep.
  pub >>=-Preserves :
      (m : Action S A) (f : A → Action S B)
      → Preserves P m
      → ((a : A) → Preserves P (f a))
      → Preserves P (m >>= f)
  >>=-Preserves m f first next = record {
    at = λ s h.
        let (r, t) = m s in
        subst (λ w. P w.1) (resume-eq f r t) (resume-keeps f next r t (first.at s h));
  }

resume-leads :
    {S A B : Type 0} (P R : S → Type 0) (f : A → Action S B)
    → ((s : S) → P s → R s)
    → ((a : A) (s : S) → P s → R (f a s).1)
    → (r : Outcome A) (t : S) → P t
    → R (resume f r t).1
unfolding resume
resume-leads P R f weak last (returned a) t h = last a t h
resume-leads P R f weak last (raised e) t h = weak t h

-- What holds before a sequence leads to what holds after it, if the first part keeps the former.
pub >>-leads :
    {S B : Type 0} (P R : S → Type 0) (m : Action S (Unit {0})) (k : Action S B)
    → Preserves P m
    → ((s : S) → P s → R s)
    → ((s : S) → P s → R (k s).1)
    → (s : S) → P s
    → R ((m >> k) s).1
>>-leads P R m k first weak last s h =
    let (r, t) = m s in
    subst (λ w. R w.1) (resume-eq (λ _. k) r t)
      (resume-leads P R (λ _. k) weak (λ _. last) r t (first.at s h))

-- Where an action leaves the state: in `R` when it returns, in `E` when it raises.
abbrev pub Leaves : {S : Type 0} → (S → Type 0) → (S → Type 0) → Outcome (Unit {0}) × S → Type 0
Leaves R E (returned u, s) = R s
Leaves R E (raised e, s) = E s

resume-Leaves :
    {S : Type 0} (Q R E : S → Type 0) (k : Action S (Unit {0})) (r : Outcome (Unit {0})) (t : S)
    → Leaves Q E (r, t)
    → ((t : S) → Q t → Leaves R E (k t))
    → Leaves R E (resume (λ _. k) r t)
unfolding resume
resume-Leaves Q R E k (returned a) t h next = next t h
resume-Leaves Q R E k (raised e) t h next = h

pub >>-Leaves :
    {S : Type 0} (Q R E : S → Type 0) (m k : Action S (Unit {0})) (s : S)
    → Leaves Q E (m s)
    → ((t : S) → Q t → Leaves R E (k t))
    → Leaves R E ((m >> k) s)
>>-Leaves Q R E m k s h next =
    let (r, t) = m s in
    subst (Leaves R E) (resume-eq (λ _. k) r t) (resume-Leaves Q R E k r t h next)

pub weak-Leaves :
    {S : Type 0} (Q R E : S → Type 0) (out : Outcome (Unit {0}) × S)
    → ((s : S) → Q s → R s)
    → Leaves Q E out
    → Leaves R E out
weak-Leaves Q R E (returned u, s) weak h = weak s h
weak-Leaves Q R E (raised e, s) weak h = h

pub pick-Leaves :
    {S : Type 0} (R E : S → Type 0) (b : Bool) (x y : Outcome (Unit {0}) × S)
    → (b ≡ true → Leaves R E x)
    → (b ≡ false → Leaves R E y)
    → Leaves R E (if b then x else y)
pick-Leaves R E true x y h k = h refl
pick-Leaves R E false x y h k = k refl

-- An action that returns, in a state with a property.
abbrev pub Returns : {S : Type 0} → (S → Type 0) → Outcome (Unit {0}) × S → Type 0
Returns R out = (out.0 ≡ returned tt) × R out.1

pub >>-Returns :
    {S : Type 0} (R T : S → Type 0) (m k : Action S (Unit {0})) (s : S)
    → Returns R (m s)
    → ((t : S) → R t → Returns T (k t))
    → Returns T ((m >> k) s)
>>-Returns {S} R T m k s h next =
    let (r, t) = m s in
    subst
      (λ v.
        Returns T
          (elim v as (λ _. Outcome (Unit {0}) × S) [ returned a ↦ k t | raised e ↦ (raised e, t) ]))
      (sym h.0) (next t h.1)

pub pick-Returns :
    {S : Type 0} (R : S → Type 0) (b : Bool) (x y : Outcome (Unit {0}) × S)
    → (b ≡ true → Returns R x)
    → (b ≡ false → Returns R y)
    → Returns R (if b then x else y)
pick-Returns R true x y h k = h refl
pick-Returns R false x y h k = k refl

pub if_at :
    {S B : Type 0} (P : S → Type 0) (b : Bool) (x y : Outcome B × S)
    → P x.1
    → P y.1
    → P (if b then x else y).1
if_at P true x y h k = h
if_at P false x y h k = k

module _ {S B : Type 0} {P : S → Type 0} where
  pub >>-Preserves :
      (m : Action S (Unit {0})) (k : Action S B)
      → Preserves P m
      → Preserves P k
      → Preserves P (m >> k)
  >>-Preserves m k first next = >>=-Preserves m (λ _. k) first (λ _. next)

  pub pure-Preserves : (b : B) → Preserves P (pure b)
  pure-Preserves b = record { at = λ s h. h }

  pub raise-Preserves : (e : Error) → Preserves P (raise {A = B} e)
  raise-Preserves e = record { at = λ s h. h }

  pub if-Preserves :
      (b : Bool) (m k : Action S B)
      → Preserves P m
      → Preserves P k
      → Preserves P (if b then m else k)
  if-Preserves true m k hm hk = hm
  if-Preserves false m k hm hk = hk

-- A loop keeps what each round keeps.
pub for_each-Preserves :
    {S A : Type 0} {P : S → Type 0} (xs : List A) (f : A → Action S (Unit {0}))
    → ((x : A) → Preserves P (f x))
    → Preserves P (for_each xs f)
unfolding for_each
for_each-Preserves [] f keep = pure-Preserves tt
for_each-Preserves (x ∷ xs) f keep =
    >>-Preserves (f x) (for_each xs f) (keep x) (for_each-Preserves xs f keep)

-- The same where each item has a property that its round needs.
pub for_each-All :
    {S A : Type 0} {P : S → Type 0} (Q : A → Type 0) (xs : List A) (f : A → Action S (Unit {0}))
    → All Q xs
    → ((x : A) → Q x → Preserves P (f x))
    → Preserves P (for_each xs f)
unfolding for_each
for_each-All Q [] f all keep = pure-Preserves tt
for_each-All Q (x ∷ xs) f all keep =
    >>-Preserves (f x) (for_each xs f) (keep x all.0) (for_each-All Q xs f all.1 keep)

pub ruleset keeps_rules =
    (>>=-Preserves, >>-Preserves, pure-Preserves, raise-Preserves, if-Preserves, for_each-Preserves)
