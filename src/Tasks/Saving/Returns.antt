-- ===== src/Tasks/Saving/Returns.antt =====
-- Actions that return.
use agamin_crm.Prelude.{Bool, ap, false, if◌then◌else◌, refl, subst, sym, true, ◌∙◌, ◌≡◌}
use agamin_crm.Prelude.Action.{Action, Outcome, returned, raised, ◌>>◌}
use agamin_crm.Tasks.Saving.{Saving}

-- From every state with the first property the action returns, in a state with the second.
pub record Returns (P Q : Saving → Type 0) (m : Action Saving (Unit {0})) : Type 0 where
  pub at : (w : Saving) → P w → (m w).0 ≡ returned tt
  pub keeps : (w : Saving) → P w → Q (m w).1

pub after :
    (k : Action Saving (Unit {0})) (r : Outcome (Unit {0})) (t : Saving)
    → r ≡ returned tt
    → (elim r as (λ _. Outcome (Unit {0}) × Saving) [ returned a ↦ k t | raised e ↦ (raised e, t) ])
      ≡ k t
after k (returned a) t h = refl
after k (raised e) t h = cc

pub >>-Returns :
    {P Q R : Saving → Type 0} (m k : Action Saving (Unit {0}))
    → Returns P Q m
    → Returns Q R k
    → Returns P R (m >> k)
>>-Returns {R} m k one next = record {
  at =
      λ w h. ap (λ v. v.0) (after k (m w).0 (m w).1 (one.at w h)) ∙ next.at (m w).1 (one.keeps w h);
  keeps = λ w h.
      subst (λ v. R v.1) (sym (after k (m w).0 (m w).1 (one.at w h)))
        (next.keeps (m w).1 (one.keeps w h));
}

pub if_at :
    (b : Bool) (x y : Outcome (Unit {0}) × Saving)
    → x.0 ≡ returned tt
    → y.0 ≡ returned tt
    → (if b then x else y).0 ≡ returned tt
if_at true x y h k = h
if_at false x y h k = k

pub if_keeps :
    (P : Saving → Type 0) (b : Bool) (x y : Outcome (Unit {0}) × Saving)
    → P x.1
    → P y.1
    → P (if b then x else y).1
if_keeps P true x y h k = h
if_keeps P false x y h k = k
