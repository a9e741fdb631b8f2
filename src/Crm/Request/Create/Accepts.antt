-- ===== src/Crm/Request/Create/Accepts.antt =====
-- What `clean` accepts, told by the links of a request.
use agamin_crm.Prelude.{
  Bool, Bool-cases, Option, ap, false, if◌then◌else◌, inl, inr, is_some, none, refl, some, sym,
  true, ◌||◌, ◌∙◌, ◌≡◌,
}
use agamin_crm.Prelude.Action.{Outcome, returned, raised, validation_error}
use agamin_crm.Crm.Records.{Company, Contact, Lead, Request, same_company}
use agamin_crm.Crm.Request.Create.{clean, mismatch}
use agamin_crm.Crm.Request.Create.Linked.{IsSound, with_contact, with_lead, alone}

-- A contact goes with no lead, and with no other company than its own.
unfoldable pub linked : Option Contact → Option Lead → Option Company → Bool
linked none l k = true
linked (some c) (some m) k = false
linked (some c) none none = true
linked (some c) none (some d) = same_company (some d) c.company

clean-eq :
    (r : Request) (c : Option Contact) (l : Option Lead) (k : Option Company)
    → r.contact ≡ c
    → r.lead ≡ l
    → r.company ≡ k
    → clean r ≡ (if linked c l k then (returned tt, r) else (raised validation_error, r))
unfolding linked clean mismatch
clean-eq r none l k hc hl hk = rw hc refl
clean-eq r (some c) (some m) none hc hl hk = rw (hc, hl, hk) refl
clean-eq r (some c) (some m) (some d) hc hl hk =
    elim (Bool-cases (same_company (some d) c.company)) [
      | inl e ↦ rw (hc, hl, hk) (rw e refl)
      | inr e ↦ rw (hc, hl, hk) (rw e refl)
    ]
clean-eq r (some c) none none hc hl hk = rw (hc, hl, hk) refl
clean-eq r (some c) none (some d) hc hl hk = elim (Bool-cases (same_company (some d) c.company)) [
  | inl e ↦ rw (hc, hl, hk) (rw e refl)
  | inr e ↦ rw (hc, hl, hk) (rw e refl)
]

pub linked-clean :
    (r : Request) → linked r.contact r.lead r.company ≡ true → clean r ≡ (returned tt, r)
linked-clean r h =
    clean-eq r r.contact r.lead r.company refl refl refl
    ∙ ap (λ b. if b then (returned tt, r) else (raised validation_error, r)) h

verdict : Bool → Request → Outcome (Unit {0}) × Request
verdict b r = if b then (returned tt, r) else (raised validation_error, r)

accepted : (r : Request) (b : Bool) → verdict b r ≡ (returned tt, r) → b ≡ true
unfolding verdict
accepted r true h = refl
accepted r false h = absurd (cc)

pub clean-linked :
    (r : Request) → clean r ≡ (returned tt, r) → linked r.contact r.lead r.company ≡ true
unfolding verdict
clean-linked r h =
    accepted r (linked r.contact r.lead r.company)
      (sym (clean-eq r r.contact r.lead r.company refl refl refl) ∙ h)

pub IsSound-linked :
    (k : Option Company) (r : Request)
    → IsSound k r
    → (linked r.contact r.lead r.company ≡ true)
      × (is_some r.contact || is_some r.lead || is_some k ≡ true)
unfolding linked
IsSound-linked k r (with_contact c hc hl h) = (rw (hc, hl) (go r.company refl), rw hc refl)
  where
    go : (d : Option Company) → r.company ≡ d → linked (some c) none d ≡ true
    go none e = refl
    go (some d) e = ap (λ x. same_company x c.company) (sym e) ∙ h
IsSound-linked k r (with_lead l hc hl) = (rw hc refl, rw (hc, hl) refl)
IsSound-linked k r (alone hc hl h) = (rw hc refl, rw (hc, hl) h)
