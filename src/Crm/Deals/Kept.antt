-- ===== src/Crm/Deals/Kept.antt =====
-- What a save of the form of a deal does to its payments.
use agamin_crm.Prelude.{
  All, Bool, Bool-cases, List, Option, Option-cases, [], ap, arith, false, if◌then◌else◌, inl, inr,
  none, not, refl, select, some, sym, true, ℕ, ◌&&◌, ◌<◌, ◌==◌, ◌||◌, ◌∙◌, ◌∷◌, ◌≡◌,
}
use agamin_crm.Prelude.Action.{
  Action, Outcome, returned, raised, Returns, >>-Returns, pick-Returns, ◌>>◌,
}
use agamin_crm.Common.RemindMe.{remind_me}
use agamin_crm.Common.RemindMe.InStep.{remind_me_returns}
use agamin_crm.Crm.Records.{Text}
use agamin_crm.Crm.Payments.{Payment, Status, is_received}
use agamin_crm.Crm.Deals.{
  Stage, ClosingReason, Deal, DealForm, DealSaving, save_model, reminder_form, is_unpaid,
  drop_payments, remind, save_formset, save_related,
}
use agamin_crm.Crm.Deals.Ends.{
  OneDefault, OneSuccess, Written, none-ne-some, some-eq, save_deal-Returns,
}

-- The payments that are not touched: those of other deals, and those that came in.
came_in : Status → Bool
came_in Status.received = true
came_in _ = false

is_safe : ℕ → Payment → Bool
unfolding came_in
is_safe k p = not (p.deal == k) || came_in p.status

pub safe_payments : ℕ → List Payment → List Payment
unfolding is_safe
safe_payments k ps = select (is_safe k) ps

came_in-is_received : (s : Status) → came_in s ≡ is_received s
unfolding came_in is_received
came_in-is_received Status.received = refl
came_in-is_received Status.guaranteed = refl
came_in-is_received Status.high_probability = refl
came_in-is_received Status.low_probability = refl

-- Just those are not unpaid.
unpaid-safe : (k : ℕ) (p : Payment) → is_safe k p ≡ not (is_unpaid k p)
unfolding is_safe is_unpaid
unpaid-safe k p = rw (came_in-is_received p.status) (ground arith)

select_safe :
    (k : ℕ) (ps : List Payment)
    → select (is_safe k) (select (λ p. not (is_unpaid k p)) ps) ≡ select (is_safe k) ps
select_safe k [] = refl
select_safe k (p ∷ ps) = elim (Bool-cases (is_unpaid k p)) [
  | inl e ↦
      let off : is_safe k p ≡ false = unpaid-safe k p ∙ ap not e in rw (e, off) (select_safe k ps)
  | inr e ↦
      let on : is_safe k p ≡ true = unpaid-safe k p ∙ ap not e in
      rw e (rw on (ap (λ qs. p ∷ qs) (select_safe k ps)))
]

All-safe :
    (k : ℕ) (ps : List Payment)
    → All (λ p. is_unpaid k p ≡ false) (select (λ p. not (is_unpaid k p)) ps)
All-safe k [] = tt
All-safe k (p ∷ ps) = elim (Bool-cases (is_unpaid k p)) [
  | inl e ↦ rw e (All-safe k ps)
  | inr e ↦ rw e (e, All-safe k ps)
]

dropped :
    (w : DealSaving) (o : Option ClosingReason)
    → safe_payments w.obj.id (drop_payments o w).1.payments ≡ safe_payments w.obj.id w.payments
unfolding drop_payments safe_payments
dropped w none = refl
dropped w (some r) = elim (Bool-cases r.success_reason) [
  | inl e ↦ simp e refl
  | inr e ↦ simp e (select_safe w.obj.id w.payments)
]

module _ (aware : ℕ → ℕ) (start : Option (ℕ × ℕ)) (content : ℕ → ℕ) (key : ℕ) (f : DealForm) where
  -- The last block, behind the reminder.
  abbrev drop : Action DealSaving (Unit {0})
  drop w =
      if f.changed_closing_reason && not w.obj.active
      then drop_payments w.obj.closing_reason w
      else (returned tt, w)

  drop-safe :
      (w : DealSaving)
      → safe_payments w.obj.id (drop w).1.payments ≡ safe_payments w.obj.id w.payments
  drop-safe w = elim (Bool-cases (f.changed_closing_reason && not w.obj.active)) [
    | inl e ↦ simp e (dropped w w.obj.closing_reason)
    | inr e ↦ simp e refl
  ]

  resumed-safe :
      (w v : DealSaving) (o : Outcome (Unit {0}))
      → v.obj ≡ w.obj
      → v.payments ≡ w.payments
      → safe_payments w.obj.id
          (elim o as (λ _. Outcome (Unit {0}) × DealSaving) [
            | returned u ↦ drop v
            | raised e ↦ (raised e, v)
          ]).1.payments
        ≡ safe_payments w.obj.id w.payments
  resumed-safe w v (returned u) same ps =
      ap (λ d. safe_payments d.id (drop v).1.payments) (sym same)
      ∙ drop-safe v
      ∙ ap (λ d. safe_payments d.id v.payments) same
      ∙ ap (safe_payments w.obj.id) ps
  resumed-safe w v (raised e) same ps = ap (safe_payments w.obj.id) ps

  -- Whether `save_related` of a deal returns or raises, the payments that came in and those of other
  -- deals are as the form's own payments leave them.
  pub save_related-safe :
      (formset : List Payment → List Payment) (w : DealSaving)
      → safe_payments w.obj.id (save_related aware start content key f formset w).1.payments
        ≡ safe_payments w.obj.id (formset w.payments)
  unfolding save_related remind save_formset
  save_related-safe formset w =
      let (r, rs) = remind_me aware start key (reminder_form content f w.obj) w.reminders in
      let u : DealSaving = record w { payments = formset w.payments } in
      resumed-safe u (record u { reminders = rs }) r refl refl

-- If the form closed the deal without success, no payment of the deal is left that was not
-- received.
abbrev pub Cleared : DealForm → Deal → DealSaving → Type 0
Cleared f d0 v =
    (r : ClosingReason)
    → d0.closing_reason ≡ some r
    → f.changed_closing_reason ≡ true
    → r.success_reason ≡ false
    → All (λ p. is_unpaid v.obj.id p ≡ false) v.payments

drop_some :
    (f : DealForm) (d0 : Deal) (v : DealSaving) (r : ClosingReason) (o : Option ClosingReason)
    → o ≡ some r
    → d0.closing_reason ≡ some r
    → Returns (Cleared f d0) (drop_payments o v)
unfolding drop_payments
drop_some f d0 v r none e k = absurd (none-ne-some r none refl e)
drop_some f d0 v r (some q) e k = elim (Bool-cases q.success_reason) [
  | inl won ↦ simp won (
    refl,
    λ x i c lost. absurd (
        let same = some-eq q x (e ∙ (sym k ∙ i)) in
        let z = ap (λ t. t.success_reason) same in ground (arith, z, won, lost)),
  )
  | inr lost ↦ simp lost (refl, λ x i c y. All-safe v.obj.id v.payments)
]

module _ (now today : ℕ) (f_date : Text) (f : DealForm) (stages : List Stage) (d0 : Deal)
    (stays : f.changed_closing_reason ≡ true
      → d0.closing_reason ≡ none
      → f.changed_relevant && not d0.relevant ≡ false) where
  drop-Returns :
      (v : DealSaving)
      → (v.obj.closing_reason ≡ d0.closing_reason)
      → (f.changed_closing_reason ≡ true
          → (r : ClosingReason) → d0.closing_reason ≡ some r
          → v.obj.active ≡ false)
      → (f.changed_closing_reason ≡ true → d0.closing_reason ≡ none → v.obj.active ≡ true)
      → Returns (Cleared f d0) (
          if f.changed_closing_reason && not v.obj.active
          then drop_payments v.obj.closing_reason v
          else (returned tt, v))
  drop-Returns v same shut open_again =
      pick-Returns (Cleared f d0) (f.changed_closing_reason && not v.obj.active) _ _
        (λ t. elim (Option-cases d0.closing_reason) [
          | inl k ↦ absurd (let on = open_again (ground (arith, t)) k in ground (arith, t, on))
          | inr (r, k) ↦ drop_some f d0 v r v.obj.closing_reason (same ∙ k) k
        ])
        (λ t. (refl, λ r k c. absurd (let off = shut c r k in ground (arith, t, c, off))))

  related-Returns :
      (aware : ℕ → ℕ) (hour minute : ℕ) (content : ℕ → ℕ) (key : ℕ)
      (formset : List Payment → List Payment) (v : DealSaving)
      → minute < 50
      → Written now today f_date f d0 stages v
      → Returns (Cleared f d0) (save_related aware (some (hour, minute)) content key f formset v)
  unfolding save_related save_formset
  related-Returns aware hour minute content key formset v early h =
      >>-Returns (λ u. u.obj ≡ v.obj) (Cleared f d0)
        (remind aware (some (hour, minute)) content key f)
        (λ u.
          if f.changed_closing_reason && not u.obj.active
          then drop_payments u.obj.closing_reason u
          else (returned tt, u))
        (save_formset formset v)
        (unfold remind in
          (
            remind_me_returns aware hour minute (reminder_form content f v.obj) key v.reminders
                early (λ e. unfold reminder_form in refl),
            refl,
          ))
        (λ u e.
          drop-Returns u (ap (λ d. d.closing_reason) e ∙ h.1)
            (λ c r k. ap (λ d. d.active) e ∙ (h.2 r k c).0)
            (λ c k. ap (λ d. d.active) e ∙ h.3 k c (stays c k)))

-- Where the department of the deal has one default stage, and one success stage if the closing
-- reason is one of success, the business hours begin before minute 50, and the form does not take
-- the closing reason away from a deal that it says at once is not relevant, `save_model` and then
-- `save_related` return; and if the form closed the deal without success, no payment of the deal
-- is left that was not received.
pub save_form-Returns :
    (stages : List Stage) (departments : ℕ → List ℕ) (truncatechars : ℕ → Text → Text)
    (now today : ℕ) (f_date : Text) (aware : ℕ → ℕ) (hour minute : ℕ) (content : ℕ → ℕ) (key : ℕ)
    (formset : List Payment → List Payment) (f : DealForm) (w : DealSaving)
    → OneDefault stages w.obj.department
    → ((r : ClosingReason)
        → w.obj.closing_reason ≡ some r
        → r.success_reason ≡ true
        → OneSuccess stages w.obj.department)
    → minute < 50
    → (f.changed_closing_reason ≡ true
        → w.obj.closing_reason ≡ none
        → f.changed_relevant && not w.obj.relevant ≡ false)
    → Returns (Cleared f w.obj) (
        (save_model stages departments truncatechars now today f_date f
            >> save_related aware (some (hour, minute)) content key f formset)
          w)
save_form-Returns stages departments truncatechars now today f_date aware hour minute content key
      formset f w one won early stays =
    >>-Returns (Written now today f_date f w.obj stages) (Cleared f w.obj)
      (save_model stages departments truncatechars now today f_date f)
      (save_related aware (some (hour, minute)) content key f formset) w
      (save_deal-Returns stages departments truncatechars now today f_date f w one won)
      (λ v h.
        related-Returns now today f_date f stages w.obj stays aware hour minute content key formset
          v early h)
