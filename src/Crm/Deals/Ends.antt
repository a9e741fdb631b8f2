-- ===== src/Crm/Deals/Ends.antt =====
-- When `save_model` of a deal returns, and how it closes a deal.
use agamin_crm.Prelude.{
  Bool, Bool-cases, List, Option, ap, arith, false, inl, inr, none, not, opt_eq, refl, select, some,
  subst, sym, true, ℕ, ◌&&◌, ◌==◌, ◌∙◌, ◌≡◌,
}
use agamin_crm.Prelude.Action.{
  Action, Outcome, returned, raised, Returns, >>-Returns, pick-Returns, modify, ◌>>◌,
}
use agamin_crm.Crm.Records.{Text}
use agamin_crm.Crm.Deals.{
  Stage, ClosingReason, Deal, DealForm, DealSaving, change_deal, change_stage_data, the_stage,
  is_default, is_success, with_the_stage, set_default_stage, leave_default, set_second_default,
  sign, enter_step, change_step, win, close_by, change_closing_reason, change_stage, change_active,
  change_relevant, change_owner, mark_seen, set_deal_owner, save_deal, first_blocks, last_blocks,
  save_model,
}

-- A deal that was closed today for the reason, and won now if that is one of success.
abbrev pub IsClosed : ℕ → ℕ → ClosingReason → Deal → Type 0
IsClosed now today r d =
    (d.active ≡ false)
    × (d.closing_date ≡ some today)
    × (r.success_reason ≡ true → d.win_closing_date ≡ some now)

-- What no block changes before the department is set.
abbrev Core : Deal → Deal → Type 0
Core d e =
    (e.department ≡ d.department)
    × (e.closing_reason ≡ d.closing_reason)
    × (e.relevant ≡ d.relevant)

module _ (stages : List Stage) where
  found-Returns :
      (p : Deal → Stage → Bool) (g : Stage → Deal → Deal) (w : DealSaving) (s : Stage)
      → the_stage (select (p w.obj) stages) ≡ returned s
      → with_the_stage stages p g w ≡ (returned tt, change_deal (g s) w)
  unfolding with_the_stage
  found-Returns p g w s e =
      ap
        (λ o. elim o as (λ _. Outcome (Unit {0}) × DealSaving) [
          | returned t ↦ (returned tt, change_deal (g t) w)
          | raised x ↦ (raised x, w)
        ])
        e

  -- There is one stage of the kind in the department.
  unfoldable pub OneDefault : Option ℕ → Type 0
  OneDefault dep =
      (s : Stage) × (the_stage (select (λ t. t.default && opt_eq t.department dep) stages)
        ≡ returned s)

  unfoldable pub OneSuccess : Option ℕ → Type 0
  OneSuccess dep =
      (s : Stage) × (the_stage (select (λ t. t.success_stage && opt_eq t.department dep) stages)
        ≡ returned s)

  module _ (d0 : Deal) where
    default-found :
        (w : DealSaving)
        → OneDefault d0.department
        → w.obj.department ≡ d0.department
        → (s : Stage) × (the_stage (select (is_default w.obj) stages) ≡ returned s)
    unfolding OneDefault is_default
    default-found w one core =
        subst
          (λ dep.
            (s : Stage) × (the_stage (select (λ t. t.default && opt_eq t.department dep) stages)
              ≡ returned s))
          (sym core) one

    success-found :
        (w : DealSaving)
        → OneSuccess d0.department
        → w.obj.department ≡ d0.department
        → (s : Stage) × (the_stage (select (is_success w.obj) stages) ≡ returned s)
    unfolding OneSuccess is_success
    success-found w one core =
        subst
          (λ dep.
            (s : Stage) × (the_stage
                (select (λ t. t.success_stage && opt_eq t.department dep) stages)
              ≡ returned s))
          (sym core) one

    default_stage-Returns :
        (w : DealSaving) (o : Option Stage)
        → OneDefault d0.department
        → Core d0 w.obj
        → Returns
            (λ v. Core d0 v.obj)
            (elim o as (λ _. Outcome (Unit {0}) × DealSaving) [
              | none ↦ with_the_stage stages is_default (λ s d. record d { stage = some s }) w
              | some s ↦ (returned tt, w)
            ])
    default_stage-Returns w none one core =
        let (s, e) = default-found w one core.0 in
        subst (Returns (λ v. Core d0 v.obj))
          (sym (found-Returns is_default (λ s d. record d { stage = some s }) w s e))
          (unfold change_deal in (refl, core))
    default_stage-Returns w (some s) one core = (refl, core)

    set_default_stage-Returns :
        (w : DealSaving)
        → OneDefault d0.department
        → Core d0 w.obj
        → Returns (λ v. Core d0 v.obj) (set_default_stage stages w)
    unfolding set_default_stage
    set_default_stage-Returns w one core = default_stage-Returns w w.obj.stage one core

pub none-ne-some : {A : Type 0} (a : A) (o : Option A) → o ≡ none → o ≡ some a → ⊥
none-ne-some a o e f = cc

pub some-eq : {A : Type 0} (a b : A) → some a ≡ some b → a ≡ b
some-eq a b e = cc

module _ (now today : ℕ) (f_date : Text) (f : DealForm) (d0 : Deal) where
  -- Once the block on the closing reason has run.
  abbrev Closed : Deal → Type 0
  Closed d =
      (r : ClosingReason)
      → d0.closing_reason ≡ some r
      → f.changed_closing_reason ≡ true
      → IsClosed now today r d

  -- Without a closing reason the deal is active again.
  abbrev Open : Deal → Type 0
  Open d = d0.closing_reason ≡ none → f.changed_closing_reason ≡ true → d.active ≡ true

  -- It stays so unless the form says that it is not relevant.
  abbrev StaysOpen : Deal → Type 0
  StaysOpen d =
      d0.closing_reason ≡ none
      → f.changed_closing_reason ≡ true
      → f.changed_relevant && not d0.relevant ≡ false
      → d.active ≡ true

  abbrev Mid : DealSaving → Type 0
  Mid v = Core d0 v.obj × Closed v.obj × Open v.obj

  -- Behind the blocks on `active` and `relevant`.
  abbrev Late : DealSaving → Type 0
  Late v =
      (v.obj.department ≡ d0.department)
      × (v.obj.closing_reason ≡ d0.closing_reason)
      × Closed v.obj
      × StaysOpen v.obj

  module _ (stages : List Stage) where
    close_by-Returns :
        (w : DealSaving) (o : Option ClosingReason)
        → w.obj.closing_reason ≡ o
        → ((r : ClosingReason)
            → o ≡ some r
            → r.success_reason ≡ true
            → OneSuccess stages d0.department)
        → Core d0 w.obj
        → Returns Mid (close_by stages now today f_date f o w)
    unfolding close_by change_deal
    close_by-Returns w none is one core = (
      refl,
      (core, (λ r e c. absurd (none-ne-some r d0.closing_reason (sym core.1 ∙ is) e)), λ e c. refl),
    )
    close_by-Returns w (some r) is one core =
        let closed = change_deal (λ d. record d { active = false; closing_date = some today }) w in
        let same = λ (q : ClosingReason) (e : d0.closing_reason ≡ some q).
          some-eq r q (sym is ∙ (core.1 ∙ e)) in
        elim (Bool-cases r.success_reason) [
          | inl won ↦
              let (s, e) = success-found stages d0 closed (one r refl won) core.0 in
              simp (won, found-Returns stages is_success (win stages now today f_date f) closed s e)
                (unfold change_deal win change_stage_data in
                  (
                    refl,
                    (
                      core,
                      (λ q k c. (refl, refl, λ y. refl)),
                      λ e c. absurd (none-ne-some r d0.closing_reason e (sym core.1 ∙ is)),
                    ),
                  ))
          | inr lost ↦ simp lost (
            refl,
            (
              core,
              (λ q k c. (
                refl,
                refl,
                λ y.
                    absurd
                      (let z = ap (λ t. t.success_reason) (same q k) in ground (arith, z, y, lost)),
              )),
              λ e c. absurd (none-ne-some r d0.closing_reason e (sym core.1 ∙ is)),
            ),
          )
        ]

    change_closing_reason-Returns :
        (w : DealSaving)
        → ((r : ClosingReason)
            → d0.closing_reason ≡ some r
            → r.success_reason ≡ true
            → OneSuccess stages d0.department)
        → Core d0 w.obj
        → Returns Mid (change_closing_reason stages now today f_date f w)
    unfolding change_closing_reason
    change_closing_reason-Returns w one core =
        pick-Returns Mid f.changed_closing_reason _ _
          (λ e. close_by-Returns w w.obj.closing_reason refl (λ r k. one r (sym core.1 ∙ k)) core)
          (λ e. (
            refl,
            (core, (λ r k c. absurd (ground (arith, e, c))), λ k c. absurd (ground (arith, e, c))),
          ))

    change_stage-Mid :
        (w : DealSaving) → Mid w → Mid (change_deal (change_stage stages now today f_date f) w)
    unfolding change_stage change_stage_data change_deal
    change_stage-Mid w h = (
      (ground arith, ground arith, ground arith),
      (λ r e c.
          let k = h.1 r e c in
          (ground (arith, k.0), ground (arith, k.1), λ y. let z = k.2 y in ground (arith, z))),
      λ e c. let k = h.2 e c in ground (arith, k),
    )

    first_blocks-Returns :
        (departments : ℕ → List ℕ) (truncatechars : ℕ → Text → Text) (w : DealSaving)
        → w.obj ≡ d0
        → OneDefault stages d0.department
        → ((r : ClosingReason)
            → d0.closing_reason ≡ some r
            → r.success_reason ≡ true
            → OneSuccess stages d0.department)
        → Returns Mid (first_blocks stages departments truncatechars now today f_date f w)
    unfolding first_blocks
    first_blocks-Returns departments truncatechars w is one won =
        let close : Action DealSaving (Unit {0}) =
          change_closing_reason stages now today f_date f in
        let after : Action DealSaving (Unit {0}) =
          modify (change_deal (change_stage stages now today f_date f)) in
        let step : Action DealSaving (Unit {0}) =
          modify (change_deal (change_step truncatechars f f_date)) in
        >>-Returns (λ v. Core d0 v.obj) Mid (set_default_stage stages) (step >> (close >> after)) w
          (set_default_stage-Returns stages d0 w one
            (ap (λ d. d.department) is, ap (λ d. d.closing_reason) is, ap (λ d. d.relevant) is))
          (λ v core.
            let u = change_deal (change_step truncatechars f f_date) v in
            >>-Returns Mid Mid close after u
              (change_closing_reason-Returns u won (
                unfold change_deal change_step sign enter_step in
                (ground arith, ground arith, ground arith)))
              (λ t h. (refl, change_stage-Mid t h)))

    ends-Late :
        (w : DealSaving)
        → Mid w
        → Late (change_deal (λ d. change_relevant today f (change_active today f d)) w)
    unfolding change_relevant change_active change_deal
    ends-Late w h = (
      ground arith,
      ground arith,
      (λ r e c.
          let k = h.1 r e c in
          (ground (arith, k.0), ground (arith, k.0, k.1), λ y. let z = k.2 y in ground (arith, z))),
      λ e c x. let k = h.2 e c in ground (arith, k, x),
    )

    owner-obj : (w : DealSaving) → (change_owner f w).obj ≡ w.obj
    unfolding change_owner
    owner-obj w = ground arith

    second-Late :
        (w : DealSaving) (o : Option Stage)
        → Late w
        → Late (
            change_deal
              (λ d. elim o as (λ _. Deal) [ none ↦ d | some t ↦ record d { stage = some t } ])
              w)
    unfolding change_deal
    second-Late w none h = h
    second-Late w (some t) h = h

    leave_default-Late :
        (s t : Stage) (w : DealSaving) → Late w → Late (change_deal (leave_default stages s t) w)
    unfolding leave_default change_deal
    leave_default-Late s t w h = elim (Bool-cases (s.id == t.id)) [
      | inl e ↦ rw e (unfold change_deal in second-Late w _ h)
      | inr e ↦ rw e h
    ]

    second-Returns :
        (w : DealSaving) (o : Option Stage)
        → OneDefault stages d0.department
        → Late w
        → Returns Late (elim o as (λ _. Outcome (Unit {0}) × DealSaving) [
          | none ↦ (returned tt, w)
          | some s ↦ with_the_stage stages is_default (leave_default stages s) w
        ])
    second-Returns w none one h = (refl, h)
    second-Returns w (some s) one h =
        let (t, e) = default-found stages d0 w one h.0 in
        subst (Returns Late) (sym (found-Returns stages is_default (leave_default stages s) w t e))
          (refl, leave_default-Late s t w h)

    set_second_default-Returns :
        (w : DealSaving)
        → OneDefault stages d0.department
        → Late w
        → Returns Late (set_second_default stages f w)
    unfolding set_second_default
    set_second_default-Returns w one h =
        pick-Returns Late f.change _ _ (λ e. second-Returns w w.obj.stage one h) (λ e. (refl, h))

    -- The row that is written at the end.
    abbrev pub Written : DealSaving → Type 0
    Written v =
        (v.row ≡ some v.obj)
        × (v.obj.closing_reason ≡ d0.closing_reason)
        × Closed v.obj
        × StaysOpen v.obj

    last_blocks-Returns :
        (departments : ℕ → List ℕ) (truncatechars : ℕ → Text → Text) (w : DealSaving)
        → OneDefault stages d0.department
        → Mid w
        → Returns Written (last_blocks stages departments truncatechars now today f_date f w)
    unfolding last_blocks
    last_blocks-Returns departments truncatechars w one h =
        let sign_off : Action DealSaving (Unit {0}) =
          modify (change_deal (λ d. set_deal_owner f departments (mark_seen f d))) in
        let u =
          change_owner f (change_deal (λ d. change_relevant today f (change_active today f d)) w) in
        >>-Returns Late Written (set_second_default stages f) (sign_off >> modify save_deal) u
          (set_second_default-Returns u one (
            subst
              (λ d.
                (d.department ≡ d0.department)
                × (d.closing_reason ≡ d0.closing_reason)
                × Closed d
                × StaysOpen d)
              (sym (
                owner-obj (change_deal (λ d. change_relevant today f (change_active today f d)) w)))
              (ends-Late w h)))
          (λ t k. (
            refl,
            unfold save_deal change_deal set_deal_owner mark_seen in
                (
                  refl,
                  ground arith,
                  (λ r e c.
                      let y = k.2 r e c in
                      (
                        ground (arith, y.0),
                        ground (arith, y.1),
                        λ z. let q = y.2 z in ground (arith, q),
                      )),
                  λ e c x. let y = k.3 e c x in ground (arith, y),
                ),
          ))

-- If the department of the deal has one default stage, and one success stage where the closing
-- reason is one of success, then `save_model` returns and the row is the object. If the form set a
-- closing reason, that deal is not active and was closed today, and it was won now if the reason
-- is one of success; if the form took the reason away, the deal is active, unless the form says at
-- once that it is not relevant.
pub save_deal-Returns :
    (stages : List Stage) (departments : ℕ → List ℕ) (truncatechars : ℕ → Text → Text)
    (now today : ℕ) (f_date : Text) (f : DealForm) (w : DealSaving)
    → OneDefault stages w.obj.department
    → ((r : ClosingReason)
        → w.obj.closing_reason ≡ some r
        → r.success_reason ≡ true
        → OneSuccess stages w.obj.department)
    → Returns
        (Written now today f_date f w.obj stages)
        (save_model stages departments truncatechars now today f_date f w)
unfolding save_model
save_deal-Returns stages departments truncatechars now today f_date f w one won =
    >>-Returns (Mid now today f_date f w.obj) (Written now today f_date f w.obj stages)
      (first_blocks stages departments truncatechars now today f_date f)
      (last_blocks stages departments truncatechars now today f_date f) w
      (first_blocks-Returns now today f_date f w.obj stages departments truncatechars w refl one
        won)
      (λ v h. last_blocks-Returns now today f_date f w.obj stages departments truncatechars v one h)
