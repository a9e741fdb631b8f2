-- ===== src/Crm/Deals/Dated.antt =====
-- A deal that is not active has a closing date.
use agamin_crm.Prelude.{
  Bool, Bool-cases, List, Option, ap, arith, false, inl, inr, is_some, none, refl, select, some,
  subst, sym, true, ℕ, ◌==◌, ◌∙◌, ◌≡◌,
}
use agamin_crm.Prelude.Action.{Outcome, returned, raised, Preserves, >>-Preserves, >>-leads, modify}
use agamin_crm.Crm.Records.{Text}
use agamin_crm.Crm.Deals.{
  Stage, ClosingReason, Deal, DealForm, DealSaving, change_deal, change_stage_data, the_stage,
  is_default, is_success, with_the_stage, set_default_stage, leave_default, set_second_default,
  sign, enter_step, change_step, win, close_by, change_closing_reason, change_stage, change_active,
  change_relevant, change_owner, mark_seen, set_deal_owner, set_lead_owner, save_deal, first_blocks,
  last_blocks, save_model,
}

abbrev pub HasDate : Deal → Type 0
HasDate d = d.active ≡ false → is_some d.closing_date ≡ true

abbrev pub RowHasDate : Option Deal → Type 0
RowHasDate none = Unit
RowHasDate (some d) = HasDate d

-- The object that the form made of the row: the closing date cannot be edited, and a new deal is
-- active unless the form changed that.
abbrev pub Follows : Option Deal → Deal → Type 0
Follows none d = d.active ≡ true
Follows (some r) d = (d.active ≡ r.active) × (d.closing_date ≡ r.closing_date)

-- Whether the deal is active and when it was closed.
abbrev SameEnd : Deal → Deal → Type 0
SameEnd d e = (e.active ≡ d.active) × (e.closing_date ≡ d.closing_date)

keep_date : (d e : Deal) → SameEnd d e → HasDate d → HasDate e
keep_date d e s h off = ap is_some s.1 ∙ h (sym s.0 ∙ off)

from_row : (o : Option Deal) (d : Deal) → RowHasDate o → Follows o d → HasDate d
from_row none d h s = λ off. absurd (ground (arith, s, off))
from_row (some r) d h s = keep_date r d s h

module _ (P : DealSaving → Type 0) where
  modify-keeps :
      (g : DealSaving → DealSaving) → ((w : DealSaving) → P w → P (g w)) → Preserves P (modify g)
  modify-keeps g keep = record { at = keep }

  found-keeps :
      (g : Stage → Deal → Deal) (w : DealSaving)
      → ((s : Stage) → P (change_deal (g s) w))
      → P w
      → (o : Outcome Stage)
      → P
          (elim o as (λ _. Outcome (Unit {0}) × DealSaving) [
            | returned s ↦ (returned tt, change_deal (g s) w)
            | raised e ↦ (raised e, w)
          ]).1
  found-keeps g w keep h (returned s) = keep s
  found-keeps g w keep h (raised e) = h

  with_the_stage-keeps :
      (stages : List Stage) (p : Deal → Stage → Bool) (g : Stage → Deal → Deal) (w : DealSaving)
      → ((s : Stage) → P (change_deal (g s) w))
      → P w
      → P (with_the_stage stages p g w).1
  unfolding with_the_stage
  with_the_stage-keeps stages p g w keep h =
      found-keeps g w keep h (the_stage (select (p w.obj) stages))

  -- Where a property of the state rests on the row and the end of the deal alone.
  module _ (stages : List Stage)
      (near : (g : Deal → Deal) (w : DealSaving)
        → SameEnd w.obj (g w.obj)
        → P w
        → P (change_deal g w)) where
    default-keeps :
        (w : DealSaving) (o : Option Stage)
        → P w
        → P
            (elim o as (λ _. Outcome (Unit {0}) × DealSaving) [
              | none ↦ with_the_stage stages is_default (λ s d. record d { stage = some s }) w
              | some s ↦ (returned tt, w)
            ]).1
    default-keeps w none h =
        with_the_stage-keeps stages is_default (λ s d. record d { stage = some s }) w
          (λ s. near (λ d. record d { stage = some s }) w (refl, refl) h) h
    default-keeps w (some s) h = h

    set_default_stage-keeps : Preserves P (set_default_stage stages)
    unfolding set_default_stage
    set_default_stage-keeps = record { at = λ w h. default-keeps w w.obj.stage h }

    second-same :
        (d : Deal) (o : Option Stage)
        → SameEnd d (elim o as (λ _. Deal) [ none ↦ d | some t ↦ record d { stage = some t } ])
    second-same d none = (refl, refl)
    second-same d (some t) = (refl, refl)

    leave_default-same : (s t : Stage) (d : Deal) → SameEnd d (leave_default stages s t d)
    unfolding leave_default
    leave_default-same s t d = elim (Bool-cases (s.id == t.id)) [
      | inl e ↦ rw e (second-same d _)
      | inr e ↦ rw e (refl, refl)
    ]

    second-keeps :
        (w : DealSaving) (o : Option Stage)
        → P w
        → P
            (elim o as (λ _. Outcome (Unit {0}) × DealSaving) [
              | none ↦ (returned tt, w)
              | some s ↦ with_the_stage stages is_default (leave_default stages s) w
            ]).1
    second-keeps w none h = h
    second-keeps w (some s) h =
        with_the_stage-keeps stages is_default (leave_default stages s) w
          (λ t. near (leave_default stages s t) w (leave_default-same s t w.obj) h) h

    set_second_default-keeps : (f : DealForm) → Preserves P (set_second_default stages f)
    unfolding set_second_default
    set_second_default-keeps f = record {
      at = λ w h. elim (Bool-cases f.change) [
        | inl e ↦ simp e (second-keeps w w.obj.stage h)
        | inr e ↦ simp e h
      ];
    }

module _ (truncatechars : ℕ → Text → Text) (f_date : Text) (f : DealForm) (d : Deal) where
  change_step-same : SameEnd d (change_step truncatechars f f_date d)
  unfolding change_step sign enter_step
  change_step-same = ground arith

  mark_seen-same : SameEnd d (mark_seen f d)
  unfolding mark_seen
  mark_seen-same = ground arith

  change_stage-same :
      (stages : List Stage) (now today : ℕ) → SameEnd d (change_stage stages now today f_date f d)
  unfolding change_stage change_stage_data
  change_stage-same stages now today = ground arith

  -- The blocks on `active` and `relevant` set the date where it is missing.
  ends_dated :
      (today : ℕ)
      → (f.changed_active ≡ false → HasDate d)
      → HasDate (change_relevant today f (change_active today f d))
  unfolding change_relevant change_active
  ends_dated today h = elim (Bool-cases f.changed_active) [
    | inl e ↦ simp e (ground arith)
    | inr e ↦ let k = h e in simp e (ground (arith, k))
  ]

-- What holds while the blocks run, and what holds behind those on `active` and `relevant`.
abbrev Running : DealForm → DealSaving → Type 0
Running f w = RowHasDate w.row × (f.changed_active ≡ false → HasDate w.obj)

abbrev Settled : DealSaving → Type 0
Settled w = RowHasDate w.row × HasDate w.obj

Running-near :
    (f : DealForm) (g : Deal → Deal) (w : DealSaving)
    → SameEnd w.obj (g w.obj)
    → Running f w
    → Running f (change_deal g w)
unfolding change_deal
Running-near f g w s h = (h.0, λ e. keep_date w.obj (g w.obj) s (h.1 e))

Settled-near :
    (g : Deal → Deal) (w : DealSaving)
    → SameEnd w.obj (g w.obj)
    → Settled w
    → Settled (change_deal g w)
unfolding change_deal
Settled-near g w s h = (h.0, keep_date w.obj (g w.obj) s h.1)

owner-keeps :
    (w : DealSaving) (o : Option ℕ)
    → Settled w
    → Settled (elim o as (λ _. DealSaving) [
      | none ↦ w
      | some k ↦ record w { leads = set_lead_owner k w.obj.owner w.leads }
    ])
owner-keeps w none h = h
owner-keeps w (some k) h = h

Settled-owner : (f : DealForm) (w : DealSaving) → Settled w → Settled (change_owner f w)
unfolding change_owner
Settled-owner f w h = elim (Bool-cases f.changed_owner) [
  | inl e ↦ simp e (owner-keeps w w.obj.lead h)
  | inr e ↦ simp e h
]

module _ (stages : List Stage) (departments : ℕ → List ℕ) (truncatechars : ℕ → Text → Text)
    (now today : ℕ) (f_date : Text) (f : DealForm) where
  close_by-keeps :
      (o : Option ClosingReason) (w : DealSaving)
      → Running f w
      → Running f (close_by stages now today f_date f o w).1
  unfolding close_by change_deal
  close_by-keeps none w h = (h.0, λ e off. absurd (ground (arith, off)))
  close_by-keeps (some r) w h =
      let closed = change_deal (λ d. record d { active = false; closing_date = some today }) w in
      let dated : Running f closed = (h.0, λ e off. refl) in
      elim (Bool-cases r.success_reason) [
        | inl e ↦ simp e (
            with_the_stage-keeps (Running f) stages is_success (win stages now today f_date f)
              closed
              (λ s.
                Running-near f (win stages now today f_date f s) closed
                  (unfold win change_stage_data in (refl, refl)) dated)
              dated)
        | inr e ↦ simp e dated
      ]

  change_closing_reason-keeps :
      Preserves (Running f) (change_closing_reason stages now today f_date f)
  unfolding change_closing_reason
  change_closing_reason-keeps = record {
    at = λ w h. elim (Bool-cases f.changed_closing_reason) [
      | inl e ↦ simp e (close_by-keeps w.obj.closing_reason w h)
      | inr e ↦ simp e h
    ];
  }

  first_blocks-keeps :
      Preserves (Running f) (first_blocks stages departments truncatechars now today f_date f)
  unfolding first_blocks
  first_blocks-keeps =
      >>-Preserves _ _ (set_default_stage-keeps (Running f) stages (Running-near f)) (
        >>-Preserves _ _
          (modify-keeps (Running f) (change_deal (change_step truncatechars f f_date)) (λ w.
            Running-near f (change_step truncatechars f f_date) w
              (change_step-same truncatechars f_date f w.obj)))
          (>>-Preserves _ _ change_closing_reason-keeps (
            modify-keeps (Running f) (change_deal (change_stage stages now today f_date f)) (λ w.
              Running-near f (change_stage stages now today f_date f) w
                (change_stage-same truncatechars f_date f w.obj stages now today)))))

  signed-same : (d : Deal) → SameEnd d (set_deal_owner f departments (mark_seen f d))
  unfolding set_deal_owner
  signed-same d = mark_seen-same truncatechars f_date f d

  last_blocks-dates :
      (w : DealSaving)
      → Running f w
      → RowHasDate (last_blocks stages departments truncatechars now today f_date f w).1.row
  unfolding last_blocks save_deal
  last_blocks-dates w h =
      ((>>-Preserves _ _ (modify-keeps Settled (change_owner f) (Settled-owner f)) (
          >>-Preserves _ _ (set_second_default-keeps Settled stages Settled-near f) (
            >>-Preserves _ _
              (modify-keeps Settled
                (change_deal (λ d. set_deal_owner f departments (mark_seen f d)))
                (λ v.
                  Settled-near (λ d. set_deal_owner f departments (mark_seen f d)) v
                    (signed-same v.obj)))
              (modify-keeps Settled save_deal (λ v k. (k.1, k.1)))))).at
        (change_deal (λ d. change_relevant today f (change_active today f d)) w)
        (unfold change_deal in (h.0, ends_dated truncatechars f_date f w.obj today h.1))).0

  -- One save of the form keeps the row dated, also where it raises.
  pub save_model-dates :
      (w : DealSaving)
      → RowHasDate w.row
      → (f.changed_active ≡ false → Follows w.row w.obj)
      → RowHasDate (save_model stages departments truncatechars now today f_date f w).1.row
  unfolding save_model
  save_model-dates w h follows =
      >>-leads (Running f) (λ v. RowHasDate v.row)
        (first_blocks stages departments truncatechars now today f_date f)
        (last_blocks stages departments truncatechars now today f_date f) first_blocks-keeps
        (λ v k. k.0) last_blocks-dates w (h, λ e. from_row w.row w.obj h (follows e))

module _ (stages : List Stage) (departments : ℕ → List ℕ) (truncatechars : ℕ → Text → Text) where
  -- The row of a deal before and after its form is saved.
  pub data Edit (r s : Option Deal) : Type 0 where
    saved :
        (now today : ℕ) (f_date : Text) (f : DealForm) (w : DealSaving)
        → w.row ≡ r
        → (f.changed_active ≡ false → Follows w.row w.obj)
        → s ≡ (save_model stages departments truncatechars now today f_date f w).1.row
        → Edit r s

  pub data Edits (r : Option Deal) : Option Deal → Type 0 where
    here : Edits r r
    next : {s t : Option Deal} → Edits r s → Edit s t → Edits r t

  Edit-RowHasDate : (r s : Option Deal) → Edit r s → RowHasDate r → RowHasDate s
  Edit-RowHasDate r s (saved now today f_date f w e follows k) h = subst RowHasDate (sym k) (
      save_model-dates stages departments truncatechars now today f_date f w
        (subst RowHasDate (sym e) h) follows)

  -- However often the form of a deal is saved, and also where `save_model` raises, a deal that is
  -- not active has a closing date, if this is so at the start.
  pub Edits-RowHasDate : (r s : Option Deal) → Edits r s → RowHasDate r → RowHasDate s
  Edits-RowHasDate r _ here h = h
  Edits-RowHasDate r t (next {s} e step) h = Edit-RowHasDate s t step (Edits-RowHasDate r s e h)
