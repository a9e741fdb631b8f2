-- ===== src/Tasks/Memos/Lifecycle.antt =====
-- The life of a memo: the saves of its form and the tasks and projects that are created from it.
use agamin_crm.Prelude.{
  Bool, Bool-cases, List, String, ap, arith, false, if◌then◌else◌, inl, inr, is_some, refl, some,
  sym, true, ℕ, ◌++◌, ◌∙◌, ◌∷◌, ◌≡◌,
}
use agamin_crm.Tasks.Memos.{
  reviewed, is_reviewed, Memo, Office, send_review_notification, MemoForm, Created, task_created,
  save_model, save_related, take_up_memo, review_notice, deal_notice, addressee_notice,
  subscriber_notice, set_created, email_to,
}

-- A memo that is reviewed has the date of the review.
unfoldable pub IsDated : Memo → Type 0
IsDated m = is_reviewed m.stage ≡ true → is_some m.review_date ≡ true

-- What a form leaves alone: it has no field for the date of the review nor for the notified users,
-- and it keeps the stage unless it says that it changed it.
pub record Fits (r : MemoForm) (m n : Memo) : Type 0 where
  pub review_date : n.review_date ≡ m.review_date
  pub notified : n.notified ≡ m.notified
  pub stage : r.stage_changed ≡ false → n.stage ≡ m.stage

module _ (today : ℕ) (has_email : ℕ → Bool) (f_date : String) where
  -- `n` is the memo with the values of the form.
  pub saved : MemoForm → Memo → Office → Office
  unfolding save_model save_related
  saved r n o = save_related has_email f_date r (record o { memo = save_model today r n })

  pub data MemoStep : Office → Office → Type 0 where
    by_form : (r : MemoForm) (n : Memo) (o : Office) → Fits r o.memo n → MemoStep o (saved r n o)
    by_creation :
        (created : Created) (note : List String) (o : Office)
        → MemoStep o (take_up_memo today f_date created note o)

  pub data Reach : Office → Office → Type 0 where
    here : (o : Office) → Reach o o
    next : (o p q : Office) → MemoStep o p → Reach p q → Reach o q

pub save_model-IsDated :
    (today : ℕ) (r : MemoForm) (m n : Memo)
    → Fits r m n
    → IsDated m
    → IsDated (save_model today r n)
unfolding save_model IsDated is_reviewed
save_model-IsDated today r m n fits h = elim (Bool-cases (r.stage_changed)) [
  | inl e ↦ ground arith
  | inr e ↦ rw e (λ d. ap is_some fits.review_date ∙ h (ap is_reviewed (sym (fits.stage e)) ∙ d))
]

-- The same stage, date of review and task.
abbrev Same : Office → Office → Type 0
Same p o =
    (p.memo.stage ≡ o.memo.stage)
    × (p.memo.review_date ≡ o.memo.review_date)
    × (p.memo.task ≡ o.memo.task)

if_Same : (b : Bool) (p o : Office) → Same p o → Same (if b then p else o) o
if_Same true p o h = h
if_Same false p o h = (refl, refl, refl)

Same-trans : (p q o : Office) → Same p q → Same q o → Same p o
Same-trans p q o h k = (h.0 ∙ k.0, h.1 ∙ k.1, h.2 ∙ k.2)

review_notice-Same : (r : MemoForm) (o : Office) → Same (review_notice r o) o
unfolding review_notice send_review_notification
review_notice-Same r o = if_Same _ _ o (refl, refl, refl)

deal_notice-Same : (f_date : String) (r : MemoForm) (o : Office) → Same (deal_notice f_date r o) o
unfolding deal_notice
deal_notice-Same f_date r o = if_Same _ _ o (refl, refl, refl)

addressee_notice-Same : (r : MemoForm) (o : Office) → Same (addressee_notice r o) o
unfolding addressee_notice
addressee_notice-Same r o = if_Same _ _ o (refl, refl, refl)

module _ (has_email : ℕ → Bool) where
  subscriber_notice-Same : (r : MemoForm) (o : Office) → Same (subscriber_notice has_email r o) o
  unfolding subscriber_notice
  subscriber_notice-Same r o = if_Same _ _ o (refl, refl, refl)

  pub save_related-Same :
      (f_date : String) (r : MemoForm) (o : Office) → Same (save_related has_email f_date r o) o
  unfolding save_related
  save_related-Same f_date r o =
      let a = review_notice r o in
      let b = deal_notice f_date r a in
      let c = addressee_notice r b in
      let d = subscriber_notice has_email r c in
      Same-trans d c o (subscriber_notice-Same r c) (
        Same-trans c b o (addressee_notice-Same r b)
          (Same-trans b a o (deal_notice-Same f_date r a) (review_notice-Same r o)))

IsDated-Same : (p o : Office) → Same p o → IsDated o.memo → IsDated p.memo
unfolding IsDated
IsDated-Same p o h d e = ap is_some h.1 ∙ d (ap is_reviewed (sym h.0) ∙ e)

take_up_memo-IsDated :
    (today : ℕ) (f_date : String) (created : Created) (note : List String) (o : Office)
    → IsDated o.memo
    → IsDated (take_up_memo today f_date created note o).memo
unfolding take_up_memo IsDated send_review_notification
take_up_memo-IsDated today f_date created note o h = elim (Bool-cases (is_reviewed o.memo.stage)) [
  | inl e ↦ rw e (λ d. h d)
  | inr e ↦ rw e (λ d. refl)
]

-- What is created from a memo that is not reviewed is entered in it.
take_up_memo_lem :
    (today : ℕ) (f_date : String) (k : ℕ) (note : List String) (p : Office)
    → is_reviewed p.memo.stage ≡ false
    → let q = take_up_memo today f_date (task_created k) note p in
      (q.memo.stage ≡ reviewed)
      × (q.memo.task ≡ some k)
      × (q.memo.review_date ≡ some today)
      × (q.sent ≡ p.sent ++ email_to (p.memo.owner ∷ p.memo.subscribers))
unfolding take_up_memo send_review_notification set_created
take_up_memo_lem today f_date k note p e = rw e (refl, refl, refl, refl)

create_task_postpones :
    (today : ℕ) (r : MemoForm) (n : Memo)
    → r.create_task ≡ true
    → (is_reviewed n.stage ≡ true → r.stage_changed ≡ true)
    → is_reviewed (save_model today r n).stage ≡ false
unfolding save_model
create_task_postpones today r n pressed fresh = elim (Bool-cases (is_reviewed n.stage)) [
  | inl e ↦ rw (e, fresh e, pressed) refl
  | inr e ↦ ground (arith, e)
]

module _ (today : ℕ) (has_email : ℕ → Bool) (f_date : String) where
  MemoStep-IsDated :
      {o p : Office} → MemoStep today has_email f_date o p → IsDated o.memo → IsDated p.memo
  unfolding saved
  MemoStep-IsDated (by_form r n o fits) h =
      let m = save_model today r n in
      IsDated-Same (save_related has_email f_date r (record o { memo = m })) (record o { memo = m })
        (save_related-Same has_email f_date r (record o { memo = m }))
        (save_model-IsDated today r o.memo n fits h)
  MemoStep-IsDated (by_creation created note o) h =
      take_up_memo-IsDated today f_date created note o h

  -- Whatever forms are saved and whatever is created from a memo, a memo that is reviewed has the
  -- date of its review, if that holds at the start.
  pub Reach-IsDated :
      {o p : Office} → Reach today has_email f_date o p → IsDated o.memo → IsDated p.memo
  Reach-IsDated (here o) h = h
  Reach-IsDated (next o p q step more) h = Reach-IsDated more (MemoStep-IsDated step h)

  -- A memo that is not reviewed yet, or becomes so by the very form, and whose form is sent by the
  -- button for a task: the save notifies nobody of a review, and the task that is then created
  -- is entered in the memo, which is now reviewed, dated today, and made known to the owner
  -- and all subscribers.
  pub create_task_reviews :
      (r : MemoForm) (n : Memo) (o : Office) (k : ℕ) (note : List String)
      → r.create_task ≡ true
      → (is_reviewed n.stage ≡ true → r.stage_changed ≡ true)
      → let p = saved today has_email f_date r n o in
        let q = take_up_memo today f_date (task_created k) note p in
        (is_reviewed p.memo.stage ≡ false)
        × (q.memo.stage ≡ reviewed)
        × (q.memo.task ≡ some k)
        × (q.memo.review_date ≡ some today)
        × (q.sent ≡ p.sent ++ email_to (p.memo.owner ∷ p.memo.subscribers))
  unfolding saved
  create_task_reviews r n o k note pressed fresh =
      let p = saved today has_email f_date r n o in
      let same = save_related-Same has_email f_date r (record o { memo = save_model today r n }) in
      let e = ap is_reviewed same.0 ∙ create_task_postpones today r n pressed fresh in
      let t = take_up_memo_lem today f_date k note p e in (e, t.0, t.1, t.2, t.3)
