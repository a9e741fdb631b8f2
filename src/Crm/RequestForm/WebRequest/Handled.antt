-- ===== src/Crm/RequestForm/WebRequest/Handled.antt =====
-- What `create_form_request` leaves.
use agamin_crm.Prelude.{
  All, Bool-cases, List, Option, [], false, inl, inr, refl, true, ℕ, ◌++◌, ◌∷◌, ◌≡◌, ◌⊎◌,
}
use agamin_crm.Prelude.Action.{Outcome, returned, raised, Leaves}
use agamin_crm.Crm.Records.{Text, Db}
use agamin_crm.Crm.Request.Search.Result.{In}
use agamin_crm.Crm.RequestForm.{City, RequestSaving}
use agamin_crm.Crm.RequestForm.WebRequest.{
  WebForm, LeadSource, StopPhrase, WebEmail, Inbox, occurs, is_text_relevant, form_text,
  get_to_email, web_letter, keep_letter, receive, create_form_request, enter_request,
}
use agamin_crm.Crm.RequestForm.WebRequest.Entered.{IsEntered, enter_request-IsEntered}

-- No stop phrase is in the text, or one is.
abbrev pub IsRelevant : Text → List StopPhrase → Type 0
IsRelevant txt = All (λ p. occurs p.phrase txt ≡ false)

abbrev pub IsStopped : Text → List StopPhrase → Type 0
IsStopped txt ps = (p : StopPhrase) × In p ps × (occurs p.phrase txt ≡ true)

-- The request is stored, and a last letter with it and its owner.
pub record IsReceived (ticket : Text) (i j : Inbox) : Type 0 where
  pub request : IsEntered j.saving
  pub letter : WebEmail
  pub added : j.stored_emails ≡ i.stored_emails ++ (letter ∷ [])
  pub of_request : letter.request ≡ j.saving.id
  pub of_owner : letter.owner ≡ j.saving.obj.owner
  pub of_ticket : letter.ticket ≡ ticket

-- Nothing is stored.
abbrev pub Untouched : Inbox → Inbox → Type 0
Untouched i j = (j.saving.row ≡ i.saving.row) × (j.stored_emails ≡ i.stored_emails)

-- What a text leads to.
abbrev pub Handled : Text → WebForm → Inbox → Outcome (Unit {0}) × Inbox → Type 0
Handled ticket form i (returned u, j) =
    (IsRelevant (form_text form) i.phrases × IsReceived ticket i j)
    ⊎ (IsStopped (form_text form) i.phrases × Untouched i j)
Handled ticket form i (raised e, j) = IsRelevant (form_text form) i.phrases × Untouched i j

relevance :
    (today : ℕ) (txt : Text) (ps : List StopPhrase)
    → (((is_text_relevant today txt ps).0 ≡ true) × IsRelevant txt ps)
      ⊎ (((is_text_relevant today txt ps).0 ≡ false) × IsStopped txt ps)
unfolding is_text_relevant
relevance today txt [] = inl (refl, tt)
relevance today txt (p ∷ ps) = elim (Bool-cases (occurs p.phrase txt)) [
  | inl hit ↦ rw hit (inr (refl, (p, inl refl, hit)))
  | inr miss ↦ elim (relevance today txt ps) [
    | inl (b, all) ↦ rw (miss, b) (inl (refl, (refl, all)))
    | inr (b, (q, there, found)) ↦ rw (miss, b) (inr (refl, (q, inr there, found)))
  ]
]

module _ (db : Db) (truncatechars : ℕ → Text → Text) (find_country : Text → Outcome ℕ)
    (find_cities : Text → ℕ → List City → Outcome (List City)) (operator : Option Text)
    (new_id today : ℕ) (ticket : Text) (form : WebForm) (source : LeadSource) (i : Inbox) where
  kept :
      (to : Text) (o : Outcome (Unit {0})) (w : RequestSaving) (ps : List StopPhrase)
      → IsRelevant (form_text form) i.phrases
      → Leaves IsEntered (λ v. v.row ≡ i.saving.row) (o, w)
      → Handled ticket form i (
          keep_letter db truncatechars find_country find_cities operator new_id today ticket form
            source to o w
            (record i { phrases = ps }))
  unfolding keep_letter web_letter
  kept to (returned u) w ps all h = inl (
    all,
    record {
      request = h;
      letter = web_letter form source ticket to w;
      added = refl;
      of_request = refl;
      of_owner = refl;
      of_ticket = refl;
    },
  )
  kept to (raised e) w ps all h = (all, (h, refl))

  received :
      (o : Outcome Text) (ps : List StopPhrase)
      → IsRelevant (form_text form) i.phrases
      → Handled ticket form i (
          receive db truncatechars find_country find_cities operator new_id today ticket form source
            o
            (record i { phrases = ps }))
  unfolding receive
  received (raised e) ps all = (all, (refl, refl))
  received (returned to) ps all =
      let (o, w) =
        enter_request db truncatechars find_country find_cities new_id today ticket form source
          i.saving in
      kept to o w ps all (
        enter_request-IsEntered db truncatechars find_country find_cities new_id today ticket form
          source i.saving)

  -- If a stop phrase is in the text, `create_form_request` returns and stores neither a request nor a
  -- letter. Otherwise it raises and stores neither, or it returns: the row is then the request, which
  -- `clean` accepts, and the last letter has the request, its owner and the ticket.
  pub create_form_request-Handled : Handled ticket form i (
      create_form_request db truncatechars find_country find_cities operator new_id today ticket
        form source i)
  unfolding create_form_request
  create_form_request-Handled = elim (relevance today (form_text form) i.phrases) [
    | inl (b, all) ↦ rw b (received (get_to_email operator source) _ all)
    | inr (b, stopped) ↦ rw b (inr (stopped, (refl, refl)))
  ]
