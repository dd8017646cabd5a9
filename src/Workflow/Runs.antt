-- ===== src/Workflow/Runs.antt =====
-- What the table of transitions promises over whole lives of a request: sequences of triggers
-- that are all allowed, one after another.
use whatsapp_automatic_plann.Prelude.{
  ℕ, ◌+◌, ◌≡◌, refl, ◌≢◌, inl, inr, Bool, true, false, List, [], ◌∷◌, arith, if◌then◌else◌,
}
use whatsapp_automatic_plann.Workflow.Enums.{
  RequestState, received, aggregating, processing_media, classifying, awaiting_classification,
  generating, rendering, awaiting_approval, completed, discarded, failed, Trigger,
  start_aggregation, window_closed, media_processed, classified_actionable, owner_confirmed,
  generated, rendered, owner_approved, owner_requested_revision, fail,
}
use whatsapp_automatic_plann.Workflow.StateMachine.{is_terminal, next_state}
use whatsapp_automatic_plann.Errors.{Result, ok, err, illegal_transition, and_then, Result-cases}

-- The triggers one after another; the first that is refused ends the run.
abbrev pub run : RequestState → List Trigger → Result RequestState
run s [] = ok s
run s (t ∷ ts) = and_then (next_state s t) (λ s'. run s' ts)

-- A terminal state refuses every trigger, and any other state accepts at least the failure.
pub next_state-is_terminal :
    (s : RequestState) (t : Trigger)
    → (is_terminal s ≡ true → next_state s t ≡ err (illegal_transition s t))
      × (is_terminal s ≡ false → next_state s fail ≡ ok failed)
unfolding next_state
next_state-is_terminal s t = ground arith

-- How often a trigger of a kind occurs.
abbrev pub occurs : (Trigger → Bool) → List Trigger → ℕ
occurs p [] = 0
occurs p (t ∷ ts) = (if p t then 1 else 0) + occurs p ts

abbrev pub is_confirm : Trigger → Bool
is_confirm owner_confirmed = true
is_confirm _ = false

abbrev pub is_approve : Trigger → Bool
is_approve owner_approved = true
is_approve _ = false

abbrev pub is_revise : Trigger → Bool
is_revise owner_requested_revision = true
is_revise _ = false

abbrev pub is_generated : Trigger → Bool
is_generated generated = true
is_generated _ = false

abbrev pub is_rendered : Trigger → Bool
is_rendered rendered = true
is_rendered _ = false

-- What a request that is to be completed has before it: the first gate, the second gate, and a
-- document that is being generated, or generated and not yet rendered.
abbrev unconfirmed : RequestState → ℕ
unconfirmed received = 1
unconfirmed aggregating = 1
unconfirmed processing_media = 1
unconfirmed classifying = 1
unconfirmed awaiting_classification = 1
unconfirmed _ = 0

abbrev unapproved : RequestState → ℕ
unapproved completed = 0
unapproved _ = 1

abbrev ungenerated : RequestState → ℕ
ungenerated generating = 1
ungenerated _ = 0

abbrev unrendered : RequestState → ℕ
unrendered generating = 1
unrendered rendering = 1
unrendered _ = 0

-- The work that lies between a state and completion, for a sequence of triggers.
record Owes (s : RequestState) (ts : List Trigger) : Type 0 where
  confirms : occurs is_confirm ts ≡ unconfirmed s
  approves : occurs is_approve ts ≡ unapproved s
  generates : occurs is_generated ts ≡ unconfirmed s + occurs is_revise ts + ungenerated s
  renders : occurs is_rendered ts ≡ unconfirmed s + occurs is_revise ts + unrendered s

step-Owes :
    (s : RequestState) (t : Trigger) (ts : List Trigger) {s' : RequestState}
    → next_state s t ≡ ok s'
    → s' ≢ discarded
    → s' ≢ failed
    → Owes s' ts
    → Owes s (t ∷ ts)
unfolding next_state
step-Owes s t ts h d f o = ground arith

-- A terminal state is the end of every run through it.
pub run-is_terminal :
    (s s' : RequestState) (ts : List Trigger) → is_terminal s ≡ true → run s ts ≡ ok s' → s' ≡ s
run-is_terminal s s' [] h e = ground arith
run-is_terminal s s' (t ∷ ts) h e = ground (arith, next_state-is_terminal s t)

discarded_dead : (ts : List Trigger) → ¬ (run discarded ts ≡ ok completed)
unfolding is_terminal
discarded_dead ts h = cc (run-is_terminal discarded completed ts refl h)

failed_dead : (ts : List Trigger) → ¬ (run failed ts ≡ ok completed)
unfolding is_terminal
failed_dead ts h = cc (run-is_terminal failed completed ts refl h)

run-Owes : (s : RequestState) (ts : List Trigger) → run s ts ≡ ok completed → Owes s ts
run-Owes s [] h = ground arith
run-Owes s (t ∷ ts) h = elim (Result-cases (next_state s t)) [
  | inl (s', e) ↦
      let r : run s' ts ≡ ok completed = ground arith in
      step-Owes s t ts e (λ d. discarded_dead ts (ground arith))
        (λ f. failed_dead ts (ground arith)) (run-Owes s' ts r)
  | inr (x, e) ↦ absurd (ground arith)
]

-- A request that ends completed was confirmed by the owner exactly once and approved exactly
-- once, and a document was generated and rendered once for the confirmation and once for each
-- revision that the owner asked for.
pub run_completed :
    (ts : List Trigger)
    → run received ts ≡ ok completed
    → (occurs is_confirm ts ≡ 1)
      × (occurs is_approve ts ≡ 1)
      × (occurs is_generated ts ≡ 1 + occurs is_revise ts)
      × (occurs is_rendered ts ≡ 1 + occurs is_revise ts)
run_completed ts h = let o = run-Owes received ts h in ground arith

abbrev last_gate : List Trigger
last_gate = generated ∷ rendered ∷ owner_approved ∷ []

abbrev both_gates : List Trigger
both_gates = owner_confirmed ∷ last_gate

-- From every state that is not terminal there are triggers that bring the request to completion.
pub completion_possible :
    (s : RequestState) → is_terminal s ≡ false → (ts : List Trigger) × (run s ts ≡ ok completed)
unfolding next_state
completion_possible received h =
    (start_aggregation ∷ window_closed ∷ media_processed ∷ classified_actionable ∷ both_gates, refl)
completion_possible aggregating h =
    (window_closed ∷ media_processed ∷ classified_actionable ∷ both_gates, refl)
completion_possible processing_media h =
    (media_processed ∷ classified_actionable ∷ both_gates, refl)
completion_possible classifying h = (classified_actionable ∷ both_gates, refl)
completion_possible awaiting_classification h = (both_gates, refl)
completion_possible generating h = (last_gate, refl)
completion_possible rendering h = (rendered ∷ owner_approved ∷ [], refl)
completion_possible awaiting_approval h = (owner_approved ∷ [], refl)
completion_possible completed h = absurd (ground arith)
completion_possible discarded h = absurd (ground arith)
completion_possible failed h = absurd (ground arith)
