-- ===== src/Workflow/StateMachine.antt =====
-- src/wapp_planner/workflow/state_machine.py and triggers.py
use whatsapp_automatic_plann.Prelude.{Bool, true, false, Option, none, some, if◌then◌else◌}
use whatsapp_automatic_plann.Workflow.Enums.{
  RequestState, received, aggregating, processing_media, classifying, awaiting_classification,
  generating, rendering, awaiting_approval, completed, discarded, failed, Trigger,
  start_aggregation, window_closed, media_processed, classified_actionable, classified_none,
  owner_confirmed, owner_corrected, owner_rejected, generated, rendered, owner_approved,
  owner_requested_revision, fail,
}
use whatsapp_automatic_plann.Domain.Enums.{OwnerDecision, confirm, correct, reject, approve, revise}
use whatsapp_automatic_plann.Errors.{Result, illegal_transition, or_raise}

-- `state in TERMINAL_STATES`
unfoldable pub is_terminal : RequestState → Bool
is_terminal completed = true
is_terminal discarded = true
is_terminal failed = true
is_terminal _ = false

-- `TRANSITIONS`, the edges listed in `_EDGES` and the `FAIL` edges that are added to them.
unfoldable pub transitions : RequestState → Trigger → Option RequestState
unfolding is_terminal
transitions received start_aggregation = some aggregating
transitions aggregating window_closed = some processing_media
transitions processing_media media_processed = some classifying
transitions classifying classified_actionable = some awaiting_classification
transitions classifying classified_none = some discarded
transitions awaiting_classification owner_confirmed = some generating
transitions awaiting_classification owner_corrected = some awaiting_classification
transitions awaiting_classification owner_rejected = some discarded
transitions generating generated = some rendering
transitions rendering rendered = some awaiting_approval
transitions awaiting_approval owner_approved = some completed
transitions awaiting_approval owner_requested_revision = some generating
transitions state fail = if is_terminal state then none else some failed
transitions _ _ = none

unfoldable pub next_state : RequestState → Trigger → Result RequestState
unfolding transitions
next_state state trigger = or_raise (transitions state trigger) (illegal_transition state trigger)

unfoldable pub trigger_for : OwnerDecision → Trigger
trigger_for confirm = owner_confirmed
trigger_for correct = owner_corrected
trigger_for reject = owner_rejected
trigger_for approve = owner_approved
trigger_for revise = owner_requested_revision
