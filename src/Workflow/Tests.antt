-- ===== src/Workflow/Tests.antt =====
-- Runs of the state machine.
use whatsapp_automatic_plann.Prelude.{◌≡◌, refl, true, false, [], ◌∷◌, ◌+◌, List}
use whatsapp_automatic_plann.Workflow.Enums.{
  completed, failed, awaiting_approval, Trigger, start_aggregation, window_closed, media_processed,
  classified_actionable, owner_corrected, owner_confirmed, generated, rendered, owner_approved,
  owner_requested_revision, fail,
}
use whatsapp_automatic_plann.Workflow.StateMachine.{is_terminal, next_state}
use whatsapp_automatic_plann.Workflow.Runs.{
  run, occurs, is_confirm, is_approve, is_generated, is_rendered, is_revise, run_completed,
  completion_possible, next_state-is_terminal,
}
use whatsapp_automatic_plann.Errors.{ok, err, illegal_transition}

-- A request that is corrected once and revised once.
abbrev whole_life : List Trigger
whole_life =
    start_aggregation ∷ window_closed ∷ media_processed ∷ classified_actionable ∷ owner_corrected
    ∷ owner_confirmed ∷ generated ∷ rendered ∷ owner_requested_revision ∷ generated ∷ rendered
    ∷ owner_approved ∷ []

run_completed_example :
    (occurs is_confirm whole_life ≡ 1)
    × (occurs is_approve whole_life ≡ 1)
    × (occurs is_generated whole_life ≡ 1 + occurs is_revise whole_life)
    × (occurs is_rendered whole_life ≡ 1 + occurs is_revise whole_life)
unfolding next_state
run_completed_example = run_completed whole_life refl

completion_reached : (ts : List Trigger) × (run awaiting_approval ts ≡ ok completed)
unfolding is_terminal
completion_reached = completion_possible awaiting_approval refl

next_state-is_terminal_example :
    (is_terminal completed ≡ true
      → next_state completed owner_approved ≡ err (illegal_transition completed owner_approved))
    × (is_terminal completed ≡ false → next_state completed fail ≡ ok failed)
next_state-is_terminal_example = next_state-is_terminal completed owner_approved
