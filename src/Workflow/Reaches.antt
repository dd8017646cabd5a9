-- ===== src/Workflow/Reaches.antt =====
-- One state can come after another in the life of a request.
use whatsapp_automatic_plann.Prelude.{◌≡◌, refl, true, arith}
use whatsapp_automatic_plann.Workflow.Enums.{RequestState, Trigger}
use whatsapp_automatic_plann.Workflow.StateMachine.{is_terminal, next_state}
use whatsapp_automatic_plann.Workflow.Runs.{next_state-is_terminal}
use whatsapp_automatic_plann.Errors.{ok}

pub data Reaches (s : RequestState) : RequestState → Type 0 where
  here : Reaches s s
  move : {t u : RequestState} (by : Trigger) → Reaches s t → next_state t by ≡ ok u → Reaches s u

pub Reaches-trans : {s t u : RequestState} → Reaches s t → Reaches t u → Reaches s u
Reaches-trans r here = r
Reaches-trans r (move by q e) = move by (Reaches-trans r q) e

-- Nothing comes after a terminal state.
pub Reaches-is_terminal : {s t : RequestState} → is_terminal s ≡ true → Reaches s t → t ≡ s
Reaches-is_terminal h here = refl
Reaches-is_terminal {s} h (move {t = t} by r e) =
    let same = Reaches-is_terminal h r in
    ground (arith, next_state-is_terminal s by, next_state-is_terminal t by)
