-- ===== src/Orchestrator/Recording.antt =====
-- An owner's action is recorded once.
use whatsapp_automatic_plann.Prelude.{ℕ, ◌≡◌, true, false, none, some, arith}
use whatsapp_automatic_plann.Prelude.Dict.{lookup, insert}
use whatsapp_automatic_plann.Domain.Models.{OwnerInteraction}
use whatsapp_automatic_plann.Hitl.Service.{OwnerAction}
use whatsapp_automatic_plann.Persistence.Repository.{Repository, record_interaction}
use whatsapp_automatic_plann.Orchestrator.Base.{System, interaction_of}

pub record_new :
    (i : OwnerInteraction) (repo : Repository)
    → lookup i.id repo.interactions ≡ none
    → record_interaction i repo
      ≡ (true, record repo { interactions = insert i.id i repo.interactions })
unfolding record_interaction
record_new i repo e = ground arith

pub record_old :
    (i j : OwnerInteraction) (repo : Repository)
    → lookup i.id repo.interactions ≡ some j
    → record_interaction i repo ≡ (false, repo)
unfolding record_interaction
record_old i j repo e = ground arith

-- The state in which an action is recorded.
abbrev pub recorded : {W : Type 0} → OwnerAction → ℕ → System W → System W
recorded action received_at s = record s {
  repo = record s.repo {
    interactions = insert action.action_id (interaction_of action received_at) s.repo.interactions;
  };
}
