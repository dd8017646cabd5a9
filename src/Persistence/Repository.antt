-- ===== src/Persistence/Repository.antt =====
-- src/wapp_planner/persistence/repository.py, the repository in memory.
use whatsapp_automatic_plann.Prelude.{
  Bool, true, false, String, Option, none, some, List, [], ◌∷◌, ◌++◌, last?, get_or,
}
use whatsapp_automatic_plann.Prelude.Dict.{Dict, lookup, insert}
use whatsapp_automatic_plann.Domain.Models.{Message, DocumentRevision, OwnerInteraction, Request}
use whatsapp_automatic_plann.Documents.Content.{DocumentContent}

abbrev pub Revision : Type 0
Revision = DocumentRevision DocumentContent

pub record Repository : Type 0 where
  pub requests : Dict Request
  pub messages : Dict (List Message)
  pub revisions : Dict (List Revision)
  pub interactions : Dict OwnerInteraction

unfoldable pub save_request : Request → Repository → Repository
save_request r repo = record repo { requests = insert r.id r repo.requests }

unfoldable pub get_request : String → Repository → Option Request
get_request request_id repo = lookup request_id repo.requests

unfoldable pub set_messages : String → List Message → Repository → Repository
set_messages request_id ms repo = record repo { messages = insert request_id ms repo.messages }

unfoldable pub get_messages : String → Repository → List Message
get_messages request_id repo = get_or (lookup request_id repo.messages) []

unfoldable pub get_revisions : String → Repository → List Revision
get_revisions request_id repo = get_or (lookup request_id repo.revisions) []

-- `self._revisions.setdefault(revision.request_id, []).append(revision)`
unfoldable pub add_revision : Revision → Repository → Repository
unfolding get_revisions
add_revision r repo = record repo {
  revisions = insert r.request_id (get_revisions r.request_id repo ++ r ∷ []) repo.revisions;
}

-- `revisions[-1] if revisions else None`
unfoldable pub latest_revision : String → Repository → Option Revision
unfolding get_revisions
latest_revision request_id repo = last? (get_revisions request_id repo)

unfoldable pub record_interaction : OwnerInteraction → Repository → Bool × Repository
record_interaction i repo = elim (lookup i.id repo.interactions) [
  | some _ ↦ (false, repo)
  | none ↦ (true, record repo { interactions = insert i.id i repo.interactions })
]
