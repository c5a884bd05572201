-- ===== src/Tests/Deletions.antt =====
-- The constraints of the schema at concrete tables, and the deletions from them.
use superkb.Base.{◌≡◌, refl, find_where, select_where, exists_where, sort_by}
use superkb.Domain.Errors.{ok}
use superkb.Exec.{◌>>=◌, attempt}
use superkb.Lifecycle.Cascades.{KbGone, DocumentGone, delete-KbGone, delete-DocumentGone}
use superkb.Lifecycle.Schema.{HoldsSchema}
use superkb.Postgres.Builds
use superkb.Postgres.Documents
use superkb.Postgres.KnowledgeBases
use superkb.Postgres.Tables.{find_document, find_kb}
use superkb.Tests.Fixtures.{counter, idle_world}
use superkb.Usecase.Documents as Uploading
use superkb.Usecase.KnowledgeBases as Usecase
use superkb.World.Calls.{query, call, execute}

idle_world-HoldsSchema : HoldsSchema idle_world.db
unfolding exists_where find_kb find_document find_where
idle_world-HoldsSchema = record {
  documents = (refl, tt);
  kbs = (refl, tt);
  members_documents = (refl, tt);
  members = ((refl, tt), (refl, tt));
  builds = ((refl, (refl, tt)), (refl, (refl, tt)));
  feedback = (tt, tt);
  applied = (tt, tt);
}

dropped : (Usecase.delete counter 1 idle_world).0 ≡ ok tt
unfolding Usecase.delete Usecase.delete_banks Builds.list KnowledgeBases.delete attempt ◌>>=◌ query
    call execute find_kb find_where select_where sort_by
dropped = refl

delete-KbGone_example : KbGone 1 (Usecase.delete counter 1 idle_world).1.db
delete-KbGone_example = delete-KbGone counter idle_world 1 idle_world-HoldsSchema dropped

deleted : (Uploading.delete counter 7 idle_world).0 ≡ ok tt
unfolding Uploading.delete Documents.get_by_id Documents.delete ◌>>=◌ query call execute
    find_document find_where
deleted = refl

document_gone : DocumentGone 7 (Uploading.delete counter 7 idle_world).1.db
document_gone = delete-DocumentGone counter idle_world 7 idle_world-HoldsSchema deleted
