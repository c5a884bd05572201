-- ===== src/Usecase/Memories.antt =====
-- usecase/knowledge_base.go: experiences, curation, and the votes on a correction.
use superkb.Base.{ℕ, Bool, true, not, ◌&&◌, ◌||◌, List, [], ◌∷◌, is_nil, leb, if◌then◌else◌}
use superkb.Base.Text.{Text, lit, text_eq}
use superkb.Base.Text.Strings.{is_blank}
use superkb.Domain.{is_searchable, KnowledgeBase}
use superkb.Base.{Option, none, some}
use superkb.Domain.Errors.{refusal, invalid_input, conflict, opaque}
use superkb.Domain.Rag.{Memory, MemoryConsensus, experience}
use superkb.Exec.{pure, fail, annotate, ◌>>=◌, ◌>>◌}
use superkb.Postgres.KnowledgeBases
use superkb.Postgres.Builds
use superkb.Postgres.Feedback
use superkb.World.{Ports}
use superkb.World.Calls.{M, call}

pub record RetainMemoryInput : Type 0 where
  pub content : Text
  pub context : Text
  pub tags : List Text
  pub metadata : List (Text × Text)

pub record CurateMemoryInput : Type 0 where
  pub text : Text
  pub state : Text

pub record MemoryFeedbackInput : Type 0 where
  pub reviewer : Text
  pub vote : Text
  pub proposed_text : Text

pub record MemoryConsensusResult : Type 0 where
  pub memory_id : Text
  pub proposed_text : Text
  pub approvals : ℕ
  pub rejections : ℕ
  pub status : Text
  pub applied : Bool

-- the result of `SubmitMemoryFeedback`
abbrev pub consensus_result : MemoryConsensus → MemoryConsensusResult
consensus_result c = record {
  memory_id = c.memory_id;
  proposed_text = c.proposed_text;
  approvals = c.approvals;
  rejections = c.rejections;
  status = c.status;
  applied = c.applied;
}

-- `normalizeCurationState`
unfoldable pub normalize_curation_state : Text → Text
normalize_curation_state state = if text_eq state (lit "active") then lit "valid" else state

-- the id that `*kb.ActiveBuildID` reads, where `IsSearchable` holds
abbrev pub serving : KnowledgeBase → Option ℕ
serving kb = if is_searchable kb then kb.active_build_id else none

module _ {E : Type 0} (P : Ports E) where
  -- `activeBankID`
  unfoldable pub active_bank_id : ℕ → M E Text
  active_bank_id kb_id = do
    kb ← annotate (lit "kb") (KnowledgeBases.get_by_id P kb_id)
    elim (serving kb) [
      | none ↦
          fail (refusal [] conflict (lit ": knowledge base is not enabled or has no active build"))
      | some build_id ↦ do
        build ← annotate (lit "active build") (Builds.get_by_id P build_id)
        pure build.bank_id
    ]

  abbrev pub first_memory : List Memory → M E Memory
  first_memory [] = fail (opaque (lit "retain experience: no memory returned"))
  first_memory (m ∷ ms) = pure m

  unfoldable pub retain_experience : ℕ → RetainMemoryInput → M E Memory
  retain_experience kb_id i =
      if is_blank i.content
      then fail (refusal (lit "retain experience: ") invalid_input (lit ": content required"))
      else do
        bank_id ← annotate (lit "retain experience") (active_bank_id kb_id)
        let item : Memory = record {
          id = [];
          content = i.content;
          type = experience;
          context = i.context;
          tags = i.tags;
          metadata = i.metadata;
        }
        mems ←
            annotate (lit "retain experience")
              (call (P.indexer.retain_memories bank_id (item ∷ [])))
        first_memory mems

  unfoldable pub curate_memory : ℕ → Text → CurateMemoryInput → M E Memory
  curate_memory kb_id memory_id i =
      if is_blank memory_id
      then fail (refusal (lit "curate memory: ") invalid_input (lit ": memory_id required"))
      else do
        bank_id ← annotate (lit "curate memory") (active_bank_id kb_id)
        annotate (lit "curate memory") (
            call (
              P.indexer.curate_memory bank_id memory_id
                (record { text = i.text; state = normalize_curation_state i.state })))

  -- the condition under which a correction is applied
  abbrev pub reaches_consensus : Text → MemoryConsensus → Bool
  reaches_consensus vote c =
      text_eq vote (lit "approve")
      && leb 2 c.approvals
      && not (is_nil c.proposed_text)
      && not c.applied

  -- the curation of an agreed correction
  unfoldable pub apply_consensus : ℕ → Text → MemoryConsensus → M E MemoryConsensus
  apply_consensus kb_id memory_id c = do
    annotate (lit "memory feedback: apply consensus")
        (curate_memory kb_id memory_id (record { text = c.proposed_text; state = lit "active" }))
    annotate (lit "memory feedback: mark applied")
        (Feedback.mark_memory_consensus_applied P kb_id memory_id c.proposed_text)
    pure (record c { status = lit "applied"; applied = true })

  -- `SubmitMemoryFeedback` once the input is accepted
  unfoldable pub record_vote : ℕ → Text → MemoryFeedbackInput → M E MemoryConsensusResult
  record_vote kb_id memory_id i = do
    c ← annotate (lit "memory feedback") (
        Feedback.add_memory_feedback P (record {
          knowledge_base_id = kb_id;
          memory_id = memory_id;
          reviewer = i.reviewer;
          vote = i.vote;
          proposed_text = i.proposed_text;
        }))
    reached ← if reaches_consensus i.vote c then apply_consensus kb_id memory_id c else pure c
    pure (consensus_result reached)

  unfoldable pub submit_memory_feedback : ℕ → Text → MemoryFeedbackInput → M E MemoryConsensusResult
  submit_memory_feedback kb_id memory_id i =
      if not P.has_feedback
      then fail (
          refusal (lit "memory feedback: ") invalid_input (lit ": feedback repository unavailable"))
      else if is_blank memory_id || is_blank i.reviewer || is_blank i.vote
      then fail (
          refusal (lit "memory feedback: ") invalid_input
            (lit ": memory_id, reviewer, and vote required"))
      else if not (text_eq i.vote (lit "approve")) && not (text_eq i.vote (lit "reject"))
      then fail
          (refusal (lit "memory feedback: ") invalid_input (lit ": vote must be approve or reject"))
      else record_vote kb_id memory_id i
