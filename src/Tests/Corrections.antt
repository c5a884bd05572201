-- ===== src/Tests/Corrections.antt =====
-- A vote for a correction that was applied.
use superkb.Base.{ℕ, ◌≡◌, refl, suc, ◌∷◌, [], List, exists_where}
use superkb.Base.Text.{lit, text_eq}
use superkb.Domain.Errors.{err, sentinel, conflict}
use superkb.Lifecycle.Corrections.{IsApplied, submit-same}
use superkb.Lifecycle.History.{Request, enable_kb, vote, answer_all}
use superkb.Tests.Fixtures.{counter, idle_world}
use superkb.Usecase.Memories.{MemoryFeedbackInput, submit_memory_feedback}
use superkb.World.{World, RagIndexer}

abbrev corrected_world : World ℕ
corrected_world = record idle_world {
  db = record idle_world.db {
    memory_consensus_applied =
        record { knowledge_base_id = 1; memory_id = b'm' ∷ []; proposed_text = b't' ∷ [] } ∷ [];
  };
}

abbrev approval : MemoryFeedbackInput
approval = record { reviewer = b'r' ∷ []; vote = lit "approve"; proposed_text = b't' ∷ [] }

-- an indexer that refuses every correction
abbrev refusing : RagIndexer ℕ
refusing = record counter.indexer {
  curate_memory = λ bank memory c n. (err (sentinel conflict), suc n);
}

abbrev between : List Request
between = enable_kb 1 2 ∷ vote 1 (b'm' ∷ []) approval ∷ []

marked : IsApplied 1 (b'm' ∷ []) (b't' ∷ []) corrected_world.db
unfolding exists_where text_eq
marked = refl

submit-same_example :
    submit_memory_feedback
      (record counter { indexer = refusing })
      1
      (b'm' ∷ [])
      approval
      (answer_all counter between corrected_world)
    ≡ submit_memory_feedback counter 1
        (b'm' ∷ [])
        approval
        (answer_all counter between corrected_world)
submit-same_example =
    submit-same counter refusing 1 (b'm' ∷ []) between approval corrected_world marked
