-- ===== src/Lifecycle/Corrections.antt =====
-- A correction that was applied is not applied again: `SubmitMemoryFeedback` and the table
-- memory_consensus_applied.
use superkb.Base.{
  ℕ, ◌≡◌, refl, sym, ap, ◌∙◌, subst, Bool, true, false, not, ◌&&◌, ◌||◌, List, [], ◌∷◌, ◌++◌, arith,
  exists_where, Bool-cases, inl, inr, if◌then◌else◌,
}
use superkb.Base.Text.{Text, lit, text_eq}
use superkb.Base.Text.Strings.{is_blank}
use superkb.Domain.Errors.{Result, ok, err}
use superkb.Domain.Rag.{MemoryFeedback, MemoryConsensus}
use superkb.Exec.{pure, annotate, resume, ◌>>=◌}
use superkb.Lifecycle.Ends.{Any, Outcome}
use superkb.Lifecycle.History.{Request, answer_all, answer_all-Reach}
use superkb.Lifecycle.Runs.{Runs, Runs-annotate, Runs-weaken}
use superkb.Lifecycle.Statements.{add_memory_feedback-Runs}
use superkb.Lifecycle.Steps.{
  Grow, new_document, new_kb, new_build, new_member, enable, disable, advance, vote, applied,
  Reach-keeps,
}
use superkb.Postgres.Feedback
use superkb.Postgres.Feedback.{consensus_of}
use superkb.Postgres.Tables.{
  Db, is_applied, insert_document, insert_kb, insert_build, update_kb, update_build,
  upsert_feedback, insert_applied,
}
use superkb.Postgres.Tables.Others.{applied-insert_member, applied-upsert_feedback}
use superkb.Usecase.Memories.{
  MemoryFeedbackInput, MemoryConsensusResult, consensus_result, reaches_consensus, apply_consensus,
  record_vote, submit_memory_feedback,
}
use superkb.World.{World, Ports, RagIndexer}
use superkb.World.Calls.{M, execute, query}

-- the correction is marked as applied
abbrev pub IsApplied : ℕ → Text → Text → Db → Type 0
IsApplied kb memory text db =
    exists_where (is_applied kb memory text) db.memory_consensus_applied ≡ true

exists-append_found :
    {A : Type 0} (p : A → Bool) (x : A) (xs : List A)
    → exists_where p xs ≡ true
    → exists_where p (xs ++ (x ∷ [])) ≡ true
unfolding exists_where
exists-append_found p x [] h = cc
exists-append_found p x (y ∷ xs) h = ground (arith, exists-append_found p x xs)

insert_applied-IsApplied :
    (kb k : ℕ) (memory text m t : Text) (db : Db)
    → IsApplied kb memory text db
    → IsApplied kb memory text (insert_applied k m t db)
unfolding insert_applied
insert_applied-IsApplied kb k memory text m t db h =
    elim (Bool-cases (exists_where (is_applied k m t) db.memory_consensus_applied)) [
      | inl old ↦ rw old h
      | inr new ↦ rw new (exists-append_found _ _ db.memory_consensus_applied h)
    ]

-- the statements on the other tables
module _ (kb : ℕ) (memory text : Text) where
  Grow-IsApplied : (a b : Db) → Grow a b → IsApplied kb memory text a → IsApplied kb memory text b
  Grow-IsApplied a b (new_document d _) h = unfold insert_document in h
  Grow-IsApplied a b (new_kb k _ _ _) h = unfold insert_kb in h
  Grow-IsApplied a b (new_build c _ _ _) h = unfold insert_build in h
  Grow-IsApplied a b (new_member k doc _ _) h = rw applied-insert_member h
  Grow-IsApplied a b (enable new _ _ _ _ _) h = unfold update_kb in h
  Grow-IsApplied a b (disable new _ _ _) h = unfold update_kb in h
  Grow-IsApplied a b (advance new _ _ _) h = unfold update_build in h
  Grow-IsApplied a b (vote f _) h = rw applied-upsert_feedback h
  Grow-IsApplied a b (applied k m t _) h = insert_applied-IsApplied kb k memory text m t a h

module _ {E : Type 0} (P : Ports E) (I : RagIndexer E) (kb : ℕ) (memory : Text) where
  -- the same ports with another indexer
  abbrev pub other_indexer : Ports E
  other_indexer = record P { indexer = I }

  consensus-applied :
      (v : Text) (c : MemoryConsensus) → c.applied ≡ true → reaches_consensus P v c ≡ false
  consensus-applied v c h = ground arith

  abbrev decide : Ports E → Text → MemoryConsensus → M E MemoryConsensusResult
  decide P' v c =
      (if reaches_consensus P v c then apply_consensus P' kb memory c else pure c) >>= λ reached.
      pure (consensus_result reached)

  decide-same :
      (v : Text) (r : Result MemoryConsensus × World E)
      → Outcome (λ c _. c.applied ≡ true) Any r.1.db r.0
      → resume (decide other_indexer v) r ≡ resume (decide P v) r
  decide-same v (ok c, w) h = rw (consensus-applied v c h)
  decide-same v (err e, w) h = refl

  abbrev vote_of : MemoryFeedbackInput → MemoryFeedback
  vote_of i = record {
    knowledge_base_id = kb;
    memory_id = memory;
    reviewer = i.reviewer;
    vote = i.vote;
    proposed_text = i.proposed_text;
  }

  consensus_of-IsApplied :
      (text : Text) (old db : Db) (f : MemoryFeedback) (c : MemoryConsensus)
      → IsApplied kb memory text old
      → db ≡ upsert_feedback f old
      → c ≡ consensus_of kb memory text db
      → c.applied ≡ true
  unfolding consensus_of
  consensus_of-IsApplied text old db f c h e is =
      ap (λ (d : MemoryConsensus). d.applied) is
      ∙ subst (IsApplied kb memory text) (sym e) (rw applied-upsert_feedback h)

  vote-Runs :
      (i : MemoryFeedbackInput)
      → Runs Grow
          (IsApplied kb memory i.proposed_text)
          (annotate (lit "memory feedback") (Feedback.add_memory_feedback P (vote_of i)))
          (λ c _. c.applied ≡ true)
          Any
  vote-Runs i = Runs-annotate _ (
      Runs-weaken
        (add_memory_feedback-Runs P {P = IsApplied kb memory i.proposed_text} {X = Any} (vote_of i)
          (λ _ _. tt) (λ _ _. tt))
        (λ db h. h)
        (λ c db ((old, marked, e), is).
          consensus_of-IsApplied i.proposed_text old db (vote_of i) c marked e is)
        (λ _ _. tt))

  record_vote-same :
      (i : MemoryFeedbackInput) (w : World E)
      → IsApplied kb memory i.proposed_text w.db
      → record_vote other_indexer kb memory i w ≡ record_vote P kb memory i w
  unfolding record_vote Feedback.add_memory_feedback Feedback.consensus execute query ◌>>=◌
  record_vote-same i w h =
      decide-same i.vote
        (annotate (lit "memory feedback") (Feedback.add_memory_feedback P (vote_of i)) w)
        ((vote-Runs i).run w h).1

  -- behind the same three checks
  accepted-same :
      (i : MemoryFeedbackInput) (w : World E)
      → record_vote other_indexer kb memory i w ≡ record_vote P kb memory i w
      → submit_memory_feedback other_indexer kb memory i w ≡ submit_memory_feedback P kb memory i w
  unfolding submit_memory_feedback
  accepted-same i w h = elim (Bool-cases (not P.has_feedback)) [
    | inl e ↦ rw e refl
    | inr e ↦ elim (Bool-cases (is_blank memory || is_blank i.reviewer || is_blank i.vote)) [
      | inl blank ↦ rw (e, blank) refl
      | inr named ↦
          elim (Bool-cases
            (not (text_eq i.vote (lit "approve")) && not (text_eq i.vote (lit "reject")))) [
              | inl other ↦ rw (e, named, other) refl
              | inr known ↦ rw (e, named, known) h
            ]
    ]
  ]

  -- Once a correction of a memory is marked as applied, and while no request deletes anything, no
  -- vote for it, whoever casts it, calls the indexer again: the result of the vote, and all that it
  -- changes, are the same over any other indexer.
  pub submit-same :
      (rs : List Request) (i : MemoryFeedbackInput) (w : World E)
      → IsApplied kb memory i.proposed_text w.db
      → submit_memory_feedback other_indexer kb memory i (answer_all P rs w)
        ≡ submit_memory_feedback P kb memory i (answer_all P rs w)
  submit-same rs i w h =
      let kept =
        Reach-keeps (IsApplied kb memory i.proposed_text) (Grow-IsApplied kb memory i.proposed_text)
          (answer_all-Reach P rs w) h in
      accepted-same i (answer_all P rs w) (record_vote-same i (answer_all P rs w) kept)
