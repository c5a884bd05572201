-- ===== src/Lifecycle/Reviewers.antt =====
-- The reviewers behind a consensus: `SubmitMemoryFeedback` and memory_feedback_repository.go.
use superkb.Base.{
  ℕ, ◌≤◌, ◌≡◌, ◌≢◌, Bool, true, false, ◌&&◌, List, [], ◌∷◌, arith, exists_where, count_where,
  Bool-cases, inl, inr,
}
use superkb.Base.Text.{Text, lit, text_eq, text_eq_iff}
use superkb.Domain.Rag.{MemoryFeedback}
use superkb.Lifecycle.History.{Operation, perform_all, perform_all-Reach}
use superkb.Lifecycle.Steps.{
  Grow, new_document, new_kb, new_build, new_member, enable, disable, advance, vote, applied, Step,
  grow, drop_document, drop_kb, drop_member, Reach-keeps,
}
use superkb.Base.Rows.{Unique, Unique-select}
use superkb.Lifecycle.Votes.{Unique-upsert_feedback}
use superkb.Postgres.Feedback.{concerns, votes, consensus_of}
use superkb.Postgres.Tables.{
  Db, same_feedback, insert_document, insert_kb, insert_build, delete_document, delete_kb,
  update_kb, update_build, insert_member, delete_member, insert_applied,
}
use superkb.Usecase.Memories.{reaches_consensus}
use superkb.World.{World, Ports}

abbrev OneVote : Db → Type 0
OneVote db = Unique same_feedback db.memory_feedback

votes-insert_member :
    (kb doc : ℕ) (db : Db) → (insert_member kb doc db).memory_feedback ≡ db.memory_feedback
unfolding insert_member
votes-insert_member kb doc db = ground arith

votes-insert_applied :
    (kb : ℕ) (memory text : Text) (db : Db)
    → (insert_applied kb memory text db).memory_feedback ≡ db.memory_feedback
unfolding insert_applied
votes-insert_applied kb memory text db = ground arith

Grow-OneVote : (a b : Db) → Grow a b → OneVote a → OneVote b
Grow-OneVote a b (new_document d _) u = unfold insert_document in u
Grow-OneVote a b (new_kb k _ _ _) u = unfold insert_kb in u
Grow-OneVote a b (new_build c _ _ _) u = unfold insert_build in u
Grow-OneVote a b (new_member kb doc _ _) u = rw votes-insert_member u
Grow-OneVote a b (enable new _ _ _ _ _) u = unfold update_kb in u
Grow-OneVote a b (disable new _ _ _) u = unfold update_kb in u
Grow-OneVote a b (advance new _ _ _) u = unfold update_build in u
Grow-OneVote a b (vote f _) u = Unique-upsert_feedback f a u
Grow-OneVote a b (applied kb memory text _) u = rw votes-insert_applied u

Step-OneVote : (a b : Db) → Step a b → OneVote a → OneVote b
Step-OneVote a b (grow s) u = Grow-OneVote a b s u
Step-OneVote a b (drop_document i) u = unfold delete_document in u
Step-OneVote a b (drop_kb n) u =
    unfold delete_kb in Unique-select same_feedback _ a.memory_feedback u
Step-OneVote a b (drop_member kb doc) u = unfold delete_member in u

-- A row of the list that meets a condition.
pub data Row (p : MemoryFeedback → Bool) : List MemoryFeedback → Type 0 where
  first : (f : MemoryFeedback) {fs : List MemoryFeedback} → p f ≡ true → Row p (f ∷ fs)
  later : {f : MemoryFeedback} {fs : List MemoryFeedback} → Row p fs → Row p (f ∷ fs)

-- the row itself
pub row_of : {p : MemoryFeedback → Bool} {fs : List MemoryFeedback} → Row p fs → MemoryFeedback
row_of (first f e) = f
row_of (later r) = row_of r

-- a count that is not zero counts a row, which no earlier row agrees with
counted : (p : MemoryFeedback → Bool) (fs : List MemoryFeedback) → 1 ≤ count_where p fs → Row p fs
unfolding count_where
counted p [] h = absurd (omega arith)
counted p (f ∷ fs) h = elim (Bool-cases (p f)) [
  | inl e ↦ first f e
  | inr e ↦ later (counted p fs (ground arith))
]

Row-meets :
    {p : MemoryFeedback → Bool} {fs : List MemoryFeedback} (r : Row p fs) → p (row_of r) ≡ true
unfolding row_of
Row-meets (first f e) = e
Row-meets (later r) = Row-meets r

exists-Row :
    {p : MemoryFeedback → Bool} {fs : List MemoryFeedback} (q : MemoryFeedback → Bool)
    (r : Row p fs)
    → exists_where q fs ≡ false
    → q (row_of r) ≡ false
unfolding exists_where row_of
exists-Row q (first f e) h = ground arith
exists-Row q (later r) h = exists-Row q r (ground arith)

-- the rows that the consensus query counts as approvals
abbrev pub approves : ℕ → Text → Text → MemoryFeedback → Bool
approves kb memory text f = concerns kb memory text f && text_eq f.vote (lit "approve")

different_reviewers :
    (kb : ℕ) (memory text : Text) (f g : MemoryFeedback)
    → approves kb memory text f ≡ true
    → approves kb memory text g ≡ true
    → same_feedback f g ≡ false
    → f.reviewer ≢ g.reviewer
different_reviewers kb memory text f g hf hg h = ground (
  arith,
  text_eq_iff f.memory_id memory,
  text_eq_iff g.memory_id memory,
  text_eq_iff f.proposed_text text,
  text_eq_iff g.proposed_text text,
  text_eq_iff f.memory_id g.memory_id,
  text_eq_iff f.proposed_text g.proposed_text,
  text_eq_iff f.reviewer g.reviewer,
)

-- Two rows that approve, of different reviewers.
pub record TwoApprovals (kb : ℕ) (memory text : Text) (fs : List MemoryFeedback) : Type 0 where
  pub one : Row (approves kb memory text) fs
  pub two : Row (approves kb memory text) fs
  pub differ : (row_of one).reviewer ≢ (row_of two).reviewer

two_approvals :
    (kb : ℕ) (memory text : Text) (fs : List MemoryFeedback)
    → Unique same_feedback fs
    → 2 ≤ count_where (approves kb memory text) fs
    → TwoApprovals kb memory text fs
unfolding count_where row_of
two_approvals kb memory text [] u h = absurd (omega arith)
two_approvals kb memory text (f ∷ fs) u h = elim (Bool-cases (approves kb memory text f)) [
  | inl e ↦
      let r = counted (approves kb memory text) fs (ground arith) in
      record {
        one = first f e;
        two = later r;
        differ =
            different_reviewers kb memory text f (row_of r) e (Row-meets r)
              (exists-Row (same_feedback f) r u.0);
      }
  | inr e ↦
      let t = two_approvals kb memory text fs u.1 (ground arith) in
      record { one = later t.one; two = later t.two; differ = t.differ }
]

-- After any history that starts with at most one vote for each reviewer and text, a consensus
-- that would be applied rests on two rows that approve the very text, of two different reviewers.
pub consensus_of_two :
    {E : Type 0} (P : Ports E) (os : List Operation) (w : World E) (kb : ℕ)
    (memory text cast : Text)
    → Unique same_feedback w.db.memory_feedback
    → reaches_consensus P cast (consensus_of kb memory text (perform_all P os w).db) ≡ true
    → TwoApprovals kb memory text (perform_all P os w).db.memory_feedback
unfolding consensus_of votes
consensus_of_two P os w kb memory text cast u h =
    two_approvals kb memory text _ (Reach-keeps OneVote Step-OneVote (perform_all-Reach P os w) u)
      (ground arith)
