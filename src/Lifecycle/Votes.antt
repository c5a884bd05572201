-- ===== src/Lifecycle/Votes.antt =====
-- The votes on corrections, table memory_feedback: its primary key.
use superkb.Base.{◌≡◌, refl, arith, exists_where, Bool-cases, inl, inr}
use superkb.Base.Rows.{Unique, Unique-append, Unique-update}
use superkb.Base.Text.{Text, text_eq, text_eq_iff}
use superkb.Domain.Rag.{MemoryFeedback}
use superkb.Postgres.Tables.{Db, same_feedback, upsert_feedback}

pub text_eq_sym : (s t : Text) → text_eq s t ≡ text_eq t s
unfolding text_eq
text_eq_sym s t = ground (arith, text_eq_iff s t, text_eq_iff t s)

pub same_feedback_sym : (f g : MemoryFeedback) → same_feedback f g ≡ same_feedback g f
same_feedback_sym f g = ground (
  arith,
  text_eq_sym f.memory_id g.memory_id,
  text_eq_sym f.reviewer g.reviewer,
  text_eq_sym f.proposed_text g.proposed_text,
)

pub Unique-upsert_feedback :
    (f : MemoryFeedback) (db : Db)
    → Unique same_feedback db.memory_feedback
    → Unique same_feedback (upsert_feedback f db).memory_feedback
unfolding upsert_feedback
Unique-upsert_feedback f db u =
    elim (Bool-cases (exists_where (same_feedback f) db.memory_feedback)) [
      | inl voted ↦ rw voted (
          Unique-update same_feedback (same_feedback f) (λ g. record g { vote = f.vote })
            (λ g h. (refl, refl)) db.memory_feedback u)
      | inr new ↦ rw new (Unique-append same_feedback same_feedback_sym f db.memory_feedback new u)
    ]
