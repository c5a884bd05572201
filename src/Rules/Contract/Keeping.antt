-- ===== src/Rules/Contract/Keeping.antt =====
-- Handlers whose every response is an answer of the contract, and how handlers are composed.
use superkb.Base.{ℕ, ◌≡◌, refl, Option, none, some, [], ◌∷◌, ◌++◌, inl, inr, Bool-cases}
use superkb.Base.Text.{Text, lit}
use superkb.Delivery.Handlers.{
  Handler, written, reply, with_body, done, reply_nothing, with_uuid, with_id,
}
use superkb.Delivery.KnowledgeBases.{with_memory_id}
use superkb.Delivery.Response.{Response, Payload, value, nothing, write_error, write_domain_error}
use superkb.Delivery.Views.{Body}
use superkb.Domain.Errors.{Error, Result, ok, err, is, invalid_input, not_found, conflict}
use superkb.Rules.Contract.{Answers, answered, refused, bad_request, missing, conflicting, broken}
use superkb.World.{World, Ports}
use superkb.World.Calls.{M}

-- every response of a handler is such an answer
pub record Keeps {B E : Type 0} (S : ℕ → Type 0) (view : B → Payload Body) (h : Handler E)
    : Type 0 where
  pub run : (w : World E) → Answers S view (h w).0

module _ {B : Type 0} {S : ℕ → Type 0} {view : B → Payload Body} where
  pub write_domain_error-Answers : (e : Error) → Answers S view (write_domain_error e)
  unfolding write_domain_error
  write_domain_error-Answers e = elim (Bool-cases (is e invalid_input)) [
    | inl bad ↦ rw bad (refused _ bad_request refl)
    | inr other ↦ elim (Bool-cases (is e not_found)) [
      | inl lost ↦ rw (other, lost) (refused _ missing refl)
      | inr found ↦ elim (Bool-cases (is e conflict)) [
        | inl busy ↦ rw (other, found, busy) (refused _ conflicting refl)
        | inr fault ↦ rw (other, found, fault) (refused _ broken refl)
      ]
    ]
  ]

  module _ {E A : Type 0} where
    written-Answers :
        (status : ℕ) (show : A → Body) (r : Result A × World E)
        → S status
        → ((a : A) → (b : B) × (value (show a) ≡ view b))
        → Answers S view (written status show r).0
    written-Answers status show (ok a, w) s same = answered (same a).0 s (same a).1
    written-Answers status show (err e, w) s same = write_domain_error-Answers e

    pub reply-Keeps :
        (status : ℕ) {show : A → Body} (m : M E A)
        → S status
        → ((a : A) → (b : B) × (value (show a) ≡ view b))
        → Keeps S view (reply status show m)
    unfolding reply
    reply-Keeps status {show = show} m s same = record {
      run = λ w. written-Answers status show (m w) s same;
    }

    pub with_body-Keeps :
        (body : Option A) (next : A → Handler E)
        → ((a : A) → Keeps S view (next a))
        → Keeps S view (with_body body next)
    unfolding with_body
    with_body-Keeps none next h = record { run = λ w. refused _ bad_request refl }
    with_body-Keeps (some a) next h = record { run = λ w. (h a).run w }

  module _ {E : Type 0} where
    done-Answers :
        (b : B) (r : Result (Unit {0}) × World E)
        → S 204
        → nothing ≡ view b
        → Answers S view (done r).0
    done-Answers b (ok a, w) s same = answered b s same
    done-Answers b (err e, w) s same = write_domain_error-Answers e

    pub reply_nothing-Keeps :
        (b : B) (m : M E (Unit {0})) → S 204 → nothing ≡ view b → Keeps S view (reply_nothing m)
    unfolding reply_nothing
    reply_nothing-Keeps b m s same = record { run = λ w. done-Answers b (m w) s same }

  module _ {E : Type 0} (P : Ports E) where
    pub with_uuid-Keeps :
        (refusal text : Text) (next : ℕ → Handler E)
        → ((i : ℕ) → Keeps S view (next i))
        → Keeps S view (with_uuid P refusal text next)
    unfolding with_uuid
    with_uuid-Keeps refusal text next h = record { run = λ w. go w (P.parse_uuid text) }
      where
        go :
            (w : World E) (o : Option ℕ)
            → Answers S view
                (elim o as (λ _. Response Body × World E) [
                  | some id ↦ next id w
                  | none ↦ (write_error 400 refusal, w)
                ]).0
        go w none = refused _ bad_request refl
        go w (some id) = (h id).run w

    pub with_id-Keeps :
        (name text : Text) (next : ℕ → Handler E)
        → ((i : ℕ) → Keeps S view (next i))
        → Keeps S view (with_id P name text next)
    unfolding with_id
    with_id-Keeps name text next h = with_uuid-Keeps (lit "invalid " ++ name) text next h

    pub with_memory_id-Keeps :
        (memory_id : Text) (next : Handler E)
        → Keeps S view next
        → Keeps S view (with_memory_id P memory_id next)
    with_memory_id-Keeps [] next h = record { run = λ w. refused _ bad_request refl }
    with_memory_id-Keeps (x ∷ memory_id) next h = record { run = λ w. h.run w }
