-- ===== src/Rules/Retaining.antt =====
-- infra/hindsight/indexer.go: what has happened when `Retain` returns without an error.
use superkb.Base.{
  ℕ, ◌≡◌, ◌≢◌, refl, ap, ◌∙◌, subst, Option, none, some, List, [], ◌∷◌, ◌++◌, map, is_nil,
  if◌then◌else◌,
}
use superkb.Base.Text.{Text, lit}
use superkb.Domain.Errors.{Error, ok}
use superkb.Domain.Rag.{RagDocument}
use superkb.Exec.{Exec, pure, fail, observe}
use superkb.Exec.Successes.{annotate-ok, pure-ok, lift-ok, observe-ok, halfway, bind-ok}
use superkb.Infra.Hindsight.{Indexer, Services, path, send_form}
use superkb.Infra.Hindsight.Messages.{RetainResponse, files_metadata, file_metadata, form_file}
use superkb.Infra.Hindsight.Retaining.{
  once_done, or_fault, write_files, write_form, get_operation, get_operations, wait_for_operation,
  await_operations, operation_ids_of, retain_some, retain,
}
use superkb.Infra.Http.{Part, field}
use superkb.Rules.Waiting.{Completed, wait_for_operation-Loop, wait_for_operation-Completed}
use superkb.Rules.Idle.{TwoIdle, wait_for_bank_idle-Loop, wait_for_bank_idle-TwoIdle}
use superkb.Infra.Operations.{operation_verdict, idle_verdict}
use superkb.Rules.Polling.{Loop}

module _ {E : Type 0} (S : Services E) (C : Indexer) where
  -- the form that `Retain` sends: a file for each document, in their order, and one field with the
  -- metadata of the same documents, in the same order
  pub data Form (docs : List RagDocument) : List Part → Type 0 where
    form_of :
        (text : Text)
        → S.marshal (files_metadata (map file_metadata docs)) ≡ ok text
        → Form docs (map form_file docs ++ (field (lit "request") text ∷ []))

  -- The operations were asked for, one behind the other, each until it was found completed.
  pub data Awaited (bank : Text) : List Text → E → E → Type 0 where
    none_left : {x : E} → Awaited bank [] x x
    awaited :
        {id : Text} {ids : List Text} {x y z : E}
        → Loop S C (get_operation S C bank id) (operation_verdict id) tt x (ok tt) y
        → Completed S C bank id y
        → Awaited bank ids y z
        → Awaited bank (id ∷ ids) x z

  -- The operations that a reply names: those of the field `operation_ids`, or where that is empty
  -- the one of the field `operation_id`, if it has one.
  pub data Named (resp : RetainResponse) : List Text → Type 0 where
    many : resp.operation_ids ≢ [] → Named resp resp.operation_ids
    one : resp.operation_ids ≡ [] → resp.operation_id ≢ [] → Named resp (resp.operation_id ∷ [])
    nothing : resp.operation_ids ≡ [] → resp.operation_id ≡ [] → Named resp []

  operation_ids_of-Named : (resp : RetainResponse) → Named resp (operation_ids_of S C resp)
  operation_ids_of-Named resp = go resp.operation_ids resp.operation_id refl refl
    where
      go :
          (ids : List Text) (id : Text)
          → resp.operation_ids ≡ ids
          → resp.operation_id ≡ id
          → Named resp (if is_nil ids then (if is_nil id then [] else id ∷ []) else ids)
      go [] [] e f = nothing e f
      go [] (c ∷ id) e f = subst (λ t. Named resp (t ∷ [])) f (one e (λ g. cc (f, g)))
      go (id ∷ ids) _ e f = subst (Named resp) e (many (λ g. cc (e, g)))

  -- the history of a `Retain` that succeeds
  pub record Retained (bank : Text) (docs : List RagDocument) (x y : E) : Type 0 where
    pub parts : List Part
    pub well_formed : Form docs parts
    pub content_type : Text
    pub response : RetainResponse
    pub sent_at : E
    pub replied_at : E
    pub completed_at : E
    pub drawn : S.form_content_type x ≡ (content_type, sent_at)
    pub sent :
        send_form S C (path C (bank ∷ lit "files" ∷ lit "retain" ∷ [])) content_type parts sent_at
        ≡ (ok response, replied_at)
    pub operation_ids : List Text
    pub named : Named response operation_ids
    pub completed : Awaited bank operation_ids replied_at completed_at
    pub waited : Loop S C (get_operations S C bank) idle_verdict 0 completed_at (ok tt) y
    pub idle : TwoIdle S C bank y

  or_fault-ok :
      (before : Text) (o : Option Error) (x y : E) → or_fault S C before o x ≡ (ok tt, y) → x ≡ y
  unfolding pure fail
  or_fault-ok before none x y h = ap (λ p. p.1) h
  or_fault-ok before (some e) x y h = cc

  write_files-ok :
      (docs : List RagDocument) (x y : E) (parts : List Part)
      → write_files S C docs x ≡ (ok parts, y)
      → (map form_file docs ≡ parts) × (x ≡ y)
  unfolding write_files
  write_files-ok [] x y parts h = pure-ok [] parts x y h
  write_files-ok (d ∷ ds) x y parts h = elim (bind-ok _ _ x parts y h) [
    | halfway _ z put rest ↦ elim (bind-ok _ _ x tt z put) [
      | halfway _ z' created written ↦ elim (bind-ok _ _ z parts y rest) [
        | halfway others z'' more end ↦
            let (names, same) = write_files-ok ds z z'' others more in
            let (all, same') = pure-ok (form_file d ∷ others) parts z'' y end in
            (
              ap (λ ps. form_file d ∷ ps) names ∙ all,
              or_fault-ok _ _ x z' created ∙ or_fault-ok _ _ z' z written ∙ same ∙ same',
            )
      ]
    ]
  ]

  write_form-ok :
      (docs : List RagDocument) (x y : E) (parts : List Part)
      → write_form S C docs x ≡ (ok parts, y)
      → Form docs parts × (x ≡ y)
  unfolding write_form
  write_form-ok docs x y parts h = elim (bind-ok _ _ x parts y h) [
    | halfway files x1 written rest ↦ elim (bind-ok _ _ x1 parts y rest) [
      | halfway text x2 marshalled rest' ↦ elim (bind-ok _ _ x2 parts y rest') [
        | halfway _ x3 put rest'' ↦ elim (bind-ok _ _ x3 parts y rest'') [
          | halfway _ x4 closed end ↦
              let (names, same) = write_files-ok docs x x1 files written in
              let (all, same') =
                pure-ok (files ++ (field (lit "request") text ∷ [])) parts x4 y end in
              let (text_ok, same'') =
                lift-ok _ text x1 x2 (annotate-ok _ _ x1 text x2 marshalled) in
              (
                subst (Form docs) (ap (λ fs. fs ++ (field (lit "request") text ∷ [])) names ∙ all)
                    (form_of text text_ok),
                same ∙ same'' ∙ or_fault-ok _ _ x2 x3 put ∙ or_fault-ok _ _ x3 x4 closed ∙ same',
              )
        ]
      ]
    ]
  ]

  once_done-some :
      (m : Exec E (Option (Unit {0}))) (o : Option (Unit {0})) (x y : E)
      → once_done S C m o x ≡ (ok (some tt), y)
      → (o ≡ some tt) × (m x ≡ (ok (some tt), y))
  unfolding pure
  once_done-some m none x y h = cc
  once_done-some m (some _) x y h = (refl, h)

  await_operations-Awaited :
      (n : ℕ) (bank : Text) (ids : List Text) (x y : E)
      → await_operations S C n bank ids x ≡ (ok (some tt), y)
      → Awaited bank ids x y
  unfolding await_operations
  await_operations-Awaited n bank [] x y h =
      subst (Awaited bank [] x) (pure-ok (some tt) (some tt) x y h).1 none_left
  await_operations-Awaited n bank (id ∷ ids) x y h = elim (bind-ok _ _ x (some tt) y h) [
    | halfway o z seen rest ↦
        let (ended, others) = once_done-some _ o z y rest in
        let done = subst (λ o. wait_for_operation S C n bank id x ≡ (ok o, z)) ended seen in
        awaited (wait_for_operation-Loop S C n bank id x z done)
          (wait_for_operation-Completed S C n bank id x z done)
          (await_operations-Awaited n bank ids z y others)
  ]

  retain_some-Retained :
      (n : ℕ) (bank : Text) (docs : List RagDocument) (x y : E)
      → retain_some S C n bank docs x ≡ (ok (some tt), y)
      → Retained bank docs x y
  unfolding retain_some observe
  retain_some-Retained n bank docs x y h = elim (bind-ok _ _ x (some tt) y h) [
    | halfway parts x1 written rest ↦ elim (bind-ok _ _ x1 (some tt) y rest) [
      | halfway content_type x2 drawn rest1 ↦ elim (bind-ok _ _ x2 (some tt) y rest1) [
        | halfway response x3 sent rest2 ↦ elim (bind-ok _ _ x3 (some tt) y rest2) [
          | halfway o x4 waited last ↦
              let (ended, idle) = once_done-some _ o x4 y last in
              let (form, same) = write_form-ok docs x x1 parts written in
              record {
                parts = parts;
                well_formed = form;
                content_type = content_type;
                response = response;
                sent_at = x2;
                replied_at = x3;
                completed_at = x4;
                drawn =
                    ap S.form_content_type same
                    ∙ observe-ok S.form_content_type x1 content_type x2 drawn;
                sent = sent;
                operation_ids = operation_ids_of S C response;
                named = operation_ids_of-Named response;
                completed = await_operations-Awaited n bank _ x3 x4 (
                    subst
                      (λ o.
                        await_operations S C n bank (operation_ids_of S C response) x3 ≡ (ok o, x4))
                      ended waited);
                waited = wait_for_bank_idle-Loop S C n bank x4 y idle;
                idle = wait_for_bank_idle-TwoIdle S C n bank x4 y idle;
              }
        ]
      ]
    ]
  ]

  -- When `Retain` of some documents returns without an error, this is what has happened: the
  -- documents and their metadata were sent in one form that the indexer accepted; each operation
  -- in the field operation_ids of the reply, or where that is empty the one in its field
  -- operation_id, was asked for until it was completed; and then the bank was asked for its
  -- operations until two replies, one directly behind the other, listed none that is in flight or
  -- has failed.
  pub retain-Retained :
      (n : ℕ) (bank : Text) (docs : List RagDocument) (x y : E)
      → docs ≢ []
      → retain S C n bank docs x ≡ (ok (some tt), y)
      → Retained bank docs x y
  unfolding retain
  retain-Retained n bank [] x y some_docs h = absurd (some_docs refl)
  retain-Retained n bank (d ∷ ds) x y some_docs h = retain_some-Retained n bank (d ∷ ds) x y h
