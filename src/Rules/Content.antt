-- ===== src/Rules/Content.antt =====
-- internal/usecase/document.go: the content of a document, from `Upload` to `Source`, over an
-- object storage that keeps what it is given.
use superkb.Base.{
  ℕ, ◌≡◌, refl, sym, ap, ◌∙◌, subst, Bool, true, false, if◌then◌else◌, Option, none, some, is_nil,
}
use superkb.Base.Text.{Text, lit}
use superkb.Domain.{Document, validate_document}
use superkb.Domain.Errors.{Error, Result, ok, err}
use superkb.Exec.{pure, fail, lift, annotate, ◌>>◌}
use superkb.Exec.Successes.{annotate-ok, pure-ok, lift-ok, fail-never, halfway, bind-ok}
use superkb.Postgres.Documents as Repository
use superkb.Postgres.Documents.{or_not_found}
use superkb.Postgres.Tables.{Db}
use superkb.Usecase.Documents.{UploadInput, store, upload}
use superkb.World.{World, Ports}
use superkb.World.Calls.{M, call, ask, execute, put_ext, write, commit}

-- what a `Get` of a key and the reading of the body that it returns do
pub data Fetched {E : Type 0} (P : Ports E) (key content : Text) (x : E) : Type 0 where
  fetched :
      (body : ℕ) (y z : E)
      → P.storage.get key x ≡ (ok body, y)
      → P.read_all body y ≡ (ok content, z)
      → Fetched P key content x

-- Object storage keeps what it is given: `Holds` is a property of the outside world that a `Put`
-- without an error gives, that the clock and the database leave alone, and that a `Get` shows.
pub record Keeps {E : Type 0} (P : Ports E) : Type 1 where
  pub Holds : Text → Text → E → Type 0
  pub stored :
      (key body : Text) (size : ℕ) (type : Text) (x y : E)
      → P.storage.put key body size type x ≡ (ok tt, y)
      → Holds key body y
  pub shown : (key body : Text) (x : E) → Holds key body x → Fetched P key body x
  pub past_clock : (key body : Text) (x : E) → Holds key body x → Holds key body (P.now x).1
  pub past_sql : (key body : Text) (x : E) → Holds key body x → Holds key body (P.sql_fault x).1

module _ {E A : Type 0} where
  put_ext-ok :
      (w w' : World E) (r : Result A × E) (a : A) → put_ext w r ≡ (ok a, w') → r ≡ (ok a, w'.ext)
  put_ext-ok w w' r a h = ap (λ p. (p.0, p.1.ext)) h

  call-ok :
      (f : E → Result A × E) (w w' : World E) (a : A)
      → call f w ≡ (ok a, w')
      → f w.ext ≡ (ok a, w'.ext)
  unfolding call
  call-ok f w w' a h = put_ext-ok w w' (f w.ext) a h

  ext-ask : (f : E → A × E) (w w' : World E) (a : A) → ask f w ≡ (ok a, w') → (f w.ext).1 ≡ w'.ext
  unfolding ask
  ext-ask f w w' a h = ap (λ p. p.1.ext) h

module _ {E : Type 0} where
  ext-commit : (w : World E) (x : E) (r : Result Db) → (commit w x r).1.ext ≡ x
  ext-commit w x (ok db) = refl
  ext-commit w x (err e) = refl

  ext-write :
      (before : Text) (f : Db → Result Db) (w : World E) (r : Option Error × E)
      → (write before f w r).1.ext ≡ r.1
  ext-write before f w (none, x) = ext-commit w x (f w.db)
  ext-write before f w (some e, x) = refl

  -- a statement leaves the outside world as the database does
  ext-execute :
      (P : Ports E) (before : Text) (f : Db → Result Db) (w : World E)
      → (execute P before f w).1.ext ≡ (P.sql_fault w.ext).1
  unfolding execute
  ext-execute P before f w = ext-write before f w (P.sql_fault w.ext)

  ext-create :
      (P : Ports E) (d : Document) (w : World E)
      → (Repository.create P d w).1.ext ≡ (P.sql_fault w.ext).1
  unfolding Repository.create
  ext-create P d w = ext-execute P _ _ w

module _ {E A : Type 0} where
  -- a value that comes of a test comes of the branch that is not refused
  pub accepted :
      (refused : Bool) (e : Error) (m : M E A) (w : World E) (a : A) (w' : World E)
      → (if refused then fail e else m) w ≡ (ok a, w')
      → m w ≡ (ok a, w')
  accepted true e m w a w' h = absurd (fail-never e w w' a h)
  accepted false e m w a w' h = h

module _ {E : Type 0} (P : Ports E) (K : Keeps P) where
  create-Holds :
      (d : Document) (key body : Text) (w w' : World E)
      → Repository.create P d w ≡ (ok tt, w')
      → K.Holds key body w.ext
      → K.Holds key body w'.ext
  create-Holds d key body w w' made held =
      subst (K.Holds key body) (sym (ext-create P d w) ∙ ap (λ p. p.1.ext) made)
        (K.past_sql key body w.ext held)

  -- the row is written and the document returned
  finish-Holds :
      (doc d : Document) (body : Text) (w w' : World E)
      → (lift (validate_document doc)
            >> (annotate (lit "upload: persist metadata") (Repository.create P doc) >> pure doc))
          w
        ≡ (ok d, w')
      → K.Holds doc.storage_key body w.ext
      → K.Holds d.storage_key body w'.ext
  finish-Holds doc d body w w' h held = elim (bind-ok _ _ w d w' h) [
    | halfway v w1 valid h1 ↦ elim (bind-ok _ _ w1 d w' h1) [
      | halfway t w2 made h2 ↦
          let same = lift-ok _ v w w1 valid in
          let last = pure-ok doc d w2 w' h2 in
          let there = subst (λ x. K.Holds doc.storage_key body x.ext) same.1 held in
          let kept =
            create-Holds doc doc.storage_key body w1 w2 (annotate-ok _ _ w1 t w2 made) there in
          subst (λ x. K.Holds d.storage_key body x.ext) last.1
            (subst (λ x. K.Holds x.storage_key body w2.ext) last.0 kept)
    ]
  ]

  -- what `Upload` stored is there when it returns
  store-Holds :
      (i : UploadInput) (d : Document) (w w' : World E)
      → store P i w ≡ (ok d, w')
      → K.Holds d.storage_key i.content w'.ext
  unfolding store
  store-Holds i d w w' h = elim (bind-ok _ _ w d w' h) [
    | halfway id w1 _ h1 ↦ elim (bind-ok _ _ w1 d w' h1) [
      | halfway u w2 put h2 ↦ elim (bind-ok _ _ w2 d w' h2) [
        | halfway now w3 asked h3 ↦
            let put_in = call-ok _ w1 w2 u (annotate-ok _ _ w1 u w2 put) in
            let held = K.past_clock _ _ w2.ext (K.stored _ _ _ _ w1.ext w2.ext put_in) in
            finish-Holds _ d i.content w3 w' h3
              (subst (K.Holds _ i.content) (ext-ask P.now w2 w3 now asked) held)
      ]
    ]
  ]

  pub upload-Holds :
      (i : UploadInput) (d : Document) (w w' : World E)
      → upload P i w ≡ (ok d, w')
      → K.Holds d.storage_key i.content w'.ext
  unfolding upload
  upload-Holds i d w w' h =
      store-Holds i d w w'
        (accepted (is_nil i.content) _ _ w d w' (accepted (is_nil i.title) _ _ w d w' h))
