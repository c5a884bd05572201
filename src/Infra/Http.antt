-- ===== src/Infra/Http.antt =====
-- What the clients of other services use of net/http, mime/multipart and encoding/json: parameters,
-- for code that is not in the repository. A reader is a number that the functions that read it are
-- given.
use superkb.Base.{
  ℕ, Bool, ◌||◌, Option, none, some, List, [], ◌∷◌, ◌++◌, is_nil, if◌then◌else◌, ltb, leb,
}
use superkb.Base.Text.{Text, lit}
use superkb.Domain.Errors.{Error, Result, annotated}
use superkb.Exec.{Exec, fail}

-- a part of a multipart form
pub data Part : Type 0 where
  -- a file, with the name of its field, its file name and its content
  file : Text → Text → Text → Part
  -- a field with its value
  field : Text → Text → Part

pub data Body : Type 0 where
  absent : Body
  json : Text → Body
  form : List Part → Body

pub record Request : Type 0 where
  pub method : Text
  pub url : Text
  pub headers : List (Text × Text)
  pub body : Body

pub record Response : Type 0 where
  pub status : ℕ
  pub body : ℕ

pub record Transport (E : Type 0) : Type 0 where
  -- `http.NewRequestWithContext`, which refuses a method or URL that is not well formed
  pub request_fault : Text → Text → Option Error
  -- `http.Client.Do`
  pub send : Request → E → Result Response × E
  -- `io.ReadAll(io.LimitReader(body, n))`, whose error the code drops
  pub read_limited : ℕ → ℕ → E → Text × E

-- `StatusCode < 200 || StatusCode >= 300`
unfoldable pub is_refusal : ℕ → Bool
is_refusal status = ltb status 200 || leb 300 status

-- `Authorization`, where there is a key
unfoldable pub authorization : Text → List (Text × Text)
authorization key = if is_nil key then [] else (lit "Authorization", lit "Bearer " ++ key) ∷ []

-- `http.NewRequestWithContext`, its error annotated
abbrev pub formed : {E A : Type 0} → Text → Option Error → Exec E A → Exec E A
formed before none m = m
formed before (some e) m = fail (annotated before e)
