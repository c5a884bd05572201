-- ===== src/Rules/Exchange.antt =====
-- infra/hindsight/indexer.go: `do` and `doMultipart`, and the methods that make one request.
use superkb.Base.{ℕ, ◌≤◌, ◌<◌, ◌≡◌, refl, arith, false, Option, none, some}
use superkb.Base.Text.{Text}
use superkb.Domain.Errors.{Error, ok}
use superkb.Exec.{Exec}
use superkb.Exec.Successes.{annotate-ok, fail-never, if_fail-ok, halfway, bind-ok}
use superkb.Infra.Hindsight.{Indexer, Services, answered, exchange}
use superkb.Infra.Http.{Request, Response, is_refusal, formed}

is_refusal-no : (status : ℕ) → is_refusal status ≡ false → (200 ≤ status) × (status < 300)
unfolding is_refusal
is_refusal-no status h = ground arith

module _ {E A : Type 0} (S : Services E) (C : Indexer) where
  -- the request was sent, answered with a status from 200 to 299, and the response decoded
  pub record Accepted (decode : ℕ → Exec E A) (req : Request) (a : A) (x y : E) : Type 0 where
    pub response : Response
    pub replied_at : E
    pub sent : S.transport.send req x ≡ (ok response, replied_at)
    pub from_200 : 200 ≤ response.status
    pub below_300 : response.status < 300
    pub decoded : decode response.body replied_at ≡ (ok a, y)

  formed-ok :
      (before : Text) (fault : Option Error) (m : Exec E A) (x y : E) (a : A)
      → formed before fault m x ≡ (ok a, y)
      → (fault ≡ none) × (m x ≡ (ok a, y))
  formed-ok before none m x y a h = (refl, h)
  formed-ok before (some e) m x y a h = absurd (fail-never _ x y a h)

  answered-ok :
      (method url : Text) (decode : ℕ → Exec E A) (resp : Response) (a : A) (x y : E)
      → answered S C method url decode resp x ≡ (ok a, y)
      → (200 ≤ resp.status) × (resp.status < 300) × (decode resp.body x ≡ (ok a, y))
  unfolding answered
  answered-ok method url decode resp a x y h =
      let (status, decoded) = if_fail-ok (is_refusal resp.status) _ _ _ x a y h in
      let (low, high) = is_refusal-no resp.status status in
      (low, high, annotate-ok _ (decode resp.body) x a y decoded)

  -- A request of the client succeeds only if it was formed, sent, answered with a status from 200 to
  -- 299, and its response was decoded; the value and the world are those of the decoder.
  pub exchange-Accepted :
      (decode : ℕ → Exec E A) (req : Request) (a : A) (x y : E)
      → exchange S C decode req x ≡ (ok a, y)
      → (S.transport.request_fault req.method req.url ≡ none) × Accepted decode req a x y
  unfolding exchange
  exchange-Accepted decode req a x y h =
      let (well_formed, rest) = formed-ok _ _ _ x y a h in
      elim (bind-ok _ _ x a y rest) [
        | halfway response z replied answer ↦
            let (low, high, decoded) =
              answered-ok req.method req.url decode response a z y answer in
            (
              well_formed,
              record {
                response = response;
                replied_at = z;
                sent = annotate-ok _ (S.transport.send req) x response z replied;
                from_200 = low;
                below_300 = high;
                decoded = decoded;
              },
            )
      ]
