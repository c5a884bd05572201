-- ===== src/Infra/Vision.antt =====
-- infra/ocr/vision.go: the converter that reads scanned documents with a vision model.
pub mod Rasterizing
pub mod Converting
use Prim.Native.Nat.{◌-◌, ◌%◌, ◌^◌}
use superkb.Base.{
  ltb, ◌*◌, ◌+◌, ℕ, zero, suc, Bool, false, Option, none, some, List, [], ◌∷◌, ◌++◌, is_nil,
  if◌then◌else◌, ◌||◌,
}
use superkb.Base.Int.{ℤ, pos, negsuc}
use superkb.Base.Text.{Text, lit}
use superkb.Base.Text.Decimal.{decimal}
use superkb.Base.Text.Strings.{trim_right, trim_space}
use superkb.Config.{VisionOcrConfig}
use superkb.Domain.Errors.{Error, Result, opaque}
use superkb.Exec.{Exec, pure, fail, lift, observe, annotate, ◌>>=◌}
use superkb.Infra.Http.{Request, Response, Transport, json, is_refusal, formed}

-- `defaultPrompt`, with the UTF-8 bytes of its dash
abbrev pub default_prompt : Text
default_prompt =
    lit "Extract ALL text from this document image as clean Markdown. "
    ++ (lit "Preserve headings, tables, lists, and reading order. "
        ++ (lit "Transcribe verbatim "
            ++ (0xe2
                ∷ 0x80
                ∷ 0x94
                ∷ (lit " do not summarize, translate, or add commentary. "
                    ++ lit "Output only the extracted content."))))

-- `Vision`; of its `http.Client`, the timeout
pub record Vision : Type 0 where
  -- a `time.Duration`, in nanoseconds
  pub timeout : ℤ
  pub base_url : Text
  pub api_key : Text
  pub model : Text
  pub prompt : Text
  pub max_pages : ℤ

-- 180 seconds, if the given timeout is not positive
abbrev pub effective_timeout : ℤ → ℤ
effective_timeout (negsuc n) = pos 180
effective_timeout (pos zero) = pos 180
effective_timeout (pos (suc n)) = pos (suc n)

-- `time.Duration(seconds) * time.Second`, in the 64 bits of an int64
abbrev pub wrapped : ℕ → ℤ
wrapped n = if ltb n (2 ^ 63) then pos n else negsuc (2 ^ 64 - 1 - n)

abbrev pub duration : ℤ → ℤ
duration (negsuc n) = wrapped ((2 ^ 64 - (n + 1) * 1000000000 % 2 ^ 64) % 2 ^ 64)
duration (pos n) = wrapped (n * 1000000000 % 2 ^ 64)

-- `NewVision`
unfoldable pub new_vision : VisionOcrConfig → Option Vision
new_vision cfg =
    if is_nil cfg.api_key || is_nil cfg.model
    then none
    else some (record {
      timeout = duration (effective_timeout cfg.timeout_sec);
      base_url = trim_right b'/' cfg.base_url;
      api_key = cfg.api_key;
      model = cfg.model;
      prompt = if is_nil cfg.prompt then default_prompt else cfg.prompt;
      max_pages = cfg.max_pages;
    })

-- `chatContent`
pub data ChatContent : Type 0 where
  text : Text → ChatContent
  image_url : Text → ChatContent

-- `chatMessage`
pub record ChatMessage : Type 0 where
  pub role : Text
  pub content : List ChatContent

-- `chatRequest`
pub record ChatRequest : Type 0 where
  pub model : Text
  pub messages : List ChatMessage
  pub stream : Bool

-- the programs, files and encoders that the converter uses
pub record Tools (E : Type 0) : Type 0 where
  pub transport : Transport E
  -- `json.Marshal`, and `json.Decoder.Decode` to the contents of the choices
  pub marshal : ChatRequest → Result Text
  pub decode : ℕ → E → Result (List Text) × E
  -- `base64.StdEncoding.EncodeToString`, and `%q`
  pub base64 : Text → Text
  pub quoted : Text → Text
  -- `pdfinfo -` on its standard input: what it writes, or its error and what it writes to the
  -- standard error
  pub pdfinfo : Text → E → (Result Text × Text) × E
  -- `fmt.Sscanf` with `%d`
  pub scan_int : Text → Option ℤ
  -- `os.MkdirTemp`, `os.RemoveAll`, `os.WriteFile`, `os.ReadFile`
  pub make_dir : E → Result Text × E
  pub remove_all : Text → E → E
  pub write_file : Text → Text → E → Result (Unit {0}) × E
  pub read_file : Text → E → Result Text × E
  -- `filepath.Join`
  pub join_path : Text → Text → Text
  -- `pdftoppm` with its arguments: its error, and what it writes to the standard error
  pub pdftoppm : List Text → E → Option (Error × Text) × E

module _ {E : Type 0} (T : Tools E) (V : Vision) where
  -- the request that carries one page
  unfoldable pub chat_request : Text → ChatRequest
  chat_request png = record {
    model = V.model;
    messages =
        record {
          role = lit "user";
          content = text V.prompt ∷ image_url (lit "data:image/png;base64," ++ T.base64 png) ∷ [];
        }
        ∷ [];
    stream = false;
  }

  abbrev pub first_choice : List Text → Exec E Text
  first_choice [] = fail (opaque (lit "vision model returned no choices"))
  first_choice (content ∷ _) = pure content

  -- the reply to the request
  unfoldable pub transcribed : Response → Exec E Text
  transcribed resp =
      if is_refusal resp.status
      then (observe (T.transport.read_limited 2048 resp.body) >>= λ msg. fail (
          opaque (
            lit "/chat/completions failed (status "
            ++ (decimal resp.status ++ (lit "): " ++ trim_space msg)))))
      else (annotate (lit "decode response") (T.decode resp.body) >>= first_choice)

  -- `ocrImage`
  unfoldable pub ocr_image : Text → Exec E Text
  ocr_image png =
      annotate (lit "marshal chat request") (lift (T.marshal (chat_request png))) >>= λ body.
      formed (lit "new request")
        (T.transport.request_fault (lit "POST") (V.base_url ++ lit "/chat/completions"))
        (annotate (lit "POST /chat/completions") (
            T.transport.send (record {
              method = lit "POST";
              url = V.base_url ++ lit "/chat/completions";
              headers =
                  (lit "Content-Type", lit "application/json")
                  ∷ (lit "Authorization", lit "Bearer " ++ V.api_key)
                  ∷ [];
              body = json body;
            }))
          >>= transcribed)
