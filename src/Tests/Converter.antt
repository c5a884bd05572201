-- ===== src/Tests/Converter.antt =====
-- The converter, with a model that answers with the number of the request.
use superkb.Base.{ℕ, ◌+◌, ◌≡◌, ◌≤◌, refl, none, some, [], ◌∷◌}
use superkb.Base.Int.{pos}
use superkb.Base.Text.{Text, lit}
use superkb.Base.Text.Strings.{
  is_blank, trim_space, trim_front, has_prefix, has_suffix, contains, to_lower, split_on,
  without_prefix,
}
use superkb.Base.Text.Decimal.{atoi, scan_number, scan_digits}
use superkb.Domain.Errors.{ok}
use superkb.Exec.{pure, fail, lift, observe, annotate, ◌>>=◌}
use superkb.Infra.Http.{is_refusal}
use superkb.Infra.Pages.{pdf, document_kind, join_pages, form_feed}
use superkb.Infra.Vision.{Vision, Tools, chat_request, transcribed, ocr_image}
use superkb.Infra.Vision.Rasterizing.{
  capped, find_count, pdf_page_count, rasterize_page, rasterize_pages, rasterize_pdf,
}
use superkb.Infra.Vision.Converting.{ocr_pages, convert_pages, convert}
use superkb.Rules.Rendering.{Within, rasterize_pdf-Within}
use superkb.Rules.Vision.{Converted, as_pdf, page_read, all_read}

abbrev pub tools : Tools ℕ
tools = record {
  transport = record {
    request_fault = λ method url. none;
    send = λ req n. (ok (record { status = 200; body = n }), n + 1);
    read_limited = λ limit body n. ([], n);
  };
  marshal = λ req. ok (lit "{}");
  decode = λ body n. (ok (((b'a' + body) ∷ []) ∷ []), n);
  base64 = λ s. s;
  quoted = λ s. s;
  pdfinfo = λ content n. ((ok (lit "Title: x\nPages: 3\n"), []), n);
  scan_int = atoi;
  make_dir = λ n. (ok (lit "/tmp/d"), n);
  remove_all = λ dir n. n;
  write_file = λ path content n. (ok tt, n);
  read_file = λ path n. (ok (lit "png"), n);
  join_path = λ dir name. dir;
  pdftoppm = λ args n. (none, n);
}

-- at most two pages
abbrev vision : Vision
vision = record {
  timeout = pos 180000000000;
  base_url = lit "http://v";
  api_key = lit "k";
  model = lit "m";
  prompt = [];
  max_pages = pos 2;
}

rendered : rasterize_pdf tools vision (lit "%PDF-") 0 ≡ (ok (lit "png" ∷ lit "png" ∷ []), 0)
unfolding rasterize_pdf pdf_page_count find_count rasterize_pages rasterize_page capped split_on
    has_prefix without_prefix trim_space trim_front atoi scan_number scan_digits pure fail lift
    observe annotate ◌>>=◌ lit
rendered = refl

rasterize_pdf-Within_example : (1 ≤ 2) × Within (pos 2) 2
rasterize_pdf-Within_example =
    rasterize_pdf-Within tools vision (lit "%PDF-") (lit "png" ∷ lit "png" ∷ []) 0 0 rendered

-- the answers to two pages
abbrev answer : Text
answer = b'a' ∷ form_feed ∷ b'b' ∷ []

answered :
    convert tools vision (lit "%PDF-") (lit "application/pdf") (lit "x") 0 ≡ (ok (some answer), 2)
unfolding convert document_kind contains has_suffix to_lower convert_pages ocr_pages ocr_image
    transcribed chat_request is_refusal join_pages is_blank rasterize_pdf pdf_page_count find_count
    rasterize_pages rasterize_page capped split_on has_prefix without_prefix trim_space trim_front
    atoi scan_number scan_digits pure fail lift observe annotate ◌>>=◌ lit
answered = refl

conversion : Converted tools vision pdf (lit "%PDF-") answer 0 2
unfolding ocr_image transcribed chat_request is_refusal join_pages is_blank pure fail lift observe
    annotate ◌>>=◌ lit
conversion = record {
  pngs = lit "png" ∷ lit "png" ∷ [];
  texts = (b'a' ∷ []) ∷ (b'b' ∷ []) ∷ [];
  paged_at = 0;
  paged = as_pdf rendered;
  read = page_read refl (page_read refl all_read);
  joined = refl;
  not_blank = refl;
}
