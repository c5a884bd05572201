-- ===== src/Infra/Storage.antt =====
-- infra/s3store/storage.go: object storage. The AWS SDK is a parameter.
use superkb.Base.{ℕ, Bool, Option, none, some, ◌++◌, is_nil, if◌then◌else◌}
use superkb.Base.Text.{Text, lit}
use superkb.Config.{S3Config}
use superkb.Domain.Errors.{Error, Result, sentinel, not_found, annotated}
use superkb.Exec.{Exec, pure, fail, annotate, branch, ◌>>=◌}

-- the options that `New` gives the SDK
pub record ClientOptions : Type 0 where
  pub region : Text
  -- the id and the secret of a static access key
  pub static_credentials : Option (Text × Text)
  pub base_endpoint : Option Text
  pub use_path_style : Bool

unfoldable pub client_options : S3Config → ClientOptions
client_options cfg = record {
  region = cfg.region;
  static_credentials =
      if is_nil cfg.access_key_id then none else some (cfg.access_key_id, cfg.secret_access_key);
  base_endpoint = if is_nil cfg.endpoint then none else some cfg.endpoint;
  use_path_style = cfg.use_path_style;
}

pub record PutObjectInput : Type 0 where
  pub bucket : Text
  pub key : Text
  pub body : Text
  pub content_length : ℕ
  pub content_type : Text

-- the SDK, its clients numbered
pub record Sdk (E : Type 0) : Type 0 where
  pub load_client : ClientOptions → E → Result ℕ × E
  pub put_object : ℕ → PutObjectInput → E → Result (Unit {0}) × E
  -- the bucket and the key, and the reader of the object's body
  pub get_object : ℕ → Text → Text → E → Result ℕ × E
  pub delete_object : ℕ → Text → Text → E → Result (Unit {0}) × E
  pub head_bucket : ℕ → Text → E → Result (Unit {0}) × E
  pub create_bucket : ℕ → Text → E → Result (Unit {0}) × E
  -- `errors.As` at `*types.NoSuchKey`
  pub is_no_such_key : Error → Bool
  -- `%q`
  pub quoted : Text → Text

pub record Storage : Type 0 where
  pub client : ℕ
  pub bucket : Text

module _ {E : Type 0} (A : Sdk E) where
  -- `New`
  unfoldable pub new_storage : S3Config → Exec E Storage
  new_storage cfg =
      annotate (lit "s3: load config") (A.load_client (client_options cfg)) >>= λ client.
      pure (record { client = client; bucket = cfg.bucket })

  module _ (S : Storage) where
    -- `Put`
    unfoldable pub put : Text → Text → ℕ → Text → Exec E (Unit {0})
    put key body size content_type = annotate (lit "s3: put " ++ A.quoted key) (
        A.put_object S.client (record {
          bucket = S.bucket;
          key = key;
          body = body;
          content_length = size;
          content_type = content_type;
        }))

    -- `Get`
    unfoldable pub get : Text → Exec E ℕ
    get key = branch (A.get_object S.client S.bucket key) pure λ e.
        if A.is_no_such_key e
        then fail (sentinel not_found)
        else fail (annotated (lit "s3: get " ++ A.quoted key) e)

    -- `Delete`
    unfoldable pub delete : Text → Exec E (Unit {0})
    delete key =
        annotate (lit "s3: delete " ++ A.quoted key) (A.delete_object S.client S.bucket key)

    -- `EnsureBucket`
    unfoldable pub ensure_bucket : Exec E (Unit {0})
    ensure_bucket = branch (A.head_bucket S.client S.bucket) pure λ _.
        annotate (lit "s3: ensure bucket " ++ A.quoted S.bucket) (A.create_bucket S.client S.bucket)
