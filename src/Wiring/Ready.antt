-- ===== src/Wiring/Ready.antt =====
-- cmd/api/main.go: what holds of the parts of a program that has started.
use superkb.Base.{
  zero, suc, ◌≤◌, ◌≡◌, ◌≢◌, ◌⊎◌, inl, inr, refl, arith, false, Option, none, some, [], ◌∷◌, is_nil,
  if◌then◌else◌, Bool-cases,
}
use superkb.Base.Int.{ℤ, pos, negsuc}
use superkb.Base.Text.{Text, lit}
use superkb.Config.{Config, Environment, HindsightConfig, VisionOcrConfig, load}
use superkb.Config.Loading.{load-HasCredentials}
use superkb.Domain.Errors.{ok}
use superkb.Infra.Hindsight.{new_indexer}
use superkb.Infra.Storage.{Storage}
use superkb.Infra.Vision.{Vision, new_vision, default_prompt}
use superkb.Rules.Queue.{IsBounded, new_channel_build_queue-IsBounded}
use superkb.Usecase.Worker.{worker_count}
use superkb.Wiring.{App, assemble}

-- a converter that has what its requests carry
abbrev pub IsUsable : Option Vision → Type 0
IsUsable none = Unit {0}
IsUsable (some V) =
    (is_nil V.api_key ≡ false) × (is_nil V.model ≡ false) × (is_nil V.prompt ≡ false)

pub record IsReady (app : App) : Type 0 where
  pub queue : IsBounded app.queue
  pub workers : 1 ≤ app.workers
  pub base_url : is_nil app.indexer.base_url ≡ false
  pub profile : is_nil app.indexer.profile ≡ false
  pub vision : IsUsable app.vision
  pub credentials :
      (app.auth.enabled ≡ false) ⊎ ((app.auth.username ≢ []) × (app.auth.password ≢ []))

worker_count-positive : (n : ℤ) → 1 ≤ worker_count n
unfolding worker_count
worker_count-positive (negsuc n) = omega arith
worker_count-positive (pos zero) = omega arith
worker_count-positive (pos (suc n)) = omega arith

-- a text, or a default where it is empty
or_default-set :
    (s default : Text) → is_nil default ≡ false → is_nil (if is_nil s then default else s) ≡ false
or_default-set [] default h = h
or_default-set (c ∷ s) default h = refl

profile-set : (cfg : HindsightConfig) → is_nil (new_indexer cfg).profile ≡ false
unfolding new_indexer lit
profile-set cfg = or_default-set cfg.profile (lit "default") refl

new_vision-IsUsable : (cfg : VisionOcrConfig) → IsUsable (new_vision cfg)
unfolding new_vision lit
new_vision-IsUsable cfg = elim (Bool-cases (is_nil cfg.api_key)) [
  | inl no_key ↦ rw no_key tt
  | inr key ↦ elim (Bool-cases (is_nil cfg.model)) [
    | inl no_model ↦ rw (key, no_model) tt
    | inr model ↦ rw (key, model) (key, model, or_default-set cfg.prompt default_prompt refl)
  ]
]

-- The parts of a program that starts, whatever its environment: the queue has a place and no more
-- builds than places, there is a worker, the indexer has an address and a profile, the converter, if
-- there is one, has a key, a model and a prompt, and the authentication is switched off
-- or has a user name and a password.
pub assemble-IsReady :
    (e : Environment) (cfg : Config) (storage : Storage)
    → load e ≡ ok cfg
    → IsReady (assemble cfg storage)
unfolding assemble new_indexer
assemble-IsReady e cfg storage started =
    let (base_url, credentials) = load-HasCredentials e cfg started in
    record {
      queue = new_channel_build_queue-IsBounded cfg.worker.queue_size;
      workers = worker_count-positive cfg.worker.concurrency;
      base_url = base_url;
      profile = profile-set cfg.hindsight;
      vision = new_vision-IsUsable cfg.vision_ocr;
      credentials = credentials;
    }
