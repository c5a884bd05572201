-- ===== src/Config/Guarding.antt =====
-- config/config.go with delivery/http/auth.go: the API of a program that has started.
use superkb.Base.{
  ◌≡◌, ◌≢◌, inl, inr, sym, subst, refl, Bool, true, false, Option, none, some, [], ◌∷◌,
}
use superkb.Base.Text.{Text, lit}
use superkb.Config.{Config, Environment, parsed_or, env_bool, parse_bool, read_config, load}
use superkb.Config.Loading.{HasCredentials, load_iff, load-same}
use superkb.Delivery.Api.{Route, receive_request}
use superkb.Domain.Errors.{ok}
use superkb.Lifecycle.Api.{receive_request-denied}
use superkb.World.{World, Ports}

-- `AUTH_ENABLED` is set to a word that switches the authentication off.
abbrev pub IsOpen : Environment → Type 0
IsOpen e = (v : Text) × (e (lit "AUTH_ENABLED") ≡ some v) × (parse_bool v ≡ some false)

word-enabled : (o : Option Bool) → o ≢ some false → (elim o [ some b ↦ b | none ↦ true ]) ≡ true
word-enabled none h = refl
word-enabled (some true) h = refl
word-enabled (some false) h = absurd (h refl)

parsed_or-enabled :
    (o : Option Text)
    → ¬ ((v : Text) × (o ≡ some v) × (parse_bool v ≡ some false))
    → parsed_or parse_bool true o ≡ true
parsed_or-enabled none h = refl
parsed_or-enabled (some []) h = refl
parsed_or-enabled (some (c ∷ s)) h = word-enabled (parse_bool (c ∷ s)) (λ k. h (c ∷ s, refl, k))

read_config-enabled : (e : Environment) → ¬ IsOpen e → (read_config e).auth.enabled ≡ true
unfolding read_config env_bool
read_config-enabled e shut = parsed_or-enabled (e (lit "AUTH_ENABLED")) shut

both_set :
    (cfg : Config)
    → cfg.auth.enabled ≡ true
    → HasCredentials cfg
    → (cfg.auth.username ≢ []) × (cfg.auth.password ≢ [])
both_set cfg on (inl off) = cc
both_set cfg on (inr set) = set

module _ {E : Type 0} (P : Ports E) where
  -- Unless `AUTH_ENABLED` is set to one of the words that Go reads as false, a program that starts
  -- has a user name and a password that are not empty, and answers every request for a route of
  -- `/api/v1` that does not carry exactly these with 401, changing nothing. (`/healthz` is open.)
  pub load-denied :
      (e : Environment) (cfg : Config) (credentials : Option (Text × Text)) (r : Route)
      (w : World E)
      → load e ≡ ok cfg
      → ¬ IsOpen e
      → credentials ≢ some (cfg.auth.username, cfg.auth.password)
      → (cfg.auth.username ≢ [])
        × (cfg.auth.password ≢ [])
        × ((receive_request P cfg.auth.enabled cfg.auth.username cfg.auth.password credentials r
              w).1
            ≡ w)
        × ((receive_request P cfg.auth.enabled cfg.auth.username cfg.auth.password credentials r
              w).0.status
            ≡ 401)
  load-denied e cfg credentials r w started shut other =
      let same = load-same e cfg started in
      let on : cfg.auth.enabled ≡ true =
        subst (λ c. c.auth.enabled ≡ true) same (read_config-enabled e shut) in
      let set = both_set cfg on (
        subst HasCredentials same
          ((load_iff e).0 (subst (λ c. load e ≡ ok c) (sym same) started))) in
      let barred =
        receive_request-denied P cfg.auth.username cfg.auth.password credentials r w other in
      (set.0, set.1, rw on barred.0, rw on barred.1)
