-- ===== src/Config/Loading.antt =====
-- config/config.go: which environments are accepted, and what the program runs with.
use mathlib.Core.List.{cons-ne-nil}
use superkb.Base.{
  ◌≡◌, ◌≢◌, ◌↔◌, ◌⊎◌, inl, inr, refl, sym, subst, Bool, true, false, ◌&&◌, ◌||◌, Option, none, some,
  [], ◌∷◌, arith, is_nil, if◌then◌else◌,
}
use superkb.Base.Text.{Text, lit}
use superkb.Config.{Config, Environment, non_empty_or, env, read_config, checked, load}
use superkb.Domain.Errors.{Error, ok, err}

-- HTTP basic auth is off, or has a user name and a password.
abbrev pub HasCredentials : Config → Type 0
HasCredentials cfg =
    (cfg.auth.enabled ≡ false) ⊎ ((cfg.auth.username ≢ []) × (cfg.auth.password ≢ []))

is_nil-ne : (s : Text) → s ≢ [] → is_nil s ≡ false
is_nil-ne [] h = absurd (h refl)
is_nil-ne (c ∷ s) h = refl

-- the check of the credentials alone
barred_iff :
    (b : Bool) (user pass : Text)
    → ((b && (is_nil user || is_nil pass)) ≡ false) ↔ ((b ≡ false) ⊎ ((user ≢ []) × (pass ≢ [])))
barred_iff false user pass = (λ _. inl refl, λ _. refl)
barred_iff true [] pass = (λ h. cc, λ h. elim h [ inl e ↦ cc | inr k ↦ absurd (k.0 refl) ])
barred_iff true (c ∷ user) [] = (λ h. cc, λ h. elim h [ inl e ↦ cc | inr k ↦ absurd (k.1 refl) ])
barred_iff true (c ∷ user) (d ∷ pass) =
    (λ _. inr (cons-ne-nil c user, cons-ne-nil d pass), λ _. refl)

let_through_iff :
    (b : Bool) (e : Error) (cfg : Config) → ((if b then err e else ok cfg) ≡ ok cfg) ↔ (b ≡ false)
let_through_iff true e cfg = ground arith
let_through_iff false e cfg = ground arith

checked_iff :
    (cfg : Config)
    → is_nil cfg.hindsight.base_url ≡ false
    → (checked cfg ≡ ok cfg) ↔ HasCredentials cfg
unfolding checked
checked_iff cfg h =
    let credentials = barred_iff cfg.auth.enabled cfg.auth.username cfg.auth.password in
    let let_through =
      let_through_iff (cfg.auth.enabled && (is_nil cfg.auth.username || is_nil cfg.auth.password)) _
        cfg in
    rw h (λ k. credentials.0 (let_through.0 k), λ k. let_through.1 (credentials.1 k))

non_empty_or-ne :
    (default : Text) (o : Option Text)
    → is_nil default ≡ false
    → is_nil (non_empty_or default o) ≡ false
non_empty_or-ne default none h = h
non_empty_or-ne default (some []) h = h
non_empty_or-ne default (some (c ∷ s)) h = refl

-- `Load` succeeds exactly if HTTP basic auth is switched off or both of its credentials are set;
-- no value of another variable, and no variable that is missing, makes it fail.
pub load_iff : (e : Environment) → (load e ≡ ok (read_config e)) ↔ HasCredentials (read_config e)
unfolding load read_config env lit
load_iff e = checked_iff (read_config e) (non_empty_or-ne _ (e _) refl)

checked-same : (cfg cfg' : Config) → checked cfg ≡ ok cfg' → cfg ≡ cfg'
unfolding checked
checked-same cfg cfg' h = ground arith

pub load-same : (e : Environment) (cfg : Config) → load e ≡ ok cfg → read_config e ≡ cfg
unfolding load
load-same e cfg = checked-same (read_config e) cfg

-- `Load` returns an indexer to call, and a pair of credentials that it checks.
pub load-HasCredentials :
    (e : Environment) (cfg : Config)
    → load e ≡ ok cfg
    → (is_nil cfg.hindsight.base_url ≡ false) × HasCredentials cfg
unfolding read_config env lit
load-HasCredentials e cfg started =
    let same = load-same e cfg started in
    (
      subst (λ c. is_nil c.hindsight.base_url ≡ false) same (non_empty_or-ne _ (e _) refl),
      subst HasCredentials same ((load_iff e).0 (subst (λ c. load e ≡ ok c) (sym same) started)),
    )
