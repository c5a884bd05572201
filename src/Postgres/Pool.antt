-- ===== src/Postgres/Pool.antt =====
-- infra/postgres/pool.go: `NewPool` and `Migrate`. pgx is a parameter.
use Prim.Native.Nat.{◌%◌, ◌^◌}
use superkb.Base.{ℕ, ◌*◌, ◌||◌, if◌then◌else◌, ltb, leb}
use superkb.Base.Text.{Text, lit}
use superkb.Domain.Errors.{Error, Result, annotated}
use superkb.Exec.{Exec, pure, fail, lift, annotate, branch, ◌>>=◌}

-- `pgxpool.Config`: what it is parsed of, by number, with its sizes
pub record PoolConfig : Type 0 where
  pub parsed : ℕ
  pub max_conns : ℕ
  pub min_conns : ℕ

pub record Pgx (E : Type 0) : Type 0 where
  -- `runtime.NumCPU`
  pub cpus : ℕ
  pub parse_config : Text → Result PoolConfig
  -- the pools are numbered
  pub new_with_config : PoolConfig → E → Result ℕ × E
  pub ping : ℕ → E → Result (Unit {0}) × E
  pub close : ℕ → E → E
  -- `pool.Exec` of the schema
  pub exec_schema : ℕ → E → Result (Unit {0}) × E

-- `int32(4 * runtime.NumCPU())`, and 10 where that is smaller, as a negative number is
unfoldable pub max_connections : ℕ → ℕ
max_connections cpus = let n = 4 * cpus % 2 ^ 32 in if ltb n 10 || leb (2 ^ 31) n then 10 else n

module _ {E : Type 0} (G : Pgx E) where
  abbrev pub sized : PoolConfig → PoolConfig
  sized cfg = record cfg { max_conns = max_connections G.cpus; min_conns = 2 }

  -- `pool.Close()` behind a `Ping` that failed
  abbrev pub closed : ℕ → Error → Exec E ℕ
  closed pool e x = fail (annotated (lit "postgres: ping") e) (G.close pool x)

  -- `NewPool`
  unfoldable pub new_pool : Text → Exec E ℕ
  new_pool dsn = annotate (lit "postgres: parse config") (lift (G.parse_config dsn)) >>= λ cfg.
      annotate (lit "postgres: new pool") (G.new_with_config (sized cfg)) >>= λ pool.
      branch (G.ping pool) (λ _. pure pool) (closed pool)

  -- `Migrate`
  unfoldable pub migrate : ℕ → Exec E (Unit {0})
  migrate pool = annotate (lit "postgres: migrate") (G.exec_schema pool)
