-- ===== src/World/Calls.antt =====
-- Calls of the outside world, and statements to the database, as methods over the world.
use superkb.Base.{Option, none, some}
use superkb.Base.Text.{Text}
use superkb.Domain.Errors.{Error, Result, ok, err, annotated}
use superkb.Exec.{Exec}
use superkb.Postgres.Tables.{Db}
use superkb.World.{World, Ports}

-- a method over the world
abbrev pub M : Type 0 → Type 0 → Type 0
M E A = Exec (World E) A

module _ {E A : Type 0} where
  abbrev pub put_ext : World E → Result A × E → Result A × World E
  put_ext w (r, x) = (r, record w { ext = x })

  -- a call that may fail
  unfoldable pub call : (E → Result A × E) → M E A
  call f w = put_ext w (f w.ext)

  abbrev pub put_value : World E → A × E → Result A × World E
  put_value w (a, x) = (ok a, record w { ext = x })

  -- a call that cannot fail
  unfoldable pub ask : (E → A × E) → M E A
  ask f w = put_value w (f w.ext)

  -- `pool.Query` and `pool.QueryRow`: the rows, or the fault with its prefix
  abbrev pub read : Text → (Db → Result A) → World E → Option Error × E → Result A × World E
  read before f w (none, x) = (f w.db, record w { ext = x })
  read before f w (some e, x) = (err (annotated before e), record w { ext = x })

  unfoldable pub query : Ports E → Text → (Db → Result A) → M E A
  query P before f w = read before f w (P.sql_fault w.ext)

module _ {E : Type 0} where
  abbrev pub commit : World E → E → Result Db → Result (Unit {0}) × World E
  commit w x (ok db) = (ok tt, record w { db = db; ext = x })
  commit w x (err e) = (err e, record w { ext = x })

  abbrev pub write :
      Text → (Db → Result Db) → World E → Option Error × E → Result (Unit {0}) × World E
  write before f w (none, x) = commit w x (f w.db)
  write before f w (some e, x) = (err (annotated before e), record w { ext = x })

  -- `pool.Exec`: the statement changes the tables, or is refused and changes nothing
  unfoldable pub execute : Ports E → Text → (Db → Result Db) → M E (Unit {0})
  execute P before f w = write before f w (P.sql_fault w.ext)
