-- ===== src/Usecase/Monad.antt =====
-- A use case as an action: a Go function that runs SQL statements in one transaction, with an error
-- as a value. The isolation is READ COMMITTED, Postgres's default, which `pool.Begin` asks for:
-- before each statement the commits of other transactions become visible.
use wager_ledger.Base.{ℕ, ◌+◌, Bool, true, false, Bytes, Option, none, some}
use wager_ledger.Errors.{Error, PortsError, ports, Result, ok, err}
use wager_ledger.Wallet.{Time}
use wager_ledger.Postgres.{Db}

-- What the use cases take from outside: the supply of identifiers (google/uuid), the clock,
-- SHA-256 in hexadecimal, the JSON text of a string (encoding/json), and what the other
-- transactions commit before the statement with a given number.
pub record Env : Type 0 where
  pub new_id : ℕ → Bytes
  pub now : ℕ → Time
  pub sha256_hex : Bytes → Bytes
  pub json_string : Bytes → Bytes
  pub others : ℕ → Db → Db

-- `db` is what the transaction sees: the committed tables `base` with its own writes. `tick` counts
-- the statements, and `next_id` the identifiers taken.
pub record World : Type 0 where
  pub db : Db
  pub base : Db
  pub tick : ℕ
  pub next_id : ℕ

abbrev pub Action {ℓ} : Type ℓ → Type ℓ
Action A = World → Result A × World

infixl 5 ◌>>=◌ ◌>>◌
unfoldable pub ◌>>=◌ {ℓ κ} : {A : Type ℓ} {B : Type κ} → Action A → (A → Action B) → Action B
◌>>=◌ m f w = let (r, w') = m w in elim r [ ok a ↦ f a w' | err e ↦ (err e, w') ]

abbrev pub ◌>>◌ {ℓ} : {B : Type ℓ} → Action (Unit {0}) → Action B → Action B
m >> k = m >>= λ _. k

module _ {ℓ} {A : Type ℓ} where
  abbrev pub pure : A → Action A
  pure a w = (ok a, w)

  abbrev pub raise : Error → Action A
  raise e w = (err e, w)

  abbrev pub lift : Result A → Action A
  lift r w = (r, w)

  -- A call of a method on an object: the changed object, or the error.
  abbrev pub method : A × Result (Unit {0}) → Action A
  method (a, ok u) = pure a
  method (a, err e) = raise e

  -- `err != nil && !errors.Is(err, ports.ErrNotFound)` returns the error; a missing row is `none`.
  abbrev pub found : Result A → Result (Option A)
  found (ok a) = ok (some a)
  found (err (ports PortsError.not_found)) = ok none
  found (err e) = err e

abbrev pub raise_if : Bool → Error → Action (Unit {0})
raise_if true e = raise e
raise_if false e = pure tt

module _ (env : Env) where
  -- The commits that become visible before a statement.
  unfoldable pub observe : World → World
  observe w = record w {
    db = env.others w.tick w.db;
    base = env.others w.tick w.base;
    tick = w.tick + 1;
  }

  -- what a statement outside every transaction sees: the committed tables
  unfoldable pub on_pool : World → World
  unfolding observe
  on_pool w = observe (record w { db = w.base })

  unfoldable pub query {ℓ} : {A : Type ℓ} → (Db → Result A) → Action A
  query f w = (f (observe w).db, observe w)

  -- the tables that a write leaves, and those it found where it fails
  unfoldable pub written : World → Result Db → Result (Unit {0}) × World
  written w (ok db) = (ok tt, record w { db = db })
  written w (err e) = (err e, w)

  unfoldable pub exec : (Db → Result Db) → Action (Unit {0})
  unfolding written
  exec f w = written (observe w) (f (observe w).db)

  -- `uc.now().UTC()`
  unfoldable pub clock : Action Time
  clock w = (ok (env.now w.tick), w)

  -- `uc.idGen.NewID()`
  unfoldable pub fresh : Action Bytes
  fresh w = (ok (env.new_id w.next_id), record w { next_id = w.next_id + 1 })

-- the end of a transaction: a commit, or a rollback
unfoldable pub close {ℓ} : {A : Type ℓ} → Result A × World → Result A × World
close (ok a, w) = (ok a, record w { base = w.db })
close (err e, w) = (err e, record w { db = w.base })

-- internal/infra/postgres/txmanager.go: `WithinTx`. That Begin and Commit succeed is assumed.
unfoldable pub uow_execute {ℓ} : {A : Type ℓ} → Action A → Action A
unfolding close
uow_execute m w = close (m (record w { db = w.base }))
