-- ===== src/Books/Runs.antt =====
-- How an action changes the books, by how it ends, and the rule for a sequence of actions. The
-- other transactions may commit before every statement; each of them keeps the books.
use wager_ledger.Base.{ℕ, ℤ, ◌+ℤ◌, int_laws, eq-parts, Bool, true, false, Bytes, ◌≡◌, refl}
use wager_ledger.Errors.{Error, Result, ok, err}
use wager_ledger.Postgres.{Db}
use wager_ledger.Usecase.Monad.{
  Env, World, Action, ◌>>=◌, pure, raise, raise_if, lift, method, query, exec, clock, fresh,
  observe, written, close, uow_execute,
}
use wager_ledger.Books.Drift.{IsTable, Drift, Drift-refl, Drift-trans, still}

-- What the other transactions do, whenever they commit: no wallet's balance moves away from its
-- ledger, versions do not fall, and a row changes only with its version.
abbrev pub KeepsBooks : Env → Type 0
KeepsBooks env = (n : ℕ) (db : Db) → IsTable db.wallets → Drift still db (env.others n db)

-- A transaction is under way on proper tables.
pub record Ready (w : World) : Type 0 where
  pub db : IsTable w.db.wallets
  pub base : IsTable w.base.wallets

-- From `w` to `w'` the transaction's view has drifted by `apart`, and the committed state not.
pub record Steps (apart : Bytes → ℤ) (w w' : World) : Type 0 where
  pub view : Drift apart w.db w'.db
  pub base : Drift still w.base w'.base

pub Steps-Ready : {f : Bytes → ℤ} {w w' : World} → Steps f w w' → Ready w'
Steps-Ready s = record { db = s.view.table; base = s.base.table }

pub Steps-refl : (w : World) → Ready w → Steps still w w
Steps-refl w r = record { view = Drift-refl w.db r.db; base = Drift-refl w.base r.base }

pub still_sum : (k : Bytes) → still k +ℤ still k ≡ still k
still_sum k = omega int_laws

pub Steps-trans :
    {f g h : Bytes → ℤ} {a b c : World}
    → Steps f a b
    → Steps g b c
    → ((k : Bytes) → f k +ℤ g k ≡ h k)
    → Steps h a c
Steps-trans s t sums = record {
  view = Drift-trans s.view t.view sums;
  base = Drift-trans s.base t.base still_sum;
}

abbrev EndsOf {ℓ} :
    {A : Type ℓ} → World → (Bytes → ℤ) → (A → World → Type 0) → Result A × World → Type 0
EndsOf w f F (ok a, w') = Steps f w w' × F a w'
EndsOf w f F (err e, w') = Drift still w.base w'.base

-- What was done from `w` to the outcome `x`: it has returned `a` and `F a` holds, with the drift
-- `f` of the transaction's view; or it has failed, and the committed state has not drifted.
pub record Ends {ℓ} {A : Type ℓ} (w : World) (f : Bytes → ℤ) (F : A → World → Type 0)
    (x : Result A × World) : Type 0 where
  pub outcome : EndsOf w f F x

-- What the action `m` does from `w`.
pub record Runs {ℓ} {A : Type ℓ} (w : World) (f : Bytes → ℤ) (F : A → World → Type 0) (m : Action A)
    : Type 0 where
  pub ends : Ends w f F (m w)

Ends-trans {ℓ} :
    {A : Type ℓ} {f g h : Bytes → ℤ} {w w' : World} {F : A → World → Type 0} (x : Result A × World)
    → Steps f w w'
    → ((k : Bytes) → f k +ℤ g k ≡ h k)
    → Ends w' g F x
    → Ends w h F x
Ends-trans (ok a, u) s sums r = record { outcome = (Steps-trans s r.outcome.0 sums, r.outcome.1) }
Ends-trans (err e, u) s sums r = record { outcome = Drift-trans s.base r.outcome still_sum }

-- What follows a first part, by how that ended.
abbrev pub resume {ℓ κ} :
    {A : Type ℓ} {B : Type κ} → (A → Action B) → Result A × World → Result B × World
resume k x = let (r, w') = x in elim r [ ok a ↦ k a w' | err e ↦ (err e, w') ]

resume-Ends {ℓ κ} :
    {A : Type ℓ} {B : Type κ} {f g h : Bytes → ℤ} {F : A → World → Type 0} {G : B → World → Type 0}
    {w : World} (x : Result A × World) (k : A → Action B)
    → ((i : Bytes) → f i +ℤ g i ≡ h i)
    → Ends w f F x
    → ((a : A) (w' : World) → Steps f w w' → F a w' → Runs w' g G (k a))
    → Ends w h G (resume k x)
resume-Ends (ok a, w') k sums r then_ =
    Ends-trans (k a w') r.outcome.0 sums (then_ a w' r.outcome.0 r.outcome.1).ends
resume-Ends (err e, w') k sums r then_ = record { outcome = r.outcome }

-- The rule for a sequence: what follows begins where the first part has returned.
pub sequence {ℓ κ} :
    {A : Type ℓ} {B : Type κ} {f g h : Bytes → ℤ} {F : A → World → Type 0} {G : B → World → Type 0}
    {w : World} (m : Action A) (k : A → Action B)
    → ((i : Bytes) → f i +ℤ g i ≡ h i)
    → Runs w f F m
    → ((a : A) (w' : World) → Steps f w w' → F a w' → Runs w' g G (k a))
    → Runs w h G (m >>= k)
unfolding ◌>>=◌
sequence {w = w} m k sums first then_ = record { ends = resume-Ends (m w) k sums first.ends then_ }

pub still_left : (f : Bytes → ℤ) (k : Bytes) → still k +ℤ f k ≡ f k
still_left f k = omega int_laws

-- The rule where the first part moves no balance.
pub after_still {ℓ κ} :
    {A : Type ℓ} {B : Type κ} {f : Bytes → ℤ} {F : A → World → Type 0} {G : B → World → Type 0}
    {w : World} (m : Action A) (k : A → Action B)
    → Runs w still F m
    → ((a : A) (w' : World) → Ready w' → Steps still w w' → F a w' → Runs w' f G (k a))
    → Runs w f G (m >>= k)
after_still {f = f} m k first then_ =
    sequence m k (still_left f) first (λ a w' s fact. then_ a w' (Steps-Ready s) s fact)

abbrev pub Always {ℓ} : {A : Type ℓ} → A → World → Type 0
Always a w = Unit

module _ {A : Type 0} where
  forget-Ends :
      {f : Bytes → ℤ} {F : A → World → Type 0} (w : World) (x : Result A × World)
      → Ends w f F x
      → Ends w f Always x
  forget-Ends w (ok a, u) r = record { outcome = (r.outcome.0, tt) }
  forget-Ends w (err e, u) r = record { outcome = r.outcome }

  pub forget-Runs :
      {f : Bytes → ℤ} {F : A → World → Type 0} {w : World} {m : Action A}
      → Runs w f F m
      → Runs w f Always m
  forget-Runs {w = w} {m = m} r = record { ends = forget-Ends w (m w) r.ends }

  same-Ends :
      {f g : Bytes → ℤ} {F : A → World → Type 0} (w : World) (x : Result A × World)
      → ((k : Bytes) → f k ≡ g k)
      → Ends w f F x
      → Ends w g F x
  same-Ends w (ok a, u) same r = record {
    outcome = (
      Steps-trans r.outcome.0 (Steps-refl u (Steps-Ready r.outcome.0))
          (λ k. omega (int_laws, eq-parts _ _ (same k))),
      r.outcome.1,
    );
  }
  same-Ends w (err e, u) same r = record { outcome = r.outcome }

  -- The same drift, written in another way.
  pub same-Runs :
      {f g : Bytes → ℤ} {F : A → World → Type 0} {w : World} {m : Action A}
      → ((k : Bytes) → f k ≡ g k)
      → Runs w f F m
      → Runs w g F m
  same-Runs {w = w} {m = m} same r = record { ends = same-Ends w (m w) same r.ends }

  pub pure-Runs : (a : A) (w : World) → Ready w → Runs w still Always (pure a)
  pure-Runs a w r = record { ends = record { outcome = (Steps-refl w r, tt) } }

  pub raise-Runs :
      {f : Bytes → ℤ} {F : A → World → Type 0} (e : Error) (w : World)
      → Ready w
      → Runs w f F (raise e)
  raise-Runs e w r = record { ends = record { outcome = Drift-refl w.base r.base } }

  pub lift-Runs : (x : Result A) (w : World) → Ready w → Runs w still (λ a _. x ≡ ok a) (lift x)
  lift-Runs (ok a) w r = record { ends = record { outcome = (Steps-refl w r, refl) } }
  lift-Runs (err e) w r = record { ends = record { outcome = Drift-refl w.base r.base } }

  pub method-Runs :
      (x : A × Result (Unit {0})) (w : World)
      → Ready w
      → Runs w still (λ a _. x ≡ (a, ok tt)) (method x)
  method-Runs (a, ok u) w r = record { ends = record { outcome = (Steps-refl w r, refl) } }
  method-Runs (a, err e) w r = record { ends = record { outcome = Drift-refl w.base r.base } }

pub raise_if-Runs :
    (c : Bool) (e : Error) (w : World) → Ready w → Runs w still Always (raise_if c e)
raise_if-Runs true e w r = raise-Runs e w r
raise_if-Runs false e w r = pure-Runs tt w r

module _ (env : Env) (keeps : KeepsBooks env) where
  pub observe-Steps : (w : World) → Ready w → Steps still w (observe env w)
  unfolding observe
  observe-Steps w r = record { view = keeps w.tick w.db r.db; base = keeps w.tick w.base r.base }

  pub fresh-Runs : (w : World) → Ready w → Runs w still Always (fresh env)
  unfolding fresh
  fresh-Runs w r = record {
    ends = record {
      outcome = (record { view = Drift-refl w.db r.db; base = Drift-refl w.base r.base }, tt);
    };
  }

  pub clock-Runs : (w : World) → Ready w → Runs w still Always (clock env)
  unfolding clock
  clock-Runs w r = record { ends = record { outcome = (Steps-refl w r, tt) } }

  read-Ends :
      {A : Type 0} (f : Db → Result A) (x : Result A) (w : World)
      → Ready w
      → f (observe env w).db ≡ x
      → Ends w still (λ a w'. f w'.db ≡ ok a) (x, observe env w)
  read-Ends f (ok a) w r e = record { outcome = (observe-Steps w r, e) }
  read-Ends f (err er) w r e = record { outcome = (observe-Steps w r).base }

  -- A read: what it returns is read from the transaction's view.
  pub query-Runs :
      {A : Type 0} (f : Db → Result A) (w : World)
      → Ready w
      → Runs w still (λ a w'. f w'.db ≡ ok a) (query env f)
  unfolding query
  query-Runs f w r = record { ends = read-Ends f (f (observe env w).db) w r refl }

  viewed-Ends :
      {A : Type 0} (f : Db → Result A) (x : Result A) (w : World)
      → Ready w
      → f (observe env w).db ≡ x
      → Ends w still (λ a _. f (env.others w.tick w.db) ≡ ok a) (x, observe env w)
  unfolding observe
  viewed-Ends f (ok a) w r e = record { outcome = (observe-Steps w r, e) }
  viewed-Ends f (err er) w r e = record { outcome = (observe-Steps w r).base }

  -- A read, with the view that it saw named.
  pub viewed-Runs :
      {A : Type 0} (f : Db → Result A) (w : World)
      → Ready w
      → Runs w still (λ a _. f (env.others w.tick w.db) ≡ ok a) (query env f)
  unfolding query observe
  viewed-Runs f w r = record { ends = viewed-Ends f (f (observe env w).db) w r refl }

  written-Ends :
      {apart : Bytes → ℤ} (f : Db → Result Db) (x : Result Db) (w : World)
      → Ready w
      → f (observe env w).db ≡ x
      → ((db : Db) → f (observe env w).db ≡ ok db → Drift apart (observe env w).db db)
      → Ends w apart Always (written env (observe env w) x)
  unfolding written
  written-Ends {apart} f (ok db) w r e drift =
      let o = observe-Steps w r in
      record {
        outcome = (
          record { view = Drift-trans o.view (drift db e) (still_left apart); base = o.base },
          tt,
        );
      }
  written-Ends f (err er) w r e drift = record { outcome = (observe-Steps w r).base }

  -- A write, by its drift from the view on which it runs.
  pub exec-Runs :
      {apart : Bytes → ℤ} (f : Db → Result Db) (w : World)
      → Ready w
      → ((db db' : Db) → Drift still w.db db → f db ≡ ok db' → Drift apart db db')
      → Runs w apart Always (exec env f)
  unfolding exec
  exec-Runs f w r drift = record {
    ends =
        written-Ends f (f (observe env w).db) w r refl
          (λ db e. drift (observe env w).db db (observe-Steps w r).view e);
  }

closed :
    {A : Type 0} {F : A → World → Type 0} (w : World) (x : Result A × World)
    → Ends (record w { db = w.base }) still F x
    → Drift still w.base (close x).1.base
unfolding close
closed w (ok a, w') r = r.outcome.0.view
closed w (err e, w') r = r.outcome

committed :
    {A : Type 0} {f : Bytes → ℤ} (G : Db → Type 0) (w : World) (x : Result A × World) {a : A}
    → Ends w f (λ a u. G u.db) x
    → (close x).0 ≡ ok a
    → G (close x).1.base
unfolding close
committed G w (ok a, u) r h = r.outcome.1
committed G w (err e, u) r h = cc

-- What an action establishes of its tables holds of the committed ones, if it returns.
pub uow_execute-committed :
    {A : Type 0} {f : Bytes → ℤ} (G : Db → Type 0) (m : Action A) (w : World) {a : A}
    → Runs (record w { db = w.base }) f (λ a u. G u.db) m
    → (uow_execute m w).0 ≡ ok a
    → G (uow_execute m w).1.base
unfolding uow_execute
uow_execute-committed G m w r h =
    committed G (record w { db = w.base }) (m (record w { db = w.base })) r.ends h

-- A transaction that keeps the books, committed or rolled back, leaves them kept.
pub uow_execute-Drift :
    {A : Type 0} {F : A → World → Type 0} (m : Action A) (w : World)
    → Runs (record w { db = w.base }) still F m
    → Drift still w.base (uow_execute m w).1.base
unfolding uow_execute
uow_execute-Drift m w r = closed w (m (record w { db = w.base })) r.ends
