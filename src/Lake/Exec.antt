-- ===== src/Lake/Exec.antt =====
-- How the code runs: a step reads and changes the world, and returns, fails with an error, panics,
-- or never returns. The world is the database, the clock, the mutex round the connection, the
-- failures that the database still has in store, and the ids that `Uuid::new_v4` will draw.
use open_mamba.Base.{
  ℕ, suc, String, Bool, true, false, Option, none, some, List, [], ◌∷◌, ℤ, pos, negsuc,
}
use open_mamba.Types.{Uuid, DateTime}
use open_mamba.Lake.Tables.{Db}

pub record World : Type 0 where
  pub db : Db
  pub clock : DateTime
  -- The mutex of `Lake.conn`: not reentrant.
  pub locked : Bool
  -- One entry for each coming SQL statement: whether it fails. After the last they succeed.
  pub faults : List Bool
  pub uuids : ℕ → Uuid

-- An error carries its message. A thread that locks the mutex it holds never returns.
pub data Outcome {ℓ} (A : Type ℓ) : Type ℓ where
  ok : A → Outcome A
  err : String → Outcome A
  panic : Outcome A
  deadlock : Outcome A

abbrev pub Exec : Type 0 → Type 0
Exec A = World → Outcome A × World

module _ {A : Type 0} where
  abbrev pub pure : A → Exec A
  pure a w = (ok a, w)

  abbrev pub fail : String → Exec A
  fail e w = (err e, w)

  abbrev pub crash : Exec A
  crash w = (panic, w)

  -- `let _ = …`, and errors that are only logged: the error is dropped, the effects stay.
  abbrev pub dropped : Outcome A × World → Outcome (Option A) × World
  dropped (ok a, w) = (ok (some a), w)
  dropped (err e, w) = (ok none, w)
  dropped (panic, w) = (panic, w)
  dropped (deadlock, w) = (deadlock, w)

  abbrev pub attempt : Exec A → Exec (Option A)
  attempt m w = dropped (m w)

abbrev pub continue : {A B : Type 0} → Outcome A → (A → Exec B) → Exec B
continue (ok a) f w = f a w
continue (err e) f w = (err e, w)
continue panic f w = (panic, w)
continue deadlock f w = (deadlock, w)

infixl 5 ◌>>=◌ ◌>>◌
abbrev pub ◌>>=◌ : {A B : Type 0} → Exec A → (A → Exec B) → Exec B
◌>>=◌ m f w = let (r, w') = m w in continue r f w'

abbrev pub ◌>>◌ : {A B : Type 0} → Exec A → Exec B → Exec B
m >> k = m >>= λ _. k

abbrev pub catch_outcome : {A B : Type 0} → Outcome A → (A → Exec B) → (String → Exec B) → Exec B
catch_outcome (ok a) f g w = f a w
catch_outcome (err e) f g w = g e w
catch_outcome panic f g w = (panic, w)
catch_outcome deadlock f g w = (deadlock, w)

-- `match m { Ok(a) => …, Err(e) => … }`.
abbrev pub catch : {A B : Type 0} → Exec A → (A → Exec B) → (String → Exec B) → Exec B
catch m f g w = let (r, w') = m w in catch_outcome r f g w'

-- `Utc::now()`, and `now()` in a statement. No time passes within a call.
abbrev pub now : Exec DateTime
now w = (ok w.clock, w)

-- `Uuid::new_v4()`.
abbrev pub new_v4 : Exec Uuid
new_v4 w = (ok (w.uuids 0), record w { uuids = λ n. w.uuids (suc n) })

-- The message of a statement that fails.
abbrev pub database_error : String
database_error = "database error"

abbrev pub run_statement : {A : Type 0} → (Db → A × Db) → List Bool → Exec A
run_statement f [] w = (ok (f w.db).0, record w { db = (f w.db).1 })
run_statement f (true ∷ rest) w = (err database_error, record w { faults = rest })
run_statement f (false ∷ rest) w = (ok (f w.db).0, record w { db = (f w.db).1; faults = rest })

-- One SQL statement: it fails and changes nothing, or it runs whole (DuckDB commits each one).
abbrev pub statement : {A : Type 0} → (Db → A × Db) → Exec A
statement f w = run_statement f w.faults w

abbrev pub query : {A : Type 0} → (Db → A) → Exec A
query f = statement λ d. (f d, d)

abbrev pub execute : (Db → Db) → Exec Unit
execute f = statement λ d. (tt, f d)

-- The rows that an UPDATE or a DELETE reaches are counted by the statement itself.
abbrev pub execute_count : (Db → ℕ) → (Db → Db) → Exec ℕ
execute_count n f = statement λ d. (n d, f d)

abbrev pub accepted : Bool → Exec Unit
accepted true = pure tt
accepted false = fail "Constraint Error"

abbrev pub inserted : Bool → (Db → Db) → Db → Bool × Db
inserted true f d = (false, d)
inserted false f d = (true, f d)

-- An INSERT into a table with a primary key: refused if the key is there.
abbrev pub insert_unique : (Db → Bool) → (Db → Db) → Exec Unit
insert_unique taken f = statement (λ d. inserted (taken d) f d) >>= accepted

abbrev pub release : {A : Type 0} → Outcome A × World → Outcome A × World
release (ok a, w) = (ok a, record w { locked = false })
release (err e, w) = (err e, record w { locked = false })
release (panic, w) = (panic, record w { locked = false })
release (deadlock, w) = (deadlock, w)

abbrev pub locking : {A : Type 0} → Bool → Exec A → Exec A
locking true m w = (deadlock, w)
locking false m w = release (m (record w { locked = true }))

-- `let conn = self.conn.lock().unwrap()` to the end of the scope of the guard.
abbrev pub with_conn : {A : Type 0} → Exec A → Exec A
with_conn m w = locking w.locked m w

-- LIMIT, as text in the statement: the database refuses a negative one.
abbrev pub limited : {A : Type 0} → ℤ → (ℕ → Exec A) → Exec A
limited (pos n) f = f n
limited (negsuc n) f = fail database_error

-- A world between two calls, with no failure in store.
abbrev pub ready : Db → DateTime → (ℕ → Uuid) → World
ready d t ids = record { db = d; clock = t; locked = false; faults = []; uuids = ids }

-- The same with failures to come.
abbrev pub faulty : List Bool → Db → DateTime → (ℕ → Uuid) → World
faulty faults d t ids = record { db = d; clock = t; locked = false; faults = faults; uuids = ids }
