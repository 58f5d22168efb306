-- ===== src/Lake/Keeps.antt =====
-- Invariants of the database, one rule for each way to build a step. They hold whatever statements
-- fail, and also where the step panics or blocks.
use open_mamba.Base.{ℕ, Bool, true, false, String, List, [], ◌∷◌, if◌then◌else◌}
use open_mamba.Lake.Tables.{Db}
use open_mamba.Lake.Exec.{
  Exec, World, Outcome, ok, err, panic, deadlock, pure, fail, crash, attempt, dropped, now, new_v4,
  statement, run_statement, query, execute, execute_count, insert_unique, inserted, accepted,
  with_conn, locking, release, continue, catch, catch_outcome, ◌>>=◌,
}

-- The step leads from a database with the property to one with the property.
pub record Keeps {A : Type 0} (P : Db → Type 0) (m : Exec A) : Type 0 where
  pub at : (w : World) → P w.db → P (m w).1.db

record At (P : Db → Type 0) (d : Db) : Type 0 where
  here : P d

module _ {A : Type 0} where
  dropped-db : (Q : Db → Type 0) (o : Outcome A × World) → Q o.1.db → Q (dropped o).1.db
  dropped-db Q (ok a, w) h = h
  dropped-db Q (err e, w) h = h
  dropped-db Q (panic, w) h = h
  dropped-db Q (deadlock, w) h = h

  release-db : (Q : Db → Type 0) (o : Outcome A × World) → Q o.1.db → Q (release o).1.db
  release-db Q (ok a, w) h = h
  release-db Q (err e, w) h = h
  release-db Q (panic, w) h = h
  release-db Q (deadlock, w) h = h

module _ {A : Type 0} {P : Db → Type 0} where
  pub Keeps-pure : (a : A) → Keeps P (pure a)
  Keeps-pure a = record { at = λ w h. h }

  pub Keeps-fail : (e : String) → Keeps P (fail {A = A} e)
  Keeps-fail e = record { at = λ w h. h }

  pub Keeps-crash : Keeps P (crash {A = A})
  Keeps-crash = record { at = λ w h. h }

  pub Keeps-attempt : (m : Exec A) → Keeps P m → Keeps P (attempt m)
  Keeps-attempt m k = record { at = λ w h. dropped-db P (m w) (k.at w h) }

  locking-db : (b : Bool) (m : Exec A) (w : World) → Keeps P m → P w.db → P (locking b m w).1.db
  locking-db true m w k h = h
  locking-db false m w k h = release-db P (m (record w { locked = true })) (k.at _ h)

  pub Keeps-with_conn : (m : Exec A) → Keeps P m → Keeps P (with_conn m)
  Keeps-with_conn m k = record { at = λ w h. locking-db w.locked m w k h }

  run_statement-db :
      (f : Db → A × Db) (faults : List Bool) (w : World)
      → ((d : Db) → P d → P (f d).1)
      → P w.db
      → P (run_statement f faults w).1.db
  run_statement-db f [] w k h = k w.db h
  run_statement-db f (true ∷ rest) w k h = h
  run_statement-db f (false ∷ rest) w k h = k w.db h

  pub Keeps-statement : (f : Db → A × Db) → ((d : Db) → P d → P (f d).1) → Keeps P (statement f)
  Keeps-statement f k = record { at = λ w h. run_statement-db f w.faults w k h }

  pub Keeps-query : (f : Db → A) → Keeps P (query f)
  Keeps-query f = Keeps-statement (λ d. (f d, d)) (λ d h. h)

  pub Keeps-if : (b : Bool) (m n : Exec A) → Keeps P m → Keeps P n → Keeps P (if b then m else n)
  Keeps-if true m n km kn = km
  Keeps-if false m n km kn = kn

module _ {P : Db → Type 0} where
  pub Keeps-now : Keeps P now
  Keeps-now = record { at = λ w h. h }

  pub Keeps-new_v4 : Keeps P new_v4
  Keeps-new_v4 = record { at = λ w h. h }

  pub Keeps-execute : (f : Db → Db) → ((d : Db) → P d → P (f d)) → Keeps P (execute f)
  Keeps-execute f k = Keeps-statement (λ d. (tt, f d)) k

  pub Keeps-execute_count :
      (n : Db → ℕ) (f : Db → Db) → ((d : Db) → P d → P (f d)) → Keeps P (execute_count n f)
  Keeps-execute_count n f k = Keeps-statement (λ d. (n d, f d)) k

module _ {A B : Type 0} {P : Db → Type 0} where
  continue-db :
      (o : Outcome A × World) (f : A → Exec B)
      → ((a : A) → Keeps P (f a))
      → P o.1.db
      → P (continue o.0 f o.1).1.db
  continue-db (ok a, w) f k h = (k a).at w h
  continue-db (err e, w) f k h = h
  continue-db (panic, w) f k h = h
  continue-db (deadlock, w) f k h = h

  pub Keeps-bind :
      (m : Exec A) (f : A → Exec B) → Keeps P m → ((a : A) → Keeps P (f a)) → Keeps P (m >>= f)
  Keeps-bind m f km kf = record { at = λ w h. continue-db (m w) f kf (km.at w h) }

  catch-db :
      (o : Outcome A × World) (f : A → Exec B) (g : String → Exec B)
      → ((a : A) → Keeps P (f a))
      → ((e : String) → Keeps P (g e))
      → P o.1.db
      → P (catch_outcome o.0 f g o.1).1.db
  catch-db (ok a, w) f g kf kg h = (kf a).at w h
  catch-db (err e, w) f g kf kg h = (kg e).at w h
  catch-db (panic, w) f g kf kg h = h
  catch-db (deadlock, w) f g kf kg h = h

  pub Keeps-catch :
      (m : Exec A) (f : A → Exec B) (g : String → Exec B)
      → Keeps P m
      → ((a : A) → Keeps P (f a))
      → ((e : String) → Keeps P (g e))
      → Keeps P (catch m f g)
  Keeps-catch m f g km kf kg = record { at = λ w h. catch-db (m w) f g kf kg (km.at w h) }

module _ {P : Db → Type 0} where
  insert-db : (taken : Bool) (f : Db → Db) (d : Db) → P d → P (f d) → At P (inserted taken f d).1
  insert-db true f d h k = record { here = h }
  insert-db false f d h k = record { here = k }

  accepted-Keeps : (b : Bool) → Keeps P (accepted b)
  accepted-Keeps true = Keeps-pure tt
  accepted-Keeps false = Keeps-fail "Constraint Error"

  pub Keeps-insert_unique :
      (taken : Db → Bool) (f : Db → Db)
      → ((d : Db) → P d → P (f d))
      → Keeps P (insert_unique taken f)
  Keeps-insert_unique taken f k =
      Keeps-bind _ accepted (Keeps-statement _ (λ d h. (insert-db (taken d) f d h (k d h)).here))
        accepted-Keeps

-- What a step returns, if it returns.
abbrev pub Returns : {A : Type 0} → (A → Type 0) → Outcome A → Type 0
Returns Q (ok a) = Q a
Returns Q (err e) = Unit
Returns Q panic = Unit
Returns Q deadlock = Unit

module _ {A B : Type 0} {P : Db → Type 0} where
  continue_returned-db :
      (Q : A → Type 0) (o : Outcome A × World) (f : A → Exec B)
      → Returns Q o.0
      → ((a : A) → Q a → Keeps P (f a))
      → P o.1.db
      → P (continue o.0 f o.1).1.db
  continue_returned-db Q (ok a, w) f q k h = (k a q).at w h
  continue_returned-db Q (err e, w) f q k h = h
  continue_returned-db Q (panic, w) f q k h = h
  continue_returned-db Q (deadlock, w) f q k h = h

  pub Keeps-bind_returned :
      (Q : A → Type 0) (m : Exec A) (f : A → Exec B)
      → ((w : World) → Returns Q (m w).0)
      → Keeps P m
      → ((a : A) → Q a → Keeps P (f a))
      → Keeps P (m >>= f)
  Keeps-bind_returned Q m f q km kf = record {
    at = λ w h. continue_returned-db Q (m w) f (q w) kf (km.at w h);
  }

-- The rest of a step after a read knows what was read.
module _ {A B : Type 0} {P : Db → Type 0} (f : Db → A) where
  read_unlocked :
      (k : A → Exec B) (faults : List Bool) (w : World)
      → Keeps P (k (f w.db))
      → P w.db
      → let o = release (run_statement (λ d. (f d, d)) faults w) in P (continue o.0 k o.1).1.db
  read_unlocked k [] w kk h = kk.at _ h
  read_unlocked k (true ∷ rest) w kk h = h
  read_unlocked k (false ∷ rest) w kk h = kk.at _ h

  read_locked :
      (b : Bool) (k : A → Exec B) (w : World)
      → Keeps P (k (f w.db))
      → P w.db
      → let o = locking b (query f) w in P (continue o.0 k o.1).1.db
  read_locked true k w kk h = h
  read_locked false k w kk h = read_unlocked k w.faults (record w { locked = true }) kk h

  pub bind_read-db :
      (k : A → Exec B) (w : World)
      → Keeps P (k (f w.db))
      → P w.db
      → P ((with_conn (query f) >>= k) w).1.db
  bind_read-db k w kk h = read_locked w.locked k w kk h

pub ruleset keeps_rules = (
  Keeps-pure, Keeps-fail, Keeps-crash, Keeps-attempt, Keeps-with_conn, Keeps-query, Keeps-if,
  Keeps-now, Keeps-new_v4, Keeps-execute, Keeps-execute_count, Keeps-bind, Keeps-catch,
  Keeps-insert_unique,
)
