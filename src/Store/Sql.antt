-- ===== src/Store/Sql.antt =====
-- How the workers of db/worker reach the database: statements that work, fail or do not come back
-- before `run_db_with_timeout` of gen_fn.rs drops the worker, transactions, and the channel to the
-- readers. A statement that works does what its text and the schema say; one that fails or hangs does
-- nothing. The workers run one at a time.
use Prim.Native.String.{String}
use modbus_tcplogger.Common.{
  ℕ, suc, Bool, true, false, ◌||◌, Option, none, some, List, [], ◌∷◌, ◌++◌, if◌then◌else◌,
}
use modbus_tcplogger.Plugins.{Serde}
use modbus_tcplogger.Store.{Db, ConfigEvent, Refusal}

-- What becomes of a statement.
pub data Reply : Type 0 where
  works fails hangs : Reply

-- The surroundings: the fate of each statement and the clock, by the number of statements so far;
-- the parser of addresses, the comparison of texts in the collation of the tables, and `serde_json`.
pub record Env : Type 0 where
  pub net : ℕ → Reply
  pub clock : ℕ → ℕ
  pub is_ipv4 : String → Bool
  pub same_text : String → String → Bool
  pub serde : Serde

-- What is committed, what the open transaction sees, and the events sent to the readers.
pub record Store : Type 0 where
  pub db : Db
  pub work : Db
  pub ops : ℕ
  pub sent : List ConfigEvent

-- How a worker ends. After `timed_out` the caller gets no answer.
pub data Answer (A : Type 0) : Type 0 where
  ok : A → Answer A
  err : Refusal → Answer A
  panicked timed_out : Answer A

abbrev pub Action : Type 0 → Type 0
Action A = Env → Store → Answer A × Store

abbrev pub continue :
    {A B : Type 0} → Answer A × Store → (A → Store → Answer B × Store) → Answer B × Store
continue (ok a, s) f = f a s
continue (err e, s) f = (err e, s)
continue (panicked, s) f = (panicked, s)
continue (timed_out, s) f = (timed_out, s)

infixl 5 ◌>>=◌ ◌>>◌
unfoldable pub ◌>>=◌ : {A B : Type 0} → Action A → (A → Action B) → Action B
◌>>=◌ m f env s = continue (m env s) (λ a t. f a env t)

abbrev pub ◌>>◌ : {A B : Type 0} → Action A → Action B → Action B
m >> k = m >>= λ _. k

module _ {A : Type 0} where
  abbrev pub pure : A → Action A
  pure a env s = (ok a, s)

  abbrev pub refuse : Refusal → Action A
  refuse e env s = (err e, s)

  -- `?` after `map_err`, and after `ok_or_else`
  abbrev pub or_err : Option A → Refusal → Action A
  or_err (some a) e env s = (ok a, s)
  or_err none e env s = (err e, s)

  abbrev pub unwrap : Option A → Action A
  unwrap (some a) env s = (ok a, s)
  unwrap none env s = (panicked, s)

  abbrev pub fetched : Reply → Option A → Store → Answer (Option A) × Store
  fetched works o s = (ok o, s)
  fetched fails o s = (ok none, s)
  fetched hangs o s = (timed_out, s)

  -- A query through the pool: what is committed. `none` is an error, also of a row that does not fit
  -- the type it is read into.
  unfoldable pub fetch : (Db → Option A) → Action (Option A)
  fetch f env s = fetched (env.net s.ops) (f s.db) (record s { ops = suc s.ops })

abbrev pub asks : {A : Type 0} → (Env → A) → Action A
asks f env s = (ok (f env), s)

abbrev pub now : Action ℕ
now env s = (ok (env.clock s.ops), s)

abbrev pub guard_not : Bool → Refusal → Action (Unit {0})
guard_not true e env s = (err e, s)
guard_not false e env s = (ok tt, s)

abbrev pub executed : Reply → Option Db → Store → Answer (Option (Unit {0})) × Store
executed works (some db) s = (ok (some tt), record s { db = db })
executed works none s = (ok none, s)
executed fails o s = (ok none, s)
executed hangs o s = (timed_out, s)

-- A statement of its own; `none` is a constraint that it violates.
unfoldable pub execute : (Db → Option Db) → Action (Option (Unit {0}))
execute f env s = executed (env.net s.ops) (f s.db) (record s { ops = suc s.ops })

abbrev pub executed_in : Reply → Option Db → Store → Answer (Option (Unit {0})) × Store
executed_in works (some db) s = (ok (some tt), record s { work = db })
executed_in works none s = (ok none, s)
executed_in fails o s = (ok none, s)
executed_in hangs o s = (timed_out, s)

-- A statement inside the open transaction.
unfoldable pub execute_in : (Db → Option Db) → Action (Option (Unit {0}))
execute_in f env s = executed_in (env.net s.ops) (f s.work) (record s { ops = suc s.ops })

-- `pool.begin()`
unfoldable pub begin : Action (Option (Unit {0}))
begin env s = executed_in (env.net s.ops) (some s.db) (record s { ops = suc s.ops })

-- `tx.commit()`
unfoldable pub commit : Action (Option (Unit {0}))
commit env s = executed (env.net s.ops) (some s.work) (record s { ops = suc s.ops })

-- `tx_to_reader.send`; a closed channel is only reported to the log.
unfoldable pub send : ConfigEvent → Action (Unit {0})
send e env s = (ok tt, record s { sent = s.sent ++ (e ∷ []) })

-- The first row that passes a test.
unfoldable pub first : {A : Type 0} → (A → Bool) → List A → Option A
first p [] = none
first p (x ∷ xs) = let rest = first p xs in if p x then some x else rest

unfoldable pub any : {A : Type 0} → (A → Bool) → List A → Bool
any p [] = false
any p (x ∷ xs) = p x || any p xs

-- COALESCE
abbrev pub coalesce : {A : Type 0} → Option A → A → A
coalesce (some a) old = a
coalesce none old = old

abbrev pub coalesce_null : {A : Type 0} → Option A → Option A → Option A
coalesce_null (some a) old = some a
coalesce_null none old = old
