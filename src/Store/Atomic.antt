-- ===== src/Store/Atomic.antt =====
-- What a refused worker of db/worker leaves behind: rules that follow the shape of the code.
use modbus_tcplogger.Common.{suc, ◌≡◌, refl, ◌∙◌, Bool, true, false, Option, none, some}
use modbus_tcplogger.Store.{Db, ConfigEvent, Refusal}
use modbus_tcplogger.Store.Sql.{
  Reply, works, fails, hangs, Env, Store, Answer, ok, err, panicked, timed_out, Action, continue,
  ◌>>=◌, ◌>>◌, pure, refuse, or_err, unwrap, fetched, fetch, asks, now, guard_not, executed,
  execute, executed_in, execute_in, begin, commit, send,
}

-- The tables and the events are the same.
abbrev pub IsSame : Store → Store → Type 0
IsSame s t = (t.db ≡ s.db) × (t.sent ≡ s.sent)

-- A part that, however it ends, has changed no table and sent no event.
pub record IsQuiet {A : Type 0} (m : Action A) : Type 0 where
  pub same : (env : Env) (s : Store) → IsSame s (m env s).1

-- Where it is refused, nothing has been changed or sent.
pub record IsAtomic {A : Type 0} (m : Action A) : Type 0 where
  pub unchanged : (env : Env) (s : Store) (e : Refusal) → (m env s).0 ≡ err e → IsSame s (m env s).1

-- A part that is never refused.
pub record IsSure {A : Type 0} (m : Action A) : Type 0 where
  pub sure : (env : Env) (s : Store) (e : Refusal) → ¬ ((m env s).0 ≡ err e)

module _ {A B : Type 0} where
  continue-IsAtomic :
      (r : Answer A × Store) (env : Env) (f : A → Action B) (s : Store) (e : Refusal)
      → IsSame s r.1
      → ((a : A) → IsAtomic (f a))
      → (continue r (λ a t. f a env t)).0 ≡ err e
      → IsSame s (continue r (λ a t. f a env t)).1
  continue-IsAtomic (ok a, t) env f s e same k h =
      let (db, sent) = (k a).unchanged env t e h in (db ∙ same.0, sent ∙ same.1)
  continue-IsAtomic (err x, t) env f s e same k h = same
  continue-IsAtomic (panicked, t) env f s e same k h = same
  continue-IsAtomic (timed_out, t) env f s e same k h = same

  pub bind-IsAtomic :
      {m : Action A} {f : A → Action B}
      → IsQuiet m
      → ((a : A) → IsAtomic (f a))
      → IsAtomic (m >>= f)
  unfolding ◌>>=◌
  bind-IsAtomic {m = m} {f = f} q k = record {
    unchanged = λ env s e h. continue-IsAtomic (m env s) env f s e (q.same env s) k h;
  }

  continue-IsSure :
      (r : Answer A × Store) (env : Env) (f : A → Action B) (e : Refusal)
      → ((x : Refusal) → ¬ (r.0 ≡ err x))
      → ((a : A) → IsSure (f a))
      → ¬ ((continue r (λ a t. f a env t)).0 ≡ err e)
  continue-IsSure (ok a, t) env f e sure k h = (k a).sure env t e h
  continue-IsSure (err x, t) env f e sure k h = sure x refl
  continue-IsSure (panicked, t) env f e sure k h = cc
  continue-IsSure (timed_out, t) env f e sure k h = cc

  pub bind-IsSure :
      {m : Action A} {f : A → Action B} → IsSure m → ((a : A) → IsSure (f a)) → IsSure (m >>= f)
  unfolding ◌>>=◌
  bind-IsSure {m = m} {f = f} q k = record {
    sure = λ env s e h. continue-IsSure (m env s) env f e (λ x. q.sure env s x) k h;
  }

  continue-IsQuiet :
      (r : Answer A × Store) (env : Env) (f : A → Action B) (s : Store)
      → IsSame s r.1
      → ((a : A) → IsQuiet (f a))
      → IsSame s (continue r (λ a t. f a env t)).1
  continue-IsQuiet (ok a, t) env f s same k =
      let (db, sent) = (k a).same env t in (db ∙ same.0, sent ∙ same.1)
  continue-IsQuiet (err x, t) env f s same k = same
  continue-IsQuiet (panicked, t) env f s same k = same
  continue-IsQuiet (timed_out, t) env f s same k = same

  pub bind-IsQuiet :
      {m : Action A} {f : A → Action B} → IsQuiet m → ((a : A) → IsQuiet (f a)) → IsQuiet (m >>= f)
  unfolding ◌>>=◌
  bind-IsQuiet {m = m} {f = f} q k = record {
    same = λ env s. continue-IsQuiet (m env s) env f s (q.same env s) k;
  }

module _ {A : Type 0} where
  pub pure-IsQuiet : (a : A) → IsQuiet (pure a)
  pure-IsQuiet a = record { same = λ env s. (refl, refl) }

  pub pure-IsSure : (a : A) → IsSure (pure a)
  pure-IsSure a = record { sure = λ env s e h. cc }

  pub refuse-IsQuiet : (e : Refusal) → IsQuiet (refuse {A = A} e)
  refuse-IsQuiet e = record { same = λ env s. (refl, refl) }

  pub or_err-IsQuiet : (o : Option A) (e : Refusal) → IsQuiet (or_err o e)
  or_err-IsQuiet none e = record { same = λ env s. (refl, refl) }
  or_err-IsQuiet (some a) e = record { same = λ env s. (refl, refl) }

  pub unwrap-IsSure : (o : Option A) → IsSure (unwrap o)
  unwrap-IsSure none = record { sure = λ env s e h. cc }
  unwrap-IsSure (some a) = record { sure = λ env s e h. cc }

  fetched-IsSame : (r : Reply) (o : Option A) (s : Store) → IsSame s (fetched r o s).1
  fetched-IsSame works o s = (refl, refl)
  fetched-IsSame fails o s = (refl, refl)
  fetched-IsSame hangs o s = (refl, refl)

  pub fetch-IsQuiet : (f : Db → Option A) → IsQuiet (fetch f)
  unfolding fetch
  fetch-IsQuiet f = record {
    same = λ env s. fetched-IsSame (env.net s.ops) (f s.db) (record s { ops = suc s.ops });
  }

  fetched_sure :
      (r : Reply) (o : Option A) (s : Store) (e : Refusal) → ¬ ((fetched r o s).0 ≡ err e)
  fetched_sure works o s e h = cc
  fetched_sure fails o s e h = cc
  fetched_sure hangs o s e h = cc

  pub fetch-IsSure : (f : Db → Option A) → IsSure (fetch f)
  unfolding fetch
  fetch-IsSure f = record {
    sure = λ env s e. fetched_sure (env.net s.ops) (f s.db) (record s { ops = suc s.ops }) e;
  }

  pub asks-IsQuiet : (f : Env → A) → IsQuiet (asks f)
  asks-IsQuiet f = record { same = λ env s. (refl, refl) }

pub now-IsQuiet : IsQuiet now
now-IsQuiet = record { same = λ env s. (refl, refl) }

pub guard_not-IsQuiet : (b : Bool) (e : Refusal) → IsQuiet (guard_not b e)
guard_not-IsQuiet true e = record { same = λ env s. (refl, refl) }
guard_not-IsQuiet false e = record { same = λ env s. (refl, refl) }

executed_in-IsSame : (r : Reply) (o : Option Db) (s : Store) → IsSame s (executed_in r o s).1
executed_in-IsSame works none s = (refl, refl)
executed_in-IsSame works (some db) s = (refl, refl)
executed_in-IsSame fails o s = (refl, refl)
executed_in-IsSame hangs o s = (refl, refl)

pub execute_in-IsQuiet : (f : Db → Option Db) → IsQuiet (execute_in f)
unfolding execute_in
execute_in-IsQuiet f = record {
  same = λ env s. executed_in-IsSame (env.net s.ops) (f s.work) (record s { ops = suc s.ops });
}

pub begin-IsQuiet : IsQuiet begin
unfolding begin
begin-IsQuiet = record {
  same = λ env s. executed_in-IsSame (env.net s.ops) (some s.db) (record s { ops = suc s.ops });
}

pub send-IsSure : (e : ConfigEvent) → IsSure (send e)
unfolding send
send-IsSure e = record { sure = λ env s x h. cc }

-- The statement that changes the tables, `?` on its result, and a rest that is never refused.
executed-IsAtomic :
    (r : Reply) (o : Option Db) (env : Env) (s : Store) (e x : Refusal) (k : Action (Unit {0}))
    → IsSure k
    → (continue (executed r o s) (λ a t. (or_err a e >> k) env t)).0 ≡ err x
    → IsSame s (continue (executed r o s) (λ a t. (or_err a e >> k) env t)).1
unfolding ◌>>=◌
executed-IsAtomic works none env s e x k sure h = (refl, refl)
executed-IsAtomic works (some db) env s e x k sure h = absurd (sure.sure env _ x h)
executed-IsAtomic fails o env s e x k sure h = (refl, refl)
executed-IsAtomic hangs o env s e x k sure h = (refl, refl)

pub execute-IsAtomic :
    (f : Db → Option Db) (e : Refusal) (k : Action (Unit {0}))
    → IsSure k
    → IsAtomic (execute f >>= λ a. or_err a e >> k)
unfolding ◌>>=◌ execute
execute-IsAtomic f e k sure = record {
  unchanged = λ env s x h.
      executed-IsAtomic (env.net s.ops) (f s.db) env (record s { ops = suc s.ops }) e x k sure h;
}

pub commit-IsAtomic :
    (e : Refusal) (k : Action (Unit {0})) → IsSure k → IsAtomic (commit >>= λ a. or_err a e >> k)
unfolding ◌>>=◌ commit
commit-IsAtomic e k sure = record {
  unchanged = λ env s x h.
      executed-IsAtomic (env.net s.ops) (some s.work) env (record s { ops = suc s.ops }) e x k sure
        h;
}

-- `search` with these rules follows the text of a worker.
pub ruleset worker_rules = (
  bind-IsAtomic, bind-IsQuiet, bind-IsSure, pure-IsQuiet, pure-IsSure, refuse-IsQuiet,
  or_err-IsQuiet, unwrap-IsSure, fetch-IsQuiet, fetch-IsSure, asks-IsQuiet, now-IsQuiet,
  guard_not-IsQuiet, execute_in-IsQuiet, begin-IsQuiet, send-IsSure, execute-IsAtomic,
  commit-IsAtomic,
)
