-- ===== src/Store/Triple.antt =====
-- What a worker of db/worker leaves behind, however it ends: rules for its parts. The worker starts
-- on the tables `start`, and `Goal` is what is claimed of the tables at the end.
use mathlib.Core.Path.{subst}
use modbus_tcplogger.Common.{suc, ◌≡◌, refl, sym, ap, Option, none, some}
use modbus_tcplogger.Store.{Db, ConfigEvent, Refusal}
use modbus_tcplogger.Store.Sql.{
  Reply, works, fails, hangs, Env, Store, Answer, ok, err, panicked, timed_out, Action, continue,
  ◌>>=◌, pure, or_err, unwrap, fetched, fetch, now, executed, executed_in, execute_in, begin,
  commit, send,
}

abbrev pub Ends : {A : Type 0} → (A → Store → Type 0) → (Db → Type 0) → Answer A × Store → Type 0
Ends Post Goal (ok a, s) = Post a s × Goal s.db
Ends Post Goal (err e, s) = Goal s.db
Ends Post Goal (panicked, s) = Goal s.db
Ends Post Goal (timed_out, s) = Goal s.db

-- From a state with `Pre`, every end has `Goal`, and an end with a result has `Post`.
pub record Triple {A : Type 0} (Goal : Db → Type 0) (env : Env) (Pre : Store → Type 0)
    (m : Action A) (Post : A → Store → Type 0) : Type 0 where
  pub run : (s : Store) → Pre s → Ends Post Goal (m env s)

-- The tables are still those of the start.
abbrev pub At : Db → Store → Type 0
At start s = s.db ≡ start

-- In a transaction that has come to `o`.
abbrev pub In : Db → Option Db → Store → Type 0
In start o s = At start s × (o ≡ some s.work)

-- After a statement of the transaction, with its result.
abbrev pub After : Db → Option Db → Option (Unit {0}) → Store → Type 0
After start o none s = At start s
After start o (some u) s = In start o s

abbrev pub and_also : Option Db → (Db → Option Db) → Option Db
and_also none f = none
and_also (some db) f = f db

module _ {A B : Type 0} {Goal : Db → Type 0} {env : Env} where
  continue-Ends :
      (r : Answer A × Store) (f : A → Action B) (Mid : A → Store → Type 0)
      (Post : B → Store → Type 0)
      → Ends Mid Goal r
      → ((a : A) → Triple Goal env (Mid a) (f a) Post)
      → Ends Post Goal (continue r (λ a t. f a env t))
  continue-Ends (ok a, t) f Mid Post e k = (k a).run t e.0
  continue-Ends (err x, t) f Mid Post e k = e
  continue-Ends (panicked, t) f Mid Post e k = e
  continue-Ends (timed_out, t) f Mid Post e k = e

  pub bind-Triple :
      {m : Action A} {f : A → Action B} {Pre : Store → Type 0} {Mid : A → Store → Type 0}
      {Post : B → Store → Type 0}
      → Triple Goal env Pre m Mid
      → ((a : A) → Triple Goal env (Mid a) (f a) Post)
      → Triple Goal env Pre (m >>= f) Post
  unfolding ◌>>=◌
  bind-Triple {m = m} {f = f} {Mid = Mid} {Post = Post} h k = record {
    run = λ s p. continue-Ends (m env s) f Mid Post (h.run s p) k;
  }

module _ (Goal : Db → Type 0) {start : Db} (nothing : Goal start) where
  begun :
      (r : Reply) (s : Store)
      → At start s
      → Ends (After start (some start)) Goal (executed_in r (some s.db) s)
  begun works s p = ((p, ap (λ d. some d) (sym p)), subst Goal (sym p) nothing)
  begun fails s p = (p, subst Goal (sym p) nothing)
  begun hangs s p = subst Goal (sym p) nothing

  stepped :
      (r : Reply) (f : Db → Option Db) (o x : Option Db) (s : Store)
      → f s.work ≡ x
      → In start o s
      → Ends (After start (and_also o f)) Goal (executed_in r x s)
  stepped works f o none s e p = (p.0, subst Goal (sym p.0) nothing)
  stepped works f o (some db) s e p = ((p.0, rw p.1 e), subst Goal (sym p.0) nothing)
  stepped fails f o x s e p = (p.0, subst Goal (sym p.0) nothing)
  stepped hangs f o x s e p = subst Goal (sym p.0) nothing

  fetched-Ends :
      {A : Type 0} (r : Reply) (x : Option A) (s : Store) (P : Store → Type 0)
      → P s
      → At start s
      → Ends (λ _. P) Goal (fetched r x s)
  fetched-Ends works x s P p a = (p, subst Goal (sym a) nothing)
  fetched-Ends fails x s P p a = (p, subst Goal (sym a) nothing)
  fetched-Ends hangs x s P p a = subst Goal (sym a) nothing

  committed :
      (r : Reply) (o : Option Db) (s : Store)
      → ((db : Db) → o ≡ some db → Goal db)
      → In start o s
      → Ends (λ _ t. Goal t.db) Goal (executed r (some s.work) s)
  committed works o s all p = let g = all s.work p.1 in (g, g)
  committed fails o s all p = let g = subst Goal (sym p.0) nothing in (g, g)
  committed hangs o s all p = subst Goal (sym p.0) nothing

fetched_done :
    {A : Type 0} (Goal : Db → Type 0) (r : Reply) (x : Option A) (s : Store)
    → Goal s.db
    → Ends (λ _ t. Goal t.db) Goal (fetched r x s)
fetched_done Goal works x s p = (p, p)
fetched_done Goal fails x s p = (p, p)
fetched_done Goal hangs x s p = p

module _ {Goal : Db → Type 0} {env : Env} {start : Db} (nothing : Goal start) where
  pub begin-Triple : Triple Goal env (At start) begin (After start (some start))
  unfolding begin
  begin-Triple = record {
    run = λ s p. begun Goal nothing (env.net s.ops) (record s { ops = suc s.ops }) p;
  }

  pub execute_in-Triple :
      (o : Option Db) (f : Db → Option Db)
      → Triple Goal env (In start o) (execute_in f) (After start (and_also o f))
  unfolding execute_in
  execute_in-Triple o f = record {
    run = λ s p.
        stepped Goal nothing (env.net s.ops) f o (f s.work) (record s { ops = suc s.ops }) refl p;
  }

  pub or_err-Triple :
      (o : Option Db) (x : Option (Unit {0})) (e : Refusal)
      → Triple Goal env (After start o x) (or_err x e) (λ _. In start o)
  or_err-Triple o none e = record { run = λ s p. subst Goal (sym p) nothing }
  or_err-Triple o (some u) e = record { run = λ s p. (p, subst Goal (sym p.0) nothing) }

  -- `?` on a value that was read.
  pub or_err_read-Triple :
      {A : Type 0} (o : Option Db) (x : Option A) (e : Refusal)
      → Triple Goal env (In start o) (or_err x e) (λ _. In start o)
  or_err_read-Triple o none e = record { run = λ s p. subst Goal (sym p.0) nothing }
  or_err_read-Triple o (some u) e = record { run = λ s p. (p, subst Goal (sym p.0) nothing) }

  pub now-Triple : (o : Option Db) → Triple Goal env (In start o) now (λ _. In start o)
  now-Triple o = record { run = λ s p. (p, subst Goal (sym p.0) nothing) }

  pub fetch_work-Triple :
      {A : Type 0} (o : Option Db) (f : Db → Option A)
      → Triple Goal env (In start o) (fetch f) (λ _. In start o)
  unfolding fetch
  fetch_work-Triple o f = record {
    run = λ s p.
        fetched-Ends Goal nothing (env.net s.ops) (f s.db) (record s { ops = suc s.ops })
          (In start o) p p.0;
  }

  pub commit-Triple :
      (o : Option Db)
      → ((db : Db) → o ≡ some db → Goal db)
      → Triple Goal env (In start o) commit (λ _ t. Goal t.db)
  unfolding commit
  commit-Triple o all = record {
    run = λ s p. committed Goal nothing (env.net s.ops) o (record s { ops = suc s.ops }) all p;
  }

-- What comes after the tables are written.
module _ {Goal : Db → Type 0} {env : Env} where
  pub or_err_done-Triple :
      {A : Type 0} (x : Option A) (e : Refusal)
      → Triple Goal env (λ s. Goal s.db) (or_err x e) (λ _ s. Goal s.db)
  or_err_done-Triple none e = record { run = λ s p. p }
  or_err_done-Triple (some u) e = record { run = λ s p. (p, p) }

  pub unwrap-Triple :
      {A : Type 0} (x : Option A) → Triple Goal env (λ s. Goal s.db) (unwrap x) (λ _ s. Goal s.db)
  unwrap-Triple none = record { run = λ s p. p }
  unwrap-Triple (some u) = record { run = λ s p. (p, p) }

  pub send-Triple : (e : ConfigEvent) → Triple Goal env (λ s. Goal s.db) (send e) (λ _ s. Goal s.db)
  unfolding send
  send-Triple e = record { run = λ s p. (p, p) }

  pub pure-Triple :
      {A : Type 0} (a : A) → Triple Goal env (λ s. Goal s.db) (pure a) (λ _ s. Goal s.db)
  pure-Triple a = record { run = λ s p. (p, p) }

  pub fetch_done-Triple :
      {A : Type 0} (f : Db → Option A)
      → Triple Goal env (λ s. Goal s.db) (fetch f) (λ _ s. Goal s.db)
  unfolding fetch
  fetch_done-Triple f = record {
    run = λ s p. fetched_done Goal (env.net s.ops) (f s.db) (record s { ops = suc s.ops }) p;
  }
