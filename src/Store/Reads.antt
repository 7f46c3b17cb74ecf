-- ===== src/Store/Reads.antt =====
-- Rules for the parts of a worker of db/worker that only read and check: what it knows of the tables
-- `start` grows, and the statement that writes is reached with all of it.
use mathlib.Core.Path.{subst}
use modbus_tcplogger.Common.{suc, ◌≡◌, refl, sym, ap, Bool, true, false, not, Option, none, some}
use modbus_tcplogger.Store.{Db, Refusal}
use modbus_tcplogger.Store.Sql.{
  Reply, works, fails, hangs, Env, Store, Answer, ok, err, panicked, timed_out, Action, pure,
  refuse, or_err, fetched, fetch, asks, guard_not, executed, execute,
}
use modbus_tcplogger.Store.Triple.{Ends, Triple, At}

-- The tables are those of the start, and `Known` holds.
abbrev pub Knows : Db → Type 0 → Store → Type 0
Knows start Known s = At start s × Known

-- What an answer tells of the query.
abbrev pub IsRead : {A : Type 0} → Option A → Option A → Type 0
IsRead none o = Unit {0}
IsRead (some a) o = o ≡ some a

pub read_inv : {A : Type 0} (x y : Option A) (a : A) → IsRead x y → x ≡ some a → y ≡ some a
read_inv none y a h e = cc
read_inv (some b) y a h e = cc

pub not-false : (b : Bool) → not b ≡ false → b ≡ true
not-false true e = refl
not-false false e = cc

module _ (Goal : Db → Type 0) {start : Db} (nothing : Goal start) where
  fetched_known :
      {A : Type 0} (Known : Type 0) (r : Reply) (x y : Option A) (s : Store)
      → x ≡ y
      → Knows start Known s
      → Ends (λ a. Knows start (Known × IsRead a y)) Goal (fetched r x s)
  fetched_known Known works none y s e p = ((p.0, (p.1, tt)), subst Goal (sym p.0) nothing)
  fetched_known Known works (some a) y s e p = ((p.0, (p.1, sym e)), subst Goal (sym p.0) nothing)
  fetched_known Known fails x y s e p = ((p.0, (p.1, tt)), subst Goal (sym p.0) nothing)
  fetched_known Known hangs x y s e p = subst Goal (sym p.0) nothing

  executed_known :
      (Known : Type 0) (r : Reply) (f : Db → Option Db) (x : Option Db) (s : Store)
      → ((db : Db) → Known → f start ≡ some db → Goal db)
      → f s.db ≡ x
      → Knows start Known s
      → Ends (λ _ t. Goal t.db) Goal (executed r x s)
  executed_known Known works f none s all e p = let g = subst Goal (sym p.0) nothing in (g, g)
  executed_known Known works f (some db) s all e p =
      let g = all db p.1 (subst (λ d. f d ≡ some db) p.0 e) in (g, g)
  executed_known Known fails f x s all e p = let g = subst Goal (sym p.0) nothing in (g, g)
  executed_known Known hangs f x s all e p = subst Goal (sym p.0) nothing

module _ {Goal : Db → Type 0} {env : Env} {start : Db} (nothing : Goal start) where
  pub fetch-Triple :
      {A : Type 0} {Known : Type 0} (f : Db → Option A)
      → Triple Goal env
          (Knows start Known)
          (fetch f)
          (λ a. Knows start (Known × IsRead a (f start)))
  unfolding fetch
  fetch-Triple {Known = Known} f = record {
    run = λ s p.
        fetched_known Goal nothing Known (env.net s.ops) (f s.db) (f start)
          (record s { ops = suc s.ops }) (ap f p.0) p;
  }

  pub check-Triple :
      {A : Type 0} {Known : Type 0} (x : Option A) (e : Refusal)
      → Triple Goal env (Knows start Known) (or_err x e) (λ a. Knows start (Known × (x ≡ some a)))
  check-Triple none e = record { run = λ s p. subst Goal (sym p.0) nothing }
  check-Triple (some a) e = record {
    run = λ s p. ((p.0, (p.1, refl)), subst Goal (sym p.0) nothing);
  }

  pub guard_not-Triple :
      {Known : Type 0} (b : Bool) (e : Refusal)
      → Triple Goal env (Knows start Known) (guard_not b e) (λ _. Knows start (Known × (b ≡ false)))
  guard_not-Triple true e = record { run = λ s p. subst Goal (sym p.0) nothing }
  guard_not-Triple false e = record {
    run = λ s p. ((p.0, (p.1, refl)), subst Goal (sym p.0) nothing);
  }

  pub asks-Triple :
      {A : Type 0} {Known : Type 0} (f : Env → A)
      → Triple Goal env (Knows start Known) (asks f) (λ a. Knows start (Known × (a ≡ f env)))
  asks-Triple f = record { run = λ s p. ((p.0, (p.1, refl)), subst Goal (sym p.0) nothing) }

  pub pass-Triple :
      {A : Type 0} {Known More : Type 0} (a : A)
      → (Known → More)
      → Triple Goal env (Knows start Known) (pure a) (λ _. Knows start (Known × More))
  pass-Triple a more = record {
    run = λ s p. ((p.0, (p.1, more p.1)), subst Goal (sym p.0) nothing);
  }

  pub refuse-Triple :
      {A : Type 0} {Known : Type 0} {Post : A → Store → Type 0} (e : Refusal)
      → Triple Goal env (Knows start Known) (refuse {A = A} e) Post
  refuse-Triple e = record { run = λ s p. subst Goal (sym p.0) nothing }

  pub execute-Triple :
      {Known : Type 0} (f : Db → Option Db)
      → ((db : Db) → Known → f start ≡ some db → Goal db)
      → Triple Goal env (Knows start Known) (execute f) (λ _ t. Goal t.db)
  unfolding execute
  execute-Triple {Known = Known} f all = record {
    run = λ s p.
        executed_known Goal nothing Known (env.net s.ops) f (f s.db) (record s { ops = suc s.ops })
          all refl p;
  }

weaken_Ends :
    {A : Type 0} (Goal : Db → Type 0) (r : Answer A × Store) (Post Post' : A → Store → Type 0)
    → ((a : A) (s : Store) → Post a s → Post' a s)
    → Ends Post Goal r
    → Ends Post' Goal r
weaken_Ends Goal (ok a, s) Post Post' w e = (w a s e.0, e.1)
weaken_Ends Goal (err x, s) Post Post' w e = e
weaken_Ends Goal (panicked, s) Post Post' w e = e
weaken_Ends Goal (timed_out, s) Post Post' w e = e

-- A rule with more knowledge than is needed, or with less than was gained.
module _ {Goal : Db → Type 0} {env : Env} {A : Type 0} {m : Action A} where
  pub weaken-Triple :
      {Pre Pre' : Store → Type 0} {Post Post' : A → Store → Type 0}
      → ((s : Store) → Pre' s → Pre s)
      → ((a : A) (s : Store) → Post a s → Post' a s)
      → Triple Goal env Pre m Post
      → Triple Goal env Pre' m Post'
  weaken-Triple {Post = Post} {Post' = Post'} v w h = record {
    run = λ s p. weaken_Ends Goal (m env s) Post Post' w (h.run s (v s p));
  }

pub Ends-Goal :
    {A : Type 0} (Goal : Db → Type 0) (r : Answer A × Store)
    → Ends (λ _ t. Goal t.db) Goal r
    → Goal r.1.db
Ends-Goal Goal (ok a, s) e = e.1
Ends-Goal Goal (err x, s) e = e
Ends-Goal Goal (panicked, s) e = e
Ends-Goal Goal (timed_out, s) e = e

-- What is known of the start may be assumed.
pub assume-Triple :
    {A : Type 0} {Goal : Db → Type 0} {env : Env} {start : Db} {Known : Type 0} {m : Action A}
    {Post : A → Store → Type 0}
    → (Known → Triple Goal env (At start) m Post)
    → Triple Goal env (Knows start Known) m Post
assume-Triple h = record { run = λ s p. (h p.1).run s p.0 }
