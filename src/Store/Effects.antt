-- ===== src/Store/Effects.antt =====
-- What the commands on nodes and devices do to the tables, and when: each one, however it ends, has
-- either left them alone or had the effect that is stated, under the conditions that are stated.
use Prim.Native.String.{String}
use modbus_tcplogger.Common.{◌≡◌, ◌⊎◌, inl, inr, refl, sym, ◌∙◌, true, not, Option, none, some}
use modbus_tcplogger.Common.Int.{ℤ, eqb_ℤ}
use modbus_tcplogger.Store.{
  Node, Db, NodeCreate, NodeUpdate, db_failed, bad_ip, ip_taken, node_missing,
}
use modbus_tcplogger.ReadMaster.{ConfigEventType}
use modbus_tcplogger.Store.Sql.{Env}
use modbus_tcplogger.Store.Nodes.{
  get_node_by_id, get_by_ip, find_node, find_ip, create_node, update_node, insert_node,
  update_node_row, refuse_known, refuse_other, check_new_ip, tell,
}
use modbus_tcplogger.Store.Triple.{
  Triple, bind-Triple, or_err_done-Triple, pure-Triple, send-Triple, fetch_done-Triple,
}
use modbus_tcplogger.Store.Reads.{
  read_inv, not-false, Knows, IsRead, fetch-Triple, check-Triple, guard_not-Triple, asks-Triple,
  pass-Triple, refuse-Triple, execute-Triple, weaken-Triple,
}

-- Nothing has changed, or `Effect` has happened.
abbrev pub Either : (Db → Option Db → Type 0) → Db → Db → Type 0
Either Effect start db = (db ≡ start) ⊎ Effect start (some db)

pub tell-Triple :
    (Goal : Db → Type 0) (env : Env) (t : ConfigEventType) (x : Option (Option Node))
    → Triple Goal env (λ s. Goal s.db) (tell t x) (λ _ s. Goal s.db)
tell-Triple Goal env t none = pure-Triple tt
tell-Triple Goal env t (some none) = pure-Triple tt
tell-Triple Goal env t (some (some node)) = send-Triple _

-- A node is created where its address is valid and new.
abbrev pub IsNodeCreated : Env → NodeCreate → Db → Option Db → Type 0
IsNodeCreated env c start o =
    (env.is_ipv4 c.ip ≡ true)
    × (find_ip env.same_text c.ip start ≡ none)
    × (insert_node c start ≡ o)

get_by_ip-Triple :
    {Goal : Db → Type 0} {env : Env} {start : Db} {Known : Type 0} (nothing : Goal start)
    (ip : String)
    → Triple Goal env
        (Knows start Known)
        (get_by_ip ip)
        (λ a. Knows start (Known × IsRead a (some (find_ip env.same_text ip start))))
unfolding get_by_ip
get_by_ip-Triple {env = env} nothing ip = record {
  run = (fetch-Triple nothing (λ db. some (find_ip env.same_text ip db))).run;
}

get_by_ip_done-Triple :
    {Goal : Db → Type 0} {env : Env} (ip : String)
    → Triple Goal env (λ s. Goal s.db) (get_by_ip ip) (λ _ s. Goal s.db)
unfolding get_by_ip
get_by_ip_done-Triple {env = env} ip = record {
  run = (fetch_done-Triple (λ db. some (find_ip env.same_text ip db))).run;
}

refuse_known-Triple :
    {Goal : Db → Type 0} {env : Env} {start : Db} {Known : Type 0} (nothing : Goal start)
    (x : Option Node)
    → Triple Goal env (Knows start Known) (refuse_known x) (λ _. Knows start (Known × (x ≡ none)))
refuse_known-Triple nothing none = pass-Triple nothing tt (λ k. refl)
refuse_known-Triple nothing (some node) = refuse-Triple nothing ip_taken

pub create_node-Triple :
    (c : NodeCreate) (env : Env) (start : Db)
    → Triple
        (Either (IsNodeCreated env c) start)
        env
        (Knows start (Unit {0}))
        (create_node c)
        (λ _ s. Either (IsNodeCreated env c) start s.db)
unfolding create_node
create_node-Triple c env start =
    let none_yet : Either (IsNodeCreated env c) start start = inl refl in
    bind-Triple (asks-Triple none_yet _) (λ valid.
      bind-Triple (guard_not-Triple none_yet _ bad_ip) (λ _.
        bind-Triple (get_by_ip-Triple none_yet c.ip) (λ read.
          bind-Triple (check-Triple none_yet read db_failed) (λ known.
            bind-Triple (refuse_known-Triple none_yet known) (λ _.
              bind-Triple
                (execute-Triple none_yet (insert_node c) (λ db k e.
                  let (((((_, v), nv), r), ks), kn) = k in
                  let found = read_inv read (some (find_ip env.same_text c.ip start)) known r ks in
                  inr (sym v ∙ not-false valid nv, cc, e)))
                (λ inserted. bind-Triple (or_err_done-Triple inserted db_failed) (λ _.
                  bind-Triple (get_by_ip_done-Triple c.ip)
                    (λ created. tell-Triple _ env ConfigEventType.create_node created))))))))

-- No node has the address, or only the node itself.
abbrev pub IsOwn : ℤ → Option Node → Type 0
IsOwn id none = Unit {0}
IsOwn id (some n) = eqb_ℤ n.id id ≡ true

abbrev pub IsIpFree : Env → ℤ → Option String → Db → Type 0
IsIpFree env id none start = Unit {0}
IsIpFree env id (some ip) start =
    (env.is_ipv4 ip ≡ true) × IsOwn id (find_ip env.same_text ip start)

-- A node is changed where it exists and its new address, if any, is valid and no other node's.
abbrev pub IsNodeUpdated : Env → NodeUpdate → Db → Option Db → Type 0
IsNodeUpdated env c start o =
    ((old : Node) × (find_node c.id start ≡ some old))
    × IsIpFree env c.id c.ip start
    × (update_node_row c start ≡ o)

pub get_node_by_id-Triple :
    {Goal : Db → Type 0} {env : Env} {start : Db} {Known : Type 0} (nothing : Goal start) (id : ℤ)
    → Triple Goal env
        (Knows start Known)
        (get_node_by_id id)
        (λ a. Knows start (Known × IsRead a (some (find_node id start))))
unfolding get_node_by_id
get_node_by_id-Triple nothing id = fetch-Triple nothing (λ db. some (find_node id db))

pub get_node_by_id_done-Triple :
    {Goal : Db → Type 0} {env : Env} (id : ℤ)
    → Triple Goal env (λ s. Goal s.db) (get_node_by_id id) (λ _ s. Goal s.db)
unfolding get_node_by_id
get_node_by_id_done-Triple id = fetch_done-Triple (λ db. some (find_node id db))

refuse_other-Triple :
    {Goal : Db → Type 0} {env : Env} {start : Db} {Known : Type 0} (nothing : Goal start) (id : ℤ)
    (x : Option Node)
    → Triple Goal env
        (Knows start Known)
        (refuse_other id x)
        (λ _. Knows start (Known × IsOwn id x))
refuse_other-Triple nothing id none = pass-Triple nothing tt (λ k. tt)
refuse_other-Triple nothing id (some n) =
    weaken-Triple (λ s p. p) (λ _ s p. (p.0, (p.1.0, not-false (eqb_ℤ n.id id) p.1.1)))
      (guard_not-Triple nothing (not (eqb_ℤ n.id id)) ip_taken)

check_new_ip-Triple :
    {Goal : Db → Type 0} {env : Env} {start : Db} {Known : Type 0} (nothing : Goal start) (id : ℤ)
    (ip : Option String)
    → Triple Goal env
        (Knows start Known)
        (check_new_ip id ip)
        (λ _. Knows start (Known × IsIpFree env id ip start))
unfolding check_new_ip
check_new_ip-Triple nothing id none = pass-Triple nothing tt (λ k. tt)
check_new_ip-Triple {env = env} {start = start} nothing id (some ip) =
    bind-Triple (asks-Triple nothing _) (λ valid.
      bind-Triple (guard_not-Triple nothing _ bad_ip) (λ _.
        bind-Triple (get_by_ip-Triple nothing ip) (λ read.
          bind-Triple (check-Triple nothing read db_failed) (λ known.
            weaken-Triple (λ s p. p)
              (λ _ s p.
                let (a, (((((k, v), nv), r), ks), own)) = p in
                let found : find_ip env.same_text ip start ≡ known =
                  cc (read_inv read (some (find_ip env.same_text ip start)) known r ks) in
                (a, (k, (sym v ∙ not-false valid nv, rw found own))))
              (refuse_other-Triple nothing id known)))))

pub update_node-Triple :
    (c : NodeUpdate) (env : Env) (start : Db)
    → Triple
        (Either (IsNodeUpdated env c) start)
        env
        (Knows start (Unit {0}))
        (update_node c)
        (λ _ s. Either (IsNodeUpdated env c) start s.db)
unfolding update_node
update_node-Triple c env start =
    let none_yet : Either (IsNodeUpdated env c) start start = inl refl in
    bind-Triple (get_node_by_id-Triple none_yet c.id) (λ read.
      bind-Triple (check-Triple none_yet read db_failed) (λ old.
        bind-Triple (check-Triple none_yet old node_missing) (λ node.
          bind-Triple (check_new_ip-Triple none_yet c.id c.ip) (λ _.
            bind-Triple
              (execute-Triple none_yet (update_node_row c) (λ db k e.
                let ((((_, r), ks), is_old), free) = k in
                let found = read_inv read (some (find_node c.id start)) old r ks in
                inr ((node, cc), free, e)))
              (λ written. bind-Triple (or_err_done-Triple written db_failed) (λ _.
                bind-Triple (get_node_by_id_done-Triple c.id)
                  (λ new. tell-Triple _ env ConfigEventType.update_node new)))))))
