-- ===== src/Store/History.antt =====
-- What the deletion of a node of db/worker/node_worker.rs keeps: the measures and the logged values.
use mathlib.Core.Path.{subst}
use modbus_tcplogger.Common.{
  ℕ, ◌≡◌, inl, inr, refl, ap, Bool, true, false, not, ◌&&◌, ◌||◌, List, [], ◌∷◌, keep, map, All,
  arith, if◌then◌else◌,
}
use modbus_tcplogger.Common.Int.{ℤ, eqb_ℤ}
use modbus_tcplogger.Store.{Db, Device, ValueUnit}
use modbus_tcplogger.Store.Sql.{Env, Store, any}
use modbus_tcplogger.Store.Nodes.{
  is_of_node, has_logging, mark_deleted, soft_delete, delete_values_of, remove_values,
  remove_devices, is_live_of, delete_node_row, delete_node,
}
use modbus_tcplogger.Store.Triple.{and_also}
use modbus_tcplogger.Store.Reads.{Ends-Goal}
use modbus_tcplogger.Store.Effects.{Either}
use modbus_tcplogger.Store.Whole.{IsNodeDeleted, delete_node-Triple}
use modbus_tcplogger.Store.Housed.{All_imply}
use modbus_tcplogger.Store.Orphans.{Leaves, and_also-Leaves, unless-Leaves}

-- The logged values of a table.
abbrev pub logged : List ValueUnit → List ValueUnit
logged = keep (λ v. v.is_logging)

-- Each row passes `any` under every test that it passes.
abbrev AreIn : List ValueUnit → List ValueUnit → Type 0
AreIn values = All (λ v. (p : ValueUnit → Bool) → p v ≡ true → any p values ≡ true)

rows-AreIn : (vs : List ValueUnit) → AreIn vs vs
unfolding any
rows-AreIn [] = tt
rows-AreIn (v ∷ vs) = (
  λ p e. rw e refl,
  All_imply (λ w. (p : ValueUnit → Bool) → p w ≡ true → any p vs ≡ true)
      (λ w. (p : ValueUnit → Bool) → p w ≡ true → (p v || any p vs) ≡ true) vs
      (λ w k p e. ground (arith, k p e)) (rows-AreIn vs),
)

-- No device is both the parent of a logged value and live on the node, once the devices with logged
-- values are marked.
unmarked_free :
    (values : List ValueUnit) (ts : ℕ) (id : ℤ) (v : ValueUnit) (ds : List Device)
    → v.is_logging ≡ true
    → ((p : ValueUnit → Bool) → p v ≡ true → any p values ≡ true)
    → any
        (λ d. eqb_ℤ d.id v.parent_device_id && is_live_of id d)
        (map (λ d. if is_of_node id d && has_logging values d then mark_deleted ts d else d) ds)
      ≡ false
unfolding any has_logging
unmarked_free values ts id v [] logs k = refl
unmarked_free values ts id v (d ∷ ds) logs k = ground (
  arith,
  unmarked_free values ts id v ds logs k,
  k (λ w. eqb_ℤ w.parent_device_id d.id && w.is_logging),
)

logged-keep :
    (q : ValueUnit → Bool) (vs : List ValueUnit)
    → All (λ v. v.is_logging ≡ true → q v ≡ false) vs
    → logged (keep (λ v. not (q v)) vs) ≡ logged vs
logged-keep q [] h = refl
logged-keep q (v ∷ vs) h = ground (arith, logged-keep q vs h.1, h.0)

-- The table of measures and the logged values are as in `start`.
abbrev pub IsHistoryKept : Db → Db → Type 0
IsHistoryKept start db = (db.measures ≡ start.measures) × (logged db.values ≡ logged start.values)

values_gone-IsHistoryKept :
    (ts : ℕ) (id : ℤ) (start : Db)
    → Leaves (IsHistoryKept start) (and_also (soft_delete ts id start) (delete_values_of id))
unfolding soft_delete delete_values_of remove_values
values_gone-IsHistoryKept ts id start =
    let devices =
      map (λ d. if is_of_node id d && has_logging start.values d then mark_deleted ts d else d)
        start.devices in
    let gone : ValueUnit → Bool =
      λ v. any (λ d. eqb_ℤ d.id v.parent_device_id && is_live_of id d) devices in
    let free =
      All_imply (λ v. (p : ValueUnit → Bool) → p v ≡ true → any p start.values ≡ true)
        (λ v. v.is_logging ≡ true → gone v ≡ false) start.values
        (λ v k logs. unmarked_free start.values ts id v start.devices logs k)
        (rows-AreIn start.values) in
    unless-Leaves (IsHistoryKept start)
      (any (λ m. any (λ v. gone v && eqb_ℤ v.id m.value_id) start.values) start.measures)
      (record start { devices = devices; values = keep (λ v. not (gone v)) start.values })
      (refl, logged-keep gone start.values free)

remove_devices-IsHistoryKept :
    (id : ℤ) (start db : Db)
    → IsHistoryKept start db
    → Leaves (IsHistoryKept start) (remove_devices (is_live_of id) db)
unfolding remove_devices
remove_devices-IsHistoryKept id start db h = ground arith

delete_node_row-IsHistoryKept :
    (id : ℤ) (start db : Db)
    → IsHistoryKept start db
    → Leaves (IsHistoryKept start) (delete_node_row id db)
unfolding delete_node_row
delete_node_row-IsHistoryKept id start db h = h

-- The deletion of a node, however it ends, removes no measure and no logged value.
pub history_kept : (id : ℤ) (env : Env) (s : Store) → IsHistoryKept s.db (delete_node id env s).1.db
history_kept id env s =
    elim (Ends-Goal (Either (IsNodeDeleted id) s.db) (delete_node id env s)
      ((delete_node-Triple id env s.db).run s (refl, tt))) [
        | inl same ↦ (ap (λ db. db.measures) same, ap (λ db. logged db.values) same)
        | inr (ts, e) ↦ subst (Leaves (IsHistoryKept s.db)) e (
            and_also-Leaves (IsHistoryKept s.db) (IsHistoryKept s.db) _ (delete_node_row id)
              (and_also-Leaves (IsHistoryKept s.db) (IsHistoryKept s.db) _
                (remove_devices (is_live_of id)) (values_gone-IsHistoryKept ts id s.db)
                (remove_devices-IsHistoryKept id s.db))
              (delete_node_row-IsHistoryKept id s.db))
      ]
