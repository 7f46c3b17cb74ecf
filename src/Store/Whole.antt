-- ===== src/Store/Whole.antt =====
-- The transactions of db/worker are all or nothing, however the worker ends.
use mathlib.Core.Path.{subst}
use modbus_tcplogger.Common.{List, [], ◌∷◌, keep, sym, ℕ, ◌≡◌, inl, inr, refl, Option, some}
use modbus_tcplogger.Common.Int.{ℤ, eqb_ℤ}
use modbus_tcplogger.ReadMaster.{ConfigEventType}
use modbus_tcplogger.Store.{Db, ValueUnit, DeviceRead, db_failed, device_missing}
use modbus_tcplogger.Store.Sql.{Env, pure}
use modbus_tcplogger.Store.Nodes.{
  remove_values, get_node_by_id, delete_node, soft_delete, delete_values_of, is_live_of,
  remove_devices, delete_node_row,
}
use modbus_tcplogger.Store.Devices.{
  remove_measures, delete_value_with_transaction, delete_values, delete_device, find_device, join,
  get_value_by_device_id, read_optional,
}
use modbus_tcplogger.Store.Triple.{
  Triple, and_also, bind-Triple, begin-Triple, execute_in-Triple, or_err-Triple, or_err_read-Triple,
  now-Triple, fetch_work-Triple, commit-Triple, or_err_done-Triple, unwrap-Triple, send-Triple, In,
}
use modbus_tcplogger.Store.Reads.{Knows, read_inv, fetch-Triple, check-Triple, assume-Triple}
use modbus_tcplogger.Store.Effects.{Either, tell-Triple, get_node_by_id_done-Triple}
use modbus_tcplogger.Store.DeviceEffects.{IsRow, read_optional-IsRow}
use modbus_tcplogger.Store.DeviceUpdates.{get_device_by_id-Triple, join-some}

-- The four statements of the deletion of a node.
abbrev pub node_deleted : ℕ → ℤ → Db → Option Db
node_deleted ts id db =
    and_also
      (and_also (and_also (and_also (some db) (soft_delete ts id)) (delete_values_of id))
        (remove_devices (is_live_of id)))
      (delete_node_row id)

abbrev pub IsNodeDeleted : ℤ → Db → Option Db → Type 0
IsNodeDeleted id start o = (ts : ℕ) × (node_deleted ts id start ≡ o)

pub delete_node-Triple :
    (id : ℤ) (env : Env) (start : Db)
    → Triple
        (Either (IsNodeDeleted id) start)
        env
        (Knows start (Unit {0}))
        (delete_node id)
        (λ _ s. Either (IsNodeDeleted id) start s.db)
unfolding delete_node get_node_by_id
delete_node-Triple id env start =
    let none_yet : Either (IsNodeDeleted id) start start = inl refl in
    assume-Triple (λ _. bind-Triple (begin-Triple none_yet) (λ started.
      bind-Triple (or_err-Triple none_yet (some start) started db_failed) (λ _.
        bind-Triple (now-Triple none_yet (some start)) (λ ts.
          bind-Triple (execute_in-Triple none_yet _ (soft_delete ts id)) (λ marked.
            bind-Triple (or_err-Triple none_yet _ marked db_failed) (λ _.
              bind-Triple (execute_in-Triple none_yet _ (delete_values_of id)) (λ values_gone.
                bind-Triple (or_err-Triple none_yet _ values_gone db_failed) (λ _.
                  bind-Triple (execute_in-Triple none_yet _ (remove_devices (is_live_of id)))
                    (λ devices_gone.
                      bind-Triple (or_err-Triple none_yet _ devices_gone db_failed) (λ _.
                        bind-Triple (fetch_work-Triple none_yet _ _) (λ read.
                          bind-Triple (or_err_read-Triple none_yet _ read db_failed) (λ found.
                            bind-Triple (execute_in-Triple none_yet _ (delete_node_row id))
                              (λ node_gone.
                                bind-Triple (or_err-Triple none_yet _ node_gone db_failed) (λ _.
                                  bind-Triple (commit-Triple none_yet _ (λ db e. inr (ts, e)))
                                    (λ committed.
                                      bind-Triple (or_err_done-Triple committed db_failed) (λ _.
                                        bind-Triple (unwrap-Triple found)
                                          (λ node. send-Triple _)))))))))))))))))

-- The statements of `delete_value_with_transaction`.
abbrev pub value_deleted : ℤ → Option Db → Option Db
value_deleted id o = and_also (and_also o (remove_measures id)) (remove_values (λ v. eqb_ℤ v.id id))

abbrev pub values_deleted : List ValueUnit → Option Db → Option Db
values_deleted [] o = o
values_deleted (v ∷ vs) o = values_deleted vs (value_deleted v.id o)

unfoldable pub device_deleted : ℤ → Db → Option Db
device_deleted id db =
    and_also (values_deleted (keep (λ v. eqb_ℤ v.parent_device_id id) db.values) (some db))
      (remove_devices (λ d. eqb_ℤ d.id id))

abbrev pub IsDeviceDeleted : ℤ → Db → Option Db → Type 0
IsDeviceDeleted id start o =
    ((d : DeviceRead) × IsRow (find_device id start) d) × (device_deleted id start ≡ o)

module _ {Goal : Db → Type 0} {env : Env} {start : Db} (nothing : Goal start) where
  pub delete_value_with_transaction-Triple :
      (id : ℤ) (o : Option Db)
      → Triple Goal env
          (In start o)
          (delete_value_with_transaction id)
          (λ _. In start (value_deleted id o))
  unfolding delete_value_with_transaction
  delete_value_with_transaction-Triple id o =
      bind-Triple (execute_in-Triple nothing o (remove_measures id)) (λ measures_gone.
        bind-Triple (or_err-Triple nothing _ measures_gone db_failed) (λ _.
          bind-Triple (execute_in-Triple nothing _ (remove_values (λ v. eqb_ℤ v.id id)))
            (λ value_gone. or_err-Triple nothing _ value_gone db_failed)))

  stop-Triple :
      (o : Option Db) → Triple Goal env (In start o) (pure tt) (λ (_ : Unit {0}). In start o)
  stop-Triple o = record { run = λ s p. (p, subst Goal (sym p.0) nothing) }

  delete_values-Triple :
      (vs : List ValueUnit) (o : Option Db)
      → Triple Goal env (In start o) (delete_values vs) (λ _. In start (values_deleted vs o))
  unfolding delete_values
  delete_values-Triple [] o = stop-Triple o
  delete_values-Triple (v ∷ vs) o =
      bind-Triple (delete_value_with_transaction-Triple v.id o)
        (λ _. delete_values-Triple vs (value_deleted v.id o))

pub delete_device-Triple :
    (id : ℤ) (env : Env) (start : Db)
    → Triple
        (Either (IsDeviceDeleted id) start)
        env
        (Knows start (Unit {0}))
        (delete_device id)
        (λ _ s. Either (IsDeviceDeleted id) start s.db)
unfolding delete_device get_value_by_device_id device_deleted
delete_device-Triple id env start =
    let none_yet : Either (IsDeviceDeleted id) start start = inl refl in
    let children = keep (λ v. eqb_ℤ v.parent_device_id id) start.values in
    bind-Triple (get_device_by_id-Triple none_yet id) (λ read.
      bind-Triple (check-Triple none_yet (join read) device_missing) (λ deleted_device.
        bind-Triple (fetch-Triple none_yet _) (λ listed.
          bind-Triple (check-Triple none_yet listed db_failed) (λ devices_values.
            assume-Triple (λ k.
              let ((((_, r), rs), l), ls) = k in
              let row =
                read_inv read (read_optional (find_device id start)) (some deleted_device) r
                  (join-some read deleted_device rs) in
              let all : children ≡ devices_values =
                cc (read_inv listed (some children) devices_values l ls) in
              bind-Triple (begin-Triple none_yet) (λ started.
                bind-Triple (or_err-Triple none_yet (some start) started db_failed) (λ _.
                  bind-Triple (delete_values-Triple none_yet devices_values (some start)) (λ _.
                    bind-Triple (execute_in-Triple none_yet _ (remove_devices (λ d. eqb_ℤ d.id id)))
                      (λ device_gone.
                        bind-Triple (or_err-Triple none_yet _ device_gone db_failed) (λ _.
                          bind-Triple
                            (commit-Triple none_yet _ (λ db e. inr (
                              (
                                deleted_device,
                                read_optional-IsRow (find_device id start) deleted_device row,
                              ),
                              rw all e,
                            )))
                            (λ committed. bind-Triple (or_err_done-Triple committed db_failed) (λ _.
                              bind-Triple (get_node_by_id_done-Triple deleted_device.parent_node_id)
                                (λ node.
                                  tell-Triple _ env ConfigEventType.update_node node)))))))))))))
