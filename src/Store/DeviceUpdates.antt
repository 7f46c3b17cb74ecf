-- ===== src/Store/DeviceUpdates.antt =====
-- What the command that updates a device does to the tables, and when.
use modbus_tcplogger.Common.{
  ◌≡◌, inl, inr, refl, Bool, true, false, not, ◌&&◌, ◌||◌, Option, none, some,
}
use modbus_tcplogger.Common.Int.{ℤ, pos, eqb_ℤ, ltb_ℤ, leb_ℤ}
use modbus_tcplogger.ReadMaster.{ConfigEventType}
use modbus_tcplogger.Store.{
  Node, Device, DeviceRead, Db, DeviceUpdate, db_failed, node_missing, bad_address, bad_recall,
  bad_retry, bad_timeout, bad_parent, address_taken, device_missing,
}
use modbus_tcplogger.Store.Sql.{Env}
use modbus_tcplogger.Store.Nodes.{find_node}
use modbus_tcplogger.Store.Devices.{read_optional, find_device, get_device_by_id, join}
use modbus_tcplogger.Store.DeviceWrites.{
  find_address, update_device, update_device_row, refuse_other_device, check_new_parent,
  check_address, ask_address, is_some, holds, tell_node, tell_new_node, tell_old_node,
}
use modbus_tcplogger.Store.Triple.{
  Triple, bind-Triple, or_err_done-Triple, pure-Triple, send-Triple, fetch_done-Triple,
}
use modbus_tcplogger.Store.Reads.{
  read_inv, not-false, Knows, IsRead, fetch-Triple, check-Triple, guard_not-Triple, pass-Triple,
  execute-Triple, weaken-Triple,
}
use modbus_tcplogger.Store.Effects.{
  Either, tell-Triple, get_node_by_id-Triple, get_node_by_id_done-Triple,
}
use modbus_tcplogger.Store.DeviceEffects.{read_optional-none, IsRow, read_optional-IsRow}

-- The query for a taken address, if it is asked, finds the device itself or none.
abbrev pub IsOwnRow : ℤ → Option Device → Type 0
IsOwnRow id none = Unit {0}
IsOwnRow id (some d) = eqb_ℤ d.id id ≡ true

abbrev pub IsAddressFree : Bool → DeviceUpdate → Db → Type 0
IsAddressFree false c start = Unit {0}
IsAddressFree true c start = IsOwnRow c.id (find_address c.address c.parent_node_id start)

abbrev pub IsParentThere : Option ℤ → Db → Type 0
IsParentThere none start = Unit {0}
IsParentThere (some p) start = (node : Node) × (find_node p start ≡ some node)

-- The numbers that are given are in range; unlike those of a new device they may be 0.
abbrev pub IsUpdateInRange : DeviceUpdate → Type 0
IsUpdateInRange c =
    (holds c.address (λ a. not (leb_ℤ (pos 0) a && leb_ℤ a (pos 255))) ≡ false)
    × (holds c.time_for_recall (λ r. ltb_ℤ r (pos 0)) ≡ false)
    × (holds c.timeout (λ t. ltb_ℤ t (pos 0)) ≡ false)
    × (holds c.retry_count (λ r. ltb_ℤ r (pos 0)) ≡ false)

-- A device is changed where the numbers are in range, a new parent exists, the query for a taken
-- address finds no other device, and the device is there and not deleted.
abbrev pub IsDeviceUpdated : DeviceUpdate → Db → Option Db → Type 0
IsDeviceUpdated c start o =
    IsUpdateInRange c
    × IsParentThere c.parent_node_id start
    × IsAddressFree (is_some c.address || is_some c.parent_node_id) c start
    × ((old : DeviceRead) × IsRow (find_device c.id start) old)
    × (update_device_row c start ≡ o)

own_row :
    (id : ℤ) (r : DeviceRead) (o : Option Device) → IsRow o r → eqb_ℤ r.id id ≡ true → IsOwnRow id o
own_row id r none h e = tt
own_row id r (some d) h e = rw h.0 e

refuse_other_row :
    {Goal : Db → Type 0} {env : Env} {start : Db} {Known : Type 0} (nothing : Goal start) (id : ℤ)
    (x : Option DeviceRead) (o : Option Device)
    → (Known → read_optional o ≡ some x)
    → Triple Goal env
        (Knows start Known)
        (refuse_other_device id x)
        (λ _. Knows start (Known × IsOwnRow id o))
refuse_other_row nothing id none o row =
    pass-Triple nothing tt (λ k. rw (read_optional-none o (row k)) tt)
refuse_other_row nothing id (some d) o row =
    weaken-Triple (λ s k. k)
      (λ _ s k. (
        k.0,
        (
          k.1.0,
          own_row id d o (read_optional-IsRow o d (row k.1.0)) (not-false (eqb_ℤ d.id id) k.1.1),
        ),
      ))
      (guard_not-Triple nothing (not (eqb_ℤ d.id id)) address_taken)

module _ {Goal : Db → Type 0} {env : Env} {start : Db} {Known : Type 0} (nothing : Goal start) where
  check_new_parent-Triple :
      (p : Option ℤ)
      → Triple Goal env
          (Knows start Known)
          (check_new_parent p)
          (λ _. Knows start (Known × IsParentThere p start))
  unfolding check_new_parent
  check_new_parent-Triple none = pass-Triple nothing tt (λ k. tt)
  check_new_parent-Triple (some p) = bind-Triple (guard_not-Triple nothing _ bad_parent) (λ _.
      bind-Triple (get_node_by_id-Triple nothing p) (λ read.
        bind-Triple (check-Triple nothing read db_failed) (λ node.
          bind-Triple (check-Triple nothing node node_missing) (λ found.
            weaken-Triple (λ s k. k) (λ _ s k. (k.0, (k.1.0.0.0.0.0, k.1.1)))
              (pass-Triple nothing tt (λ k.
                let ((((_, _), r), ks), nd) = k in
                (found, cc (read_inv read (some (find_node p start)) node r ks))))))))

  ask_address-Triple :
      (b : Bool) (c : DeviceUpdate)
      → Triple Goal env
          (Knows start Known)
          (ask_address b c)
          (λ _. Knows start (Known × IsAddressFree b c start))
  ask_address-Triple false c = pass-Triple nothing tt (λ k. tt)
  ask_address-Triple true c = bind-Triple (fetch-Triple nothing _) (λ found.
      bind-Triple (check-Triple nothing found db_failed) (λ device_read.
        weaken-Triple (λ s k. k) (λ _ s k. (k.0, (k.1.0.0.0, k.1.1)))
          (refuse_other_row nothing c.id device_read (find_address c.address c.parent_node_id start)
            (λ k.
              read_inv found (read_optional (find_address c.address c.parent_node_id start))
                device_read k.0.1 k.1))))

  pub get_device_by_id-Triple :
      (id : ℤ)
      → Triple Goal env
          (Knows start Known)
          (get_device_by_id id)
          (λ a. Knows start (Known × IsRead a (read_optional (find_device id start))))
  unfolding get_device_by_id
  get_device_by_id-Triple id = fetch-Triple nothing (λ db. read_optional (find_device id db))

pub join-some : {A : Type 0} (o : Option (Option A)) (a : A) → join o ≡ some a → o ≡ some (some a)
join-some none a h = cc
join-some (some none) a h = cc
join-some (some (some b)) a h = cc

-- What follows the update only reads and sends.
module _ {Goal : Db → Type 0} {env : Env} where
  tell_node-Triple :
      (x : Option Node) → Triple Goal env (λ s. Goal s.db) (tell_node x) (λ _ s. Goal s.db)
  tell_node-Triple none = pure-Triple (pos 0)
  tell_node-Triple (some node) = bind-Triple (send-Triple _) (λ _. pure-Triple node.id)

  tell_new_node-Triple :
      (x : Option DeviceRead)
      → Triple Goal env (λ s. Goal s.db) (tell_new_node x) (λ _ s. Goal s.db)
  unfolding tell_new_node
  tell_new_node-Triple none = pure-Triple (pos 0)
  tell_new_node-Triple (some d) =
      bind-Triple (get_node_by_id_done-Triple d.parent_node_id)
        (λ node. tell_node-Triple (join node))

  tell_old_node-Triple :
      (b : Bool) (old : ℤ)
      → Triple Goal env (λ s. Goal s.db) (tell_old_node b old) (λ _ s. Goal s.db)
  unfolding tell_old_node
  tell_old_node-Triple true old = pure-Triple tt
  tell_old_node-Triple false old =
      bind-Triple (get_node_by_id_done-Triple old)
        (λ node. tell-Triple _ env ConfigEventType.update_node node)

  get_device_by_id_done-Triple :
      (id : ℤ) → Triple Goal env (λ s. Goal s.db) (get_device_by_id id) (λ _ s. Goal s.db)
  unfolding get_device_by_id
  get_device_by_id_done-Triple id = fetch_done-Triple (λ db. read_optional (find_device id db))

pub update_device-Triple :
    (c : DeviceUpdate) (env : Env) (start : Db)
    → Triple
        (Either (IsDeviceUpdated c) start)
        env
        (Knows start (Unit {0}))
        (update_device c)
        (λ _ s. Either (IsDeviceUpdated c) start s.db)
unfolding update_device check_address
update_device-Triple c env start =
    let none_yet : Either (IsDeviceUpdated c) start start = inl refl in
    bind-Triple (guard_not-Triple none_yet _ bad_address) (λ _.
      bind-Triple (guard_not-Triple none_yet _ bad_recall) (λ _.
        bind-Triple (guard_not-Triple none_yet _ bad_timeout) (λ _.
          bind-Triple (guard_not-Triple none_yet _ bad_retry) (λ _.
            bind-Triple (check_new_parent-Triple none_yet c.parent_node_id) (λ _.
              bind-Triple (ask_address-Triple none_yet _ c) (λ _.
                bind-Triple (get_device_by_id-Triple none_yet c.id) (λ read.
                  bind-Triple (check-Triple none_yet (join read) device_missing) (λ old.
                    bind-Triple
                      (execute-Triple none_yet (update_device_row c) (λ db k e.
                        let ((((((((_, ad), re), tm), rt), there), free), r), is_old) = k in
                        let row =
                          read_inv read (read_optional (find_device c.id start)) (some old) r
                            (join-some read old is_old) in
                        inr (
                          (ad, re, tm, rt),
                          there,
                          free,
                          (old, read_optional-IsRow (find_device c.id start) old row),
                          e,
                        )))
                      (λ written. bind-Triple (or_err_done-Triple written db_failed) (λ _.
                        bind-Triple (get_device_by_id_done-Triple c.id) (λ device_update.
                          bind-Triple (tell_new_node-Triple (join device_update)) (λ new_node.
                            tell_old_node-Triple (eqb_ℤ new_node old.parent_node_id)
                              old.parent_node_id))))))))))))
