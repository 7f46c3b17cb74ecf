-- ===== src/Store/DeviceEffects.antt =====
-- What the commands on devices do to the tables, and when.
use modbus_tcplogger.Common.{arith, ◌≢◌, ◌≡◌, inl, inr, refl, false, ◌||◌, Option, none, some}
use modbus_tcplogger.Common.Int.{ℤ, pos, ltb_ℤ, leb_ℤ}
use modbus_tcplogger.ReadMaster.{ConfigEventType}
use modbus_tcplogger.Store.{
  Node, Device, DeviceRead, Db, DeviceCreate, db_failed, node_missing, bad_address, bad_recall,
  bad_retry, bad_timeout, bad_parent, address_taken,
}
use modbus_tcplogger.Store.Sql.{Env}
use modbus_tcplogger.Store.Nodes.{find_node}
use modbus_tcplogger.Store.Devices.{read_row, read_optional, found_row, read_parent}
use modbus_tcplogger.Store.DeviceWrites.{find_address, create_device, insert_device, refuse_device}
use modbus_tcplogger.Store.Triple.{Triple, bind-Triple, or_err_done-Triple}
use modbus_tcplogger.Store.Reads.{
  read_inv, Knows, fetch-Triple, check-Triple, guard_not-Triple, pass-Triple, refuse-Triple,
  execute-Triple,
}
use modbus_tcplogger.Store.Effects.{
  Either, tell-Triple, get_node_by_id-Triple, get_node_by_id_done-Triple,
}

read_parent-none : (d : Device) (p : Option ℤ) → found_row (read_parent d p) ≢ some none
read_parent-none d none h = cc
read_parent-none d (some p) h = cc

pub read_optional-none : (o : Option Device) → read_optional o ≡ some none → o ≡ none
unfolding read_row
read_optional-none none h = refl
read_optional-none (some d) h = absurd (read_parent-none d d.parent_node_id h)

-- The row that a query has found, as it was read.
abbrev pub IsRow : Option Device → DeviceRead → Type 0
IsRow none r = ⊥
IsRow (some d) r = (d.id ≡ r.id) × (d.parent_node_id ≡ some r.parent_node_id)

read_parent-IsRow :
    (d : Device) (p : Option ℤ) (r : DeviceRead)
    → found_row (read_parent d p) ≡ some (some r)
    → (d.id ≡ r.id) × (p ≡ some r.parent_node_id)
read_parent-IsRow d none r h = cc
read_parent-IsRow d (some p) r h = ground arith

pub read_optional-IsRow :
    (o : Option Device) (r : DeviceRead) → read_optional o ≡ some (some r) → IsRow o r
unfolding read_row
read_optional-IsRow none r h = cc
read_optional-IsRow (some d) r h = read_parent-IsRow d d.parent_node_id r h

-- The numbers of a new device are in range.
abbrev pub IsInRange : DeviceCreate → Type 0
IsInRange c =
    ((ltb_ℤ c.address (pos 0) || ltb_ℤ (pos 255) c.address) ≡ false)
    × (leb_ℤ c.time_for_recall (pos 0) ≡ false)
    × (leb_ℤ c.retry_count (pos 0) ≡ false)
    × (leb_ℤ c.timeout (pos 0) ≡ false)

-- A device is created where its numbers are in range, its node exists and has no live device with the
-- address.
abbrev pub IsDeviceCreated : DeviceCreate → Db → Option Db → Type 0
IsDeviceCreated c start o =
    IsInRange c
    × ((node : Node) × (find_node c.parent_node_id start ≡ some node))
    × (find_address (some c.address) (some c.parent_node_id) start ≡ none)
    × (insert_device c start ≡ o)

refuse_device-Triple :
    {Goal : Db → Type 0} {env : Env} {start : Db} {Known : Type 0} (nothing : Goal start)
    (x : Option DeviceRead)
    → Triple Goal env (Knows start Known) (refuse_device x) (λ _. Knows start (Known × (x ≡ none)))
refuse_device-Triple nothing none = pass-Triple nothing tt (λ k. refl)
refuse_device-Triple nothing (some d) = refuse-Triple nothing address_taken

pub create_device-Triple :
    (c : DeviceCreate) (env : Env) (start : Db)
    → Triple
        (Either (IsDeviceCreated c) start)
        env
        (Knows start (Unit {0}))
        (create_device c)
        (λ _ s. Either (IsDeviceCreated c) start s.db)
unfolding create_device
create_device-Triple c env start =
    let none_yet : Either (IsDeviceCreated c) start start = inl refl in
    bind-Triple (guard_not-Triple none_yet _ bad_address) (λ _.
      bind-Triple (guard_not-Triple none_yet _ bad_recall) (λ _.
        bind-Triple (guard_not-Triple none_yet _ bad_retry) (λ _.
          bind-Triple (guard_not-Triple none_yet _ bad_timeout) (λ _.
            bind-Triple (guard_not-Triple none_yet _ bad_parent) (λ _.
              bind-Triple (get_node_by_id-Triple none_yet c.parent_node_id) (λ read.
                bind-Triple (check-Triple none_yet read db_failed) (λ node_read.
                  bind-Triple (check-Triple none_yet node_read node_missing) (λ node.
                    bind-Triple (fetch-Triple none_yet _) (λ found.
                      bind-Triple (check-Triple none_yet found db_failed) (λ device_read.
                        bind-Triple (refuse_device-Triple none_yet device_read) (λ _.
                          bind-Triple
                            (execute-Triple none_yet (insert_device c) (λ db k e.
                              let (
                                ((((((((((_, ad), re), rt), tm), pa), r), rs), nd), f), fs),
                                fn,
                              ) =
                                k in
                              let is_node =
                                read_inv read (some (find_node c.parent_node_id start)) node_read r
                                  rs in
                              let unused =
                                read_inv found
                                  (read_optional
                                    (find_address (some c.address) (some c.parent_node_id) start))
                                  device_read f fs in
                              inr (
                                (ad, re, rt, tm),
                                (node, cc),
                                read_optional-none
                                    (find_address (some c.address) (some c.parent_node_id) start)
                                    cc,
                                e,
                              )))
                            (λ inserted. bind-Triple (or_err_done-Triple inserted db_failed) (λ _.
                              bind-Triple (get_node_by_id_done-Triple c.parent_node_id) (λ node.
                                tell-Triple _ env ConfigEventType.update_node node))))))))))))))
