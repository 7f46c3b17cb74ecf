-- ===== src/Store/ValueEffects.antt =====
-- What the commands on values do to the tables, and when.
use mathlib.Core.Path.{subst}
use Prim.Native.String.{String}
use modbus_tcplogger.Common.{◌≡◌, inl, inr, refl, sym, ◌∙◌, true, not, Option, none, some}
use modbus_tcplogger.Common.Int.{ℤ, pos, eqb_ℤ}
use modbus_tcplogger.Plugins.Decode.{check_json}
use modbus_tcplogger.Store.{
  Node, Device, ValueUnit, Db, ValueCreate, ValueUpdate, db_failed, value_missing, bad_settings,
  device_missing,
}
use modbus_tcplogger.Store.Sql.{Env, first, coalesce}
use modbus_tcplogger.Store.Devices.{find_device, join}
use modbus_tcplogger.Store.Values.{
  get_value_by_id, get_node_directly_by_device_id, node_of_device, tell_update, delete_value,
  create_value, value_update, insert_value, update_value_row, check_device, check_settings,
  check_new_device, tell_first, tell_second, tell_if_other,
}
use modbus_tcplogger.Store.Triple.{
  Triple, bind-Triple, begin-Triple, or_err-Triple, commit-Triple, or_err_done-Triple, pure-Triple,
  send-Triple, fetch_done-Triple,
}
use modbus_tcplogger.Store.Reads.{
  read_inv, not-false, Knows, IsRead, fetch-Triple, check-Triple, guard_not-Triple, asks-Triple,
  pass-Triple, execute-Triple, weaken-Triple, assume-Triple,
}
use modbus_tcplogger.Store.Effects.{Either}
use modbus_tcplogger.Store.DeviceUpdates.{join-some}
use modbus_tcplogger.Store.Whole.{value_deleted, delete_value_with_transaction-Triple}

abbrev pub find_value : ℤ → Db → Option ValueUnit
find_value id db = first (λ v. eqb_ℤ v.id id) db.values

-- A value is deleted, with its measures, where it exists.
abbrev pub IsValueDeleted : ℤ → Db → Option Db → Type 0
IsValueDeleted id start o =
    ((v : ValueUnit) × (find_value id start ≡ some v)) × (value_deleted id (some start) ≡ o)

-- A value is created where its settings fit the plugin and its device exists and is not deleted.
abbrev pub IsValueCreated : Env → ValueCreate → Db → Option Db → Type 0
IsValueCreated env c start o =
    (check_json env.serde c.decoding_type c.settings ≡ true)
    × ((d : Device) × (find_device c.parent_device_id start ≡ some d))
    × (insert_value env.same_text c start ≡ o)

abbrev pub AreSettingsValid : Env → ℤ → Option String → Type 0
AreSettingsValid env decoding_type none = Unit {0}
AreSettingsValid env decoding_type (some setting) =
    check_json env.serde decoding_type setting ≡ true

abbrev pub IsDeviceThere : Option ℤ → Db → Type 0
IsDeviceThere none start = Unit {0}
IsDeviceThere (some id) start = (d : Device) × (find_device id start ≡ some d)

-- A value is changed where it exists, new settings fit the plugin that it is to have, and a new device
-- exists and is not deleted.
abbrev pub IsValueUpdated : Env → ValueUpdate → Db → Option Db → Type 0
IsValueUpdated env c start o =
    ((v : ValueUnit) × (find_value c.id start ≡ some v)
      × AreSettingsValid env (coalesce c.decoding_type v.decoding_type) c.settings)
    × IsDeviceThere c.parent_device_id start
    × (update_value_row env.same_text c start ≡ o)

module _ {Goal : Db → Type 0} {env : Env} where
  node_of_done-Triple :
      (id : ℤ)
      → Triple Goal env (λ s. Goal s.db) (get_node_directly_by_device_id id) (λ _ s. Goal s.db)
  unfolding get_node_directly_by_device_id
  node_of_done-Triple id = fetch_done-Triple (λ db. node_of_device id db)

  tell_update-Triple :
      (x : Option Node) → Triple Goal env (λ s. Goal s.db) (tell_update x) (λ _ s. Goal s.db)
  tell_update-Triple none = pure-Triple tt
  tell_update-Triple (some node) = send-Triple _

  tell_first-Triple :
      (x : Option Node) → Triple Goal env (λ s. Goal s.db) (tell_first x) (λ _ s. Goal s.db)
  tell_first-Triple none = pure-Triple (pos 0)
  tell_first-Triple (some node) = bind-Triple (send-Triple _) (λ _. pure-Triple node.id)

  tell_if_other-Triple :
      (told : ℤ) (x : Option Node)
      → Triple Goal env (λ s. Goal s.db) (tell_if_other told x) (λ _ s. Goal s.db)
  tell_if_other-Triple told none = pure-Triple tt
  tell_if_other-Triple told (some node) = tell_update-Triple _

  tell_second-Triple :
      (told : ℤ) (x : Option ℤ)
      → Triple Goal env (λ s. Goal s.db) (tell_second told x) (λ _ s. Goal s.db)
  tell_second-Triple told none = pure-Triple tt
  tell_second-Triple told (some id) =
      bind-Triple (node_of_done-Triple id) (λ node. tell_if_other-Triple told node)

module _ {Goal : Db → Type 0} {env : Env} {start : Db} {Known : Type 0} (nothing : Goal start) where
  get_value_by_id-Triple :
      (id : ℤ)
      → Triple Goal env
          (Knows start Known)
          (get_value_by_id id)
          (λ a. Knows start (Known × IsRead a (some (find_value id start))))
  unfolding get_value_by_id
  get_value_by_id-Triple id = fetch-Triple nothing (λ db. some (find_value id db))

  check_device-Triple :
      (id : ℤ)
      → Triple Goal env
          (Knows start Known)
          (check_device id)
          (λ _. Knows start (Known × IsDeviceThere (some id) start))
  unfolding check_device
  check_device-Triple id =
      bind-Triple (fetch-Triple nothing (λ db. some (find_device id db))) (λ read.
        bind-Triple (check-Triple nothing read db_failed) (λ dev.
          bind-Triple (check-Triple nothing dev device_missing) (λ found.
            weaken-Triple (λ s k. k) (λ _ s k. (k.0, (k.1.0.0.0.0, k.1.1)))
              (pass-Triple nothing tt (λ k.
                let (((_, r), ks), there) = k in
                (found, cc (read_inv read (some (find_device id start)) dev r ks)))))))

  check_new_device-Triple :
      (x : Option ℤ)
      → Triple Goal env
          (Knows start Known)
          (check_new_device x)
          (λ _. Knows start (Known × IsDeviceThere x start))
  check_new_device-Triple none = pass-Triple nothing tt (λ k. tt)
  check_new_device-Triple (some id) = check_device-Triple id

  check_settings-Triple :
      (t : ℤ) (x : Option String)
      → Triple Goal env
          (Knows start Known)
          (check_settings t x)
          (λ _. Knows start (Known × AreSettingsValid env t x))
  check_settings-Triple t none = pass-Triple nothing tt (λ k. tt)
  check_settings-Triple t (some setting) = bind-Triple (asks-Triple nothing _) (λ valid.
      weaken-Triple (λ s k. k) (λ _ s k. (k.0, (k.1.0.0, sym k.1.0.1 ∙ not-false valid k.1.1)))
        (guard_not-Triple nothing (not valid) bad_settings))

pub delete_value-Triple :
    (id : ℤ) (env : Env) (start : Db)
    → Triple
        (Either (IsValueDeleted id) start)
        env
        (Knows start (Unit {0}))
        (delete_value id)
        (λ _ s. Either (IsValueDeleted id) start s.db)
unfolding delete_value
delete_value-Triple id env start =
    let none_yet : Either (IsValueDeleted id) start start = inl refl in
    bind-Triple (get_value_by_id-Triple none_yet id) (λ read.
      bind-Triple (check-Triple none_yet (join read) value_missing) (λ old. assume-Triple (λ k.
        let found =
          read_inv read (some (find_value id start)) (some old) k.0.1 (join-some read old k.1) in
        bind-Triple (begin-Triple none_yet) (λ started.
          bind-Triple (or_err-Triple none_yet (some start) started db_failed) (λ _.
            bind-Triple (delete_value_with_transaction-Triple none_yet id (some start)) (λ _.
              bind-Triple (commit-Triple none_yet _ (λ db e. inr ((old, cc), e))) (λ committed.
                bind-Triple (or_err_done-Triple committed db_failed) (λ _.
                  bind-Triple (node_of_done-Triple old.parent_device_id)
                    (λ node. tell_update-Triple node)))))))))

pub create_value-Triple :
    (c : ValueCreate) (env : Env) (start : Db)
    → Triple
        (Either (IsValueCreated env c) start)
        env
        (Knows start (Unit {0}))
        (create_value c)
        (λ _ s. Either (IsValueCreated env c) start s.db)
unfolding create_value
create_value-Triple c env start =
    let none_yet : Either (IsValueCreated env c) start start = inl refl in
    bind-Triple (asks-Triple none_yet _) (λ valid.
      bind-Triple (guard_not-Triple none_yet _ bad_settings) (λ _.
        bind-Triple (check_device-Triple none_yet c.parent_device_id) (λ _.
          bind-Triple (asks-Triple none_yet _) (λ same_text.
            bind-Triple
              (execute-Triple none_yet (insert_value same_text c) (λ db k e.
                let ((((_, v), nv), there), same) = k in
                inr (
                  sym v ∙ not-false valid nv,
                  there,
                  subst (λ f. insert_value f c start ≡ some db) same e,
                )))
              (λ inserted. bind-Triple (or_err_done-Triple inserted db_failed) (λ _.
                bind-Triple (node_of_done-Triple c.parent_device_id)
                  (λ node. tell_update-Triple node)))))))

pub value_update-Triple :
    (c : ValueUpdate) (env : Env) (start : Db)
    → Triple
        (Either (IsValueUpdated env c) start)
        env
        (Knows start (Unit {0}))
        (value_update c)
        (λ _ s. Either (IsValueUpdated env c) start s.db)
unfolding value_update
value_update-Triple c env start =
    let none_yet : Either (IsValueUpdated env c) start start = inl refl in
    bind-Triple (get_value_by_id-Triple none_yet c.id) (λ read.
      bind-Triple (check-Triple none_yet (join read) value_missing) (λ old.
        bind-Triple (get_value_by_id-Triple none_yet c.id) (λ again.
          bind-Triple (check-Triple none_yet again db_failed) (λ row.
            bind-Triple (check-Triple none_yet row value_missing) (λ val.
              bind-Triple (check_settings-Triple none_yet _ c.settings) (λ _.
                bind-Triple (check_new_device-Triple none_yet c.parent_device_id) (λ _.
                  bind-Triple (asks-Triple none_yet _) (λ same_text.
                    bind-Triple
                      (execute-Triple none_yet (update_value_row same_text c) (λ db k e.
                        let ((((((_, a), as_row), is_val), valid), there), same) = k in
                        let found = read_inv again (some (find_value c.id start)) row a as_row in
                        inr (
                          (val, cc, valid),
                          there,
                          subst (λ f. update_value_row f c start ≡ some db) same e,
                        )))
                      (λ written. bind-Triple (or_err_done-Triple written db_failed) (λ _.
                        bind-Triple (node_of_done-Triple old.parent_device_id) (λ node.
                          bind-Triple (tell_first-Triple node) (λ new_node_id.
                            tell_second-Triple new_node_id c.parent_device_id))))))))))))
