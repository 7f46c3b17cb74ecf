-- ===== src/Store/HousedDeletes.antt =====
-- The deletions leave no live device without a node.
use modbus_tcplogger.Common.{
  ◌≡◌, refl, Bool, true, false, not, ◌&&◌, ◌||◌, Option, none, some, List, [], ◌∷◌, keep,
  if◌then◌else◌, arith,
}
use modbus_tcplogger.Common.Int.{ℤ, eqb_ℤ}
use modbus_tcplogger.Store.{Node, Device, Db}
use modbus_tcplogger.Store.Sql.{any}
use modbus_tcplogger.Store.Nodes.{
  is_parent, is_of_node, is_live_of, orphan, remove_devices, delete_node_row,
}
use modbus_tcplogger.Store.Triple.{and_also}
use modbus_tcplogger.Store.Housed.{parent_in, IsHoused, AllHoused, All_map, All_keep, Sound}

-- Once the live devices of the node are removed, none of those that are left stands on it.
stays_in :
    (id p : ℤ) (xs : List Node)
    → eqb_ℤ p id ≡ false
    → parent_in xs (some p) ≡ true
    → parent_in (keep (λ n. not (eqb_ℤ n.id id)) xs) (some p) ≡ true
unfolding any
stays_in id p [] ne h = cc
stays_in id p (x ∷ xs) ne h = ground (arith, stays_in id p xs)

away_in :
    (id : ℤ) (nodes : List Node) (b : Bool) (o : Option ℤ)
    → is_parent id o ≡ false
    → (b || parent_in nodes o) ≡ true
    → (b || parent_in (keep (λ n. not (eqb_ℤ n.id id)) nodes) o) ≡ true
away_in id nodes true o ne h = refl
away_in id nodes false none ne h = h
away_in id nodes false (some p) ne h = stays_in id p nodes ne h

if_cases :
    {A : Type 0} (P : A → Type 0) (b : Bool) (x y : A)
    → (b ≡ true → P x)
    → (b ≡ false → P y)
    → P (if b then x else y)
if_cases P true x y p q = p refl
if_cases P false x y p q = q refl

deleted_here : (b c : Bool) → b ≡ true → not (b && not c) ≡ true → (c || false) ≡ true
deleted_here b c h e = ground arith

orphan-IsHoused :
    (id : ℤ) (nodes : List Node) (d : Device)
    → IsHoused nodes d × (not (is_live_of id d) ≡ true)
    → IsHoused (keep (λ n. not (eqb_ℤ n.id id)) nodes) (orphan id d)
orphan-IsHoused id nodes d h =
    if_cases (IsHoused (keep (λ n. not (eqb_ℤ n.id id)) nodes)) (is_of_node id d)
      (record d { parent_node_id = none }) d
      (λ here. deleted_here (is_of_node id d) d.deleted here h.1)
      (λ elsewhere. away_in id nodes d.deleted d.parent_node_id elsewhere h.0)

unless_also :
    (b : Bool) (db : Db) (f : Db → Option Db)
    → Sound (f db)
    → Sound (and_also (if b then none else some db) f)
unless_also true db f h = tt
unless_also false db f h = h

-- The last two statements of the deletion of a node, in one.
pub delete_rows-Sound :
    (id : ℤ) (db : Db)
    → AllHoused db
    → Sound (and_also (remove_devices (is_live_of id) db) (delete_node_row id))
unfolding remove_devices delete_node_row
delete_rows-Sound id db h =
    let kept =
      All_keep (IsHoused db.nodes) (λ d. IsHoused db.nodes d × (not (is_live_of id d) ≡ true))
        (λ d. not (is_live_of id d)) db.devices (λ d k e. (k, e)) h in
    let rest = record db { devices = keep (λ d. not (is_live_of id d)) db.devices } in
    unless_also
      (any (λ v. any (λ d. is_live_of id d && eqb_ℤ d.id v.parent_device_id) db.devices) db.values)
      rest (delete_node_row id)
      (All_map (λ d. IsHoused db.nodes d × (not (is_live_of id d) ≡ true))
        (IsHoused (keep (λ n. not (eqb_ℤ n.id id)) db.nodes)) (orphan id) rest.devices
        (orphan-IsHoused id db.nodes) kept)
