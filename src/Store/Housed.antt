-- ===== src/Store/Housed.antt =====
-- Every device that is not deleted has a node: the schema allows NULL as a parent, the commands of
-- db/worker never leave a live device with it.
use mathlib.Core.Path.{subst}
use Prim.Native.String.{String}
use modbus_tcplogger.Common.{
  ℕ, ◌≡◌, inl, inr, refl, Bool, true, false, not, ◌&&◌, ◌||◌, Option, none, some, List, [], ◌∷◌,
  ◌++◌, map, keep, All, All-append, if◌then◌else◌, Bool-cases, arith,
}
use modbus_tcplogger.Common.Int.{ℤ, eqb_ℤ}
use modbus_tcplogger.Store.{
  Node, Device, ValueUnit, Db, NodeCreate, NodeUpdate, DeviceCreate, DeviceUpdate, ValueCreate,
  ValueUpdate,
}
use modbus_tcplogger.Store.Sql.{any, coalesce_null}
use modbus_tcplogger.Store.Nodes.{
  is_of_node, has_logging, mark_deleted, soft_delete, remove_values, remove_devices, insert_node,
  update_node_row, changed_node,
}
use modbus_tcplogger.Store.Devices.{remove_measures}
use modbus_tcplogger.Store.DeviceWrites.{
  insert_device, update_device_row, changed_device, has_node, new_row,
}
use modbus_tcplogger.Store.Triple.{and_also}
use modbus_tcplogger.Store.Values.{insert_value, update_value_row}

abbrev pub parent_in : List Node → Option ℤ → Bool
parent_in nodes none = false
parent_in nodes (some p) = any (λ n. eqb_ℤ n.id p) nodes

-- The device is deleted, or its parent is a node.
abbrev pub is_housed : List Node → Device → Bool
is_housed nodes d = d.deleted || parent_in nodes d.parent_node_id

abbrev pub IsHoused : List Node → Device → Type 0
IsHoused nodes d = is_housed nodes d ≡ true

abbrev pub AllHoused : Db → Type 0
AllHoused db = All (IsHoused db.nodes) db.devices

pub All_map :
    {A : Type 0} (P Q : A → Type 0) (f : A → A) (xs : List A)
    → ((x : A) → P x → Q (f x))
    → All P xs
    → All Q (map f xs)
All_map P Q f [] k h = tt
All_map P Q f (x ∷ xs) k h = (k x h.0, All_map P Q f xs k h.1)

pub All_keep :
    {A : Type 0} (P Q : A → Type 0) (p : A → Bool) (xs : List A)
    → ((x : A) → P x → p x ≡ true → Q x)
    → All P xs
    → All Q (keep p xs)
All_keep P Q p [] k h = tt
All_keep P Q p (x ∷ xs) k h = elim (Bool-cases (p x)) [
  | inl e ↦ rw e (k x h.0 e, All_keep P Q p xs k h.1)
  | inr e ↦ rw e (All_keep P Q p xs k h.1)
]

pub All_imply :
    {A : Type 0} (P Q : A → Type 0) (xs : List A) → ((x : A) → P x → Q x) → All P xs → All Q xs
All_imply P Q [] k h = tt
All_imply P Q (x ∷ xs) k h = (k x h.0, All_imply P Q xs k h.1)

-- More nodes house no fewer devices.
IsHoused-mono :
    (xs ys : List Node) (d : Device)
    → ((p : ℤ) → parent_in xs (some p) ≡ true → parent_in ys (some p) ≡ true)
    → IsHoused xs d
    → IsHoused ys d
IsHoused-mono xs ys d k h = mono d.deleted d.parent_node_id h
  where
    mono : (b : Bool) (o : Option ℤ) → (b || parent_in xs o) ≡ true → (b || parent_in ys o) ≡ true
    mono true o h = refl
    mono false none h = h
    mono false (some p) h = k p h

any_append :
    (p : ℤ) (xs ys : List Node)
    → parent_in xs (some p) ≡ true
    → parent_in (xs ++ ys) (some p) ≡ true
unfolding any
any_append p [] ys h = cc
any_append p (x ∷ xs) ys h = ground (arith, any_append p xs ys)

-- The tables that a statement leaves, if it is not refused.
abbrev pub Sound : Option Db → Type 0
Sound none = Unit {0}
Sound (some db) = AllHoused db

pub Sound-some : (o : Option Db) (db : Db) → Sound o → o ≡ some db → AllHoused db
Sound-some o db h e = subst Sound e h

pub and_also-Sound :
    (o : Option Db) (f : Db → Option Db)
    → Sound o
    → ((db : Db) → AllHoused db → Sound (f db))
    → Sound (and_also o f)
and_also-Sound none f h k = tt
and_also-Sound (some db) f h k = k db h

unless-Sound : (b : Bool) (o : Option Db) → Sound o → Sound (if b then none else o)
unless-Sound true o h = tt
unless-Sound false o h = h

when-Sound : (b : Bool) (o : Option Db) → (b ≡ true → Sound o) → Sound (if b then o else none)
when-Sound true o h = h refl
when-Sound false o h = tt

pub insert_node-Sound : (c : NodeCreate) (db : Db) → AllHoused db → Sound (insert_node c db)
unfolding insert_node
insert_node-Sound c db h =
    All_imply (IsHoused db.nodes) (IsHoused _) db.devices
      (λ d. IsHoused-mono db.nodes _ d (λ p. any_append p db.nodes _)) h

any_map :
    (c : NodeUpdate) (p : ℤ) (xs : List Node)
    → parent_in xs (some p) ≡ true
    → parent_in (map (λ n. if eqb_ℤ n.id c.id then changed_node c n else n) xs) (some p) ≡ true
unfolding any changed_node
any_map c p [] h = cc
any_map c p (x ∷ xs) h = ground (arith, any_map c p xs)

pub update_node_row-Sound : (c : NodeUpdate) (db : Db) → AllHoused db → Sound (update_node_row c db)
unfolding update_node_row
update_node_row-Sound c db h =
    All_imply (IsHoused db.nodes) (IsHoused _) db.devices
      (λ d. IsHoused-mono db.nodes _ d (λ p. any_map c p db.nodes)) h

pub insert_device-Sound : (c : DeviceCreate) (db : Db) → AllHoused db → Sound (insert_device c db)
unfolding insert_device
insert_device-Sound c db h =
    when-Sound (any (λ n. eqb_ℤ n.id c.parent_node_id) db.nodes) _ (λ there.
      All-append (IsHoused db.nodes) db.devices (new_row db.next_device c ∷ []) h (there, tt))

changed-IsHoused :
    (nodes : List Node) (c : DeviceUpdate) (d : Device)
    → has_node c.parent_node_id nodes ≡ true
    → IsHoused nodes d
    → IsHoused nodes (changed_device c d)
unfolding changed_device
changed-IsHoused nodes c d there h = moved c.parent_node_id d.deleted there h
  where
    moved :
        (p : Option ℤ) (b : Bool)
        → has_node p nodes ≡ true
        → (b || parent_in nodes d.parent_node_id) ≡ true
        → (b || parent_in nodes (coalesce_null p d.parent_node_id)) ≡ true
    moved none b there h = h
    moved (some p) true there h = refl
    moved (some p) false there h = there

if_same : {A : Type 0} (P : A → Type 0) (b : Bool) (x y : A) → P x → P y → P (if b then x else y)
if_same P true x y p q = p
if_same P false x y p q = q

pub update_device_row-Sound :
    (c : DeviceUpdate) (db : Db) → AllHoused db → Sound (update_device_row c db)
unfolding update_device_row
update_device_row-Sound c db h = when-Sound (has_node c.parent_node_id db.nodes) _ (λ there.
    All_map (IsHoused db.nodes) (IsHoused db.nodes) _ db.devices
      (λ d k.
        if_same (IsHoused db.nodes) (eqb_ℤ d.id c.id) (changed_device c d) d
          (changed-IsHoused db.nodes c d there k) k)
      h)

pub soft_delete-Sound : (ts : ℕ) (id : ℤ) (db : Db) → AllHoused db → Sound (soft_delete ts id db)
unfolding soft_delete
soft_delete-Sound ts id db h =
    All_map (IsHoused db.nodes) (IsHoused db.nodes) _ db.devices
      (λ d k.
        if_same (IsHoused db.nodes) (is_of_node id d && has_logging db.values d) (mark_deleted ts d)
          d refl k)
      h

pub remove_values-Sound :
    (p : ValueUnit → Bool) (db : Db) → AllHoused db → Sound (remove_values p db)
unfolding remove_values
remove_values-Sound p db h = ground arith

pub remove_devices-Sound :
    (p : Device → Bool) (db : Db) → AllHoused db → Sound (remove_devices p db)
unfolding remove_devices
remove_devices-Sound p db h =
    let kept =
      All_keep (IsHoused db.nodes) (IsHoused db.nodes) (λ d. not (p d)) db.devices (λ d k e. k) h in
    unless-Sound (any (λ v. any (λ d. p d && eqb_ℤ d.id v.parent_device_id) db.devices) db.values)
      (some (record db { devices = keep (λ d. not (p d)) db.devices })) kept

pub remove_measures-Sound : (id : ℤ) (db : Db) → AllHoused db → Sound (remove_measures id db)
unfolding remove_measures
remove_measures-Sound id db h = h

pub insert_value-Sound :
    (same_text : String → String → Bool) (c : ValueCreate) (db : Db)
    → AllHoused db
    → Sound (insert_value same_text c db)
unfolding insert_value
insert_value-Sound same_text c db h = ground arith

pub update_value_row-Sound :
    (same_text : String → String → Bool) (c : ValueUpdate) (db : Db)
    → AllHoused db
    → Sound (update_value_row same_text c db)
unfolding update_value_row
update_value_row-Sound same_text c db h = ground arith
