-- ===== src/Store/Orphans.antt =====
-- What the deletion of a node of db/worker/node_worker.rs leaves of its logged devices.
use mathlib.Core.Path.{subst}
use modbus_tcplogger.Common.{
  ℕ, ◌≡◌, ◌≢◌, inl, inr, refl, ap, ◌∙◌, ◌⊎◌, Bool, true, false, not, ◌&&◌, Option, none, some, List,
  [], ◌∷◌, keep, map, arith, Bool-cases, if◌then◌else◌,
}
use modbus_tcplogger.Common.Int.{ℤ, eqb_ℤ}
use modbus_tcplogger.Store.{Db, Device, ValueUnit}
use modbus_tcplogger.Store.Sql.{Env, Store, any}
use modbus_tcplogger.Store.Nodes.{
  is_of_node, has_logging, mark_deleted, soft_delete, delete_values_of, remove_values,
  remove_devices, is_live_of, orphan, delete_node_row, delete_node,
}
use modbus_tcplogger.Store.Devices.{read_row, read_rows, read_parent, prepend}
use modbus_tcplogger.Store.Triple.{and_also}
use modbus_tcplogger.Store.Reads.{Ends-Goal}
use modbus_tcplogger.Store.Effects.{Either}
use modbus_tcplogger.Store.Whole.{IsNodeDeleted, node_deleted, delete_node-Triple}

any-map :
    {A : Type 0} (p q : A → Bool) (f : A → A) (xs : List A)
    → ((x : A) → p x ≡ true → q (f x) ≡ true)
    → any p xs ≡ true
    → any q (map f xs) ≡ true
unfolding any
any-map p q f [] k h = cc
any-map p q f (x ∷ xs) k h = ground (arith, k x, any-map p q f xs k)

any-keep :
    {A : Type 0} (p q r : A → Bool) (xs : List A)
    → ((x : A) → p x ≡ true → (r x ≡ true) × (q x ≡ true))
    → any p xs ≡ true
    → any q (keep r xs) ≡ true
unfolding any
any-keep p q r [] k h = cc
any-keep p q r (x ∷ xs) k h = ground (arith, k x, any-keep p q r xs k)

-- A claim on the tables that a statement leaves, if it is not refused.
abbrev pub Leaves : (Db → Type 0) → Option Db → Type 0
Leaves P none = Unit {0}
Leaves P (some db) = P db

pub and_also-Leaves :
    (P Q : Db → Type 0) (o : Option Db) (f : Db → Option Db)
    → Leaves P o
    → ((db : Db) → P db → Leaves Q (f db))
    → Leaves Q (and_also o f)
and_also-Leaves P Q none f h k = tt
and_also-Leaves P Q (some db) f h k = k db h

pub unless-Leaves :
    (P : Db → Type 0) (b : Bool) (db : Db) → P db → Leaves P (if b then none else some db)
unless-Leaves P true db h = tt
unless-Leaves P false db h = h

is_none : Option ℤ → Bool
is_none none = true
is_none (some z) = false

-- Some device of the node is marked as deleted; some deleted device has no node.
abbrev HasMarked : ℤ → Db → Type 0
HasMarked id db = any (λ d. is_of_node id d && d.deleted) db.devices ≡ true

abbrev HasOrphan : Db → Type 0
HasOrphan db = any (λ d. d.deleted && is_none d.parent_node_id) db.devices ≡ true

marked :
    (values : List ValueUnit) (ts : ℕ) (id : ℤ) (d : Device)
    → (is_of_node id d && has_logging values d) ≡ true
    → let e = if is_of_node id d && has_logging values d then mark_deleted ts d else d in
      (is_of_node id e && e.deleted) ≡ true
marked values ts id d h = rw h (ground arith)

soft_delete-HasMarked :
    (ts : ℕ) (id : ℤ) (db : Db)
    → any (λ d. is_of_node id d && has_logging db.values d) db.devices ≡ true
    → Leaves (HasMarked id) (soft_delete ts id db)
unfolding soft_delete
soft_delete-HasMarked ts id db h =
    any-map (λ d. is_of_node id d && has_logging db.values d) (λ d. is_of_node id d && d.deleted)
      (λ d. if is_of_node id d && has_logging db.values d then mark_deleted ts d else d) db.devices
      (marked db.values ts id) h

delete_values_of-HasMarked :
    (id : ℤ) (db : Db) → HasMarked id db → Leaves (HasMarked id) (delete_values_of id db)
unfolding delete_values_of remove_values
delete_values_of-HasMarked id db h = ground arith

remove_devices-HasMarked :
    (id : ℤ) (db : Db) → HasMarked id db → Leaves (HasMarked id) (remove_devices (is_live_of id) db)
unfolding remove_devices
remove_devices-HasMarked id db h =
    unless-Leaves (HasMarked id)
      (any (λ v. any (λ d. is_live_of id d && eqb_ℤ d.id v.parent_device_id) db.devices) db.values)
      (record db { devices = keep (λ d. not (is_live_of id d)) db.devices })
      (any-keep (λ d. is_of_node id d && d.deleted) (λ d. is_of_node id d && d.deleted)
        (λ d. not (is_live_of id d)) db.devices (λ d e. ground arith) h)

orphaned :
    (id : ℤ) (d : Device)
    → (is_of_node id d && d.deleted) ≡ true
    → ((orphan id d).deleted && is_none (orphan id d).parent_node_id) ≡ true
unfolding is_none
orphaned id d h = ground arith

delete_node_row-HasOrphan :
    (id : ℤ) (db : Db) → HasMarked id db → Leaves HasOrphan (delete_node_row id db)
unfolding delete_node_row
delete_node_row-HasOrphan id db h =
    any-map (λ d. is_of_node id d && d.deleted) (λ d. d.deleted && is_none d.parent_node_id)
      (orphan id) db.devices (orphaned id) h

node_deleted-HasOrphan :
    (ts : ℕ) (id : ℤ) (db : Db)
    → any (λ d. is_of_node id d && has_logging db.values d) db.devices ≡ true
    → Leaves HasOrphan (node_deleted ts id db)
node_deleted-HasOrphan ts id db h =
    and_also-Leaves (HasMarked id) HasOrphan _ (delete_node_row id)
      (and_also-Leaves (HasMarked id) (HasMarked id) _ (remove_devices (is_live_of id))
        (and_also-Leaves (HasMarked id) (HasMarked id) (soft_delete ts id db) (delete_values_of id)
          (soft_delete-HasMarked ts id db h) (delete_values_of-HasMarked id))
        (remove_devices-HasMarked id))
      (delete_node_row-HasOrphan id)

orphan_unread : (d : Device) → is_none d.parent_node_id ≡ true → read_row d ≡ none
unfolding read_row is_none
orphan_unread d h = go d.parent_node_id h
  where
    go : (p : Option ℤ) → is_none p ≡ true → read_parent d p ≡ none
    go none h = refl
    go (some p) h = cc

prepend-none : {A : Type 0} (x : Option A) → prepend x none ≡ none
prepend-none none = refl
prepend-none (some a) = refl

unread_step :
    (b : Bool) (d : Device) (ks : List Device)
    → (b ≡ true → (read_row d ≡ none) ⊎ (read_rows ks ≡ none))
    → (b ≡ false → read_rows ks ≡ none)
    → read_rows (if b then d ∷ ks else ks) ≡ none
unfolding read_rows
unread_step false d ks h k = k refl
unread_step true d ks h k = elim (h refl) [
  | inl here ↦ ap (λ x. prepend x (read_rows ks)) here
  | inr later ↦ ap (prepend (read_row d)) later ∙ prepend-none (read_row d)
]

unread :
    (ds : List Device)
    → any (λ d. d.deleted && is_none d.parent_node_id) ds ≡ true
    → read_rows (keep (λ d. d.deleted) ds) ≡ none
unfolding any
unread [] h = cc
unread (d ∷ ds) h =
    unread_step d.deleted d (keep (λ d. d.deleted) ds)
      (λ e. elim (Bool-cases (is_none d.parent_node_id)) [
        | inl n ↦ inl (orphan_unread d n)
        | inr n ↦ inr (unread ds (ground arith))
      ])
      (λ e. unread ds (ground arith))

-- Where the deletion of a node has happened, and some device of the node had a logged value, the
-- query for deleted devices fails on a row: the device is kept, and its parent is NULL.
pub deleted_devices_unreadable :
    (id : ℤ) (env : Env) (s : Store)
    → any (λ d. is_of_node id d && has_logging s.db.values d) s.db.devices ≡ true
    → (delete_node id env s).1.db ≢ s.db
    → read_rows (keep (λ d. d.deleted) (delete_node id env s).1.db.devices) ≡ none
deleted_devices_unreadable id env s h changed =
    elim (Ends-Goal (Either (IsNodeDeleted id) s.db) (delete_node id env s)
      ((delete_node-Triple id env s.db).run s (refl, tt))) [
        | inl same ↦ absurd (changed same)
        | inr (ts, e) ↦
            unread (delete_node id env s).1.db.devices
              (subst (Leaves HasOrphan) e (node_deleted-HasOrphan ts id s.db h))
      ]
