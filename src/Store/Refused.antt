-- ===== src/Store/Refused.antt =====
-- A refused command on nodes leaves the tables and the readers as they were.
use Prim.Native.String.{String}
use modbus_tcplogger.Common.{Option, none, some}
use modbus_tcplogger.Common.Int.{ℤ}
use modbus_tcplogger.ReadMaster.{ConfigEventType}
use modbus_tcplogger.Store.{Node, NodeCreate, NodeUpdate}
use modbus_tcplogger.Store.Nodes.{
  get_node_by_id, get_by_ip, delete_node, create_node, update_node, tell, refuse_known,
  refuse_other, check_new_ip,
}
use modbus_tcplogger.Store.Atomic.{
  IsQuiet, IsAtomic, IsSure, fetch-IsQuiet, fetch-IsSure, worker_rules,
}

pub get_node_by_id-IsQuiet : (id : ℤ) → IsQuiet (get_node_by_id id)
unfolding get_node_by_id
get_node_by_id-IsQuiet id = fetch-IsQuiet _

pub get_node_by_id-IsSure : (id : ℤ) → IsSure (get_node_by_id id)
unfolding get_node_by_id
get_node_by_id-IsSure id = fetch-IsSure _

pub get_by_ip-IsQuiet : (ip : String) → IsQuiet (get_by_ip ip)
unfolding get_by_ip
get_by_ip-IsQuiet ip = record { same = λ env. (fetch-IsQuiet _).same env }

pub get_by_ip-IsSure : (ip : String) → IsSure (get_by_ip ip)
unfolding get_by_ip
get_by_ip-IsSure ip = record { sure = λ env. (fetch-IsSure _).sure env }

pub tell-IsSure : (t : ConfigEventType) (x : Option (Option Node)) → IsSure (tell t x)
tell-IsSure t none = search worker_rules
tell-IsSure t (some none) = search worker_rules
tell-IsSure t (some (some node)) = search worker_rules

pub refuse_known-IsQuiet : (x : Option Node) → IsQuiet (refuse_known x)
refuse_known-IsQuiet none = search worker_rules
refuse_known-IsQuiet (some node) = search worker_rules

pub refuse_other-IsQuiet : (id : ℤ) (x : Option Node) → IsQuiet (refuse_other id x)
refuse_other-IsQuiet id none = search worker_rules
refuse_other-IsQuiet id (some node) = search worker_rules

pub ruleset node_rules = (
  worker_rules, get_node_by_id-IsQuiet, get_node_by_id-IsSure, get_by_ip-IsQuiet, get_by_ip-IsSure,
  tell-IsSure, refuse_known-IsQuiet, refuse_other-IsQuiet,
)

check_new_ip-IsQuiet : (id : ℤ) (x : Option String) → IsQuiet (check_new_ip id x)
unfolding check_new_ip
check_new_ip-IsQuiet id none = search worker_rules
check_new_ip-IsQuiet id (some ip) = search node_rules depth 20

pub delete_node-IsAtomic : (id : ℤ) → IsAtomic (delete_node id)
unfolding delete_node
delete_node-IsAtomic id = search node_rules depth 40

pub create_node-IsAtomic : (c : NodeCreate) → IsAtomic (create_node c)
unfolding create_node
create_node-IsAtomic c = search node_rules depth 40

pub update_node-IsAtomic : (c : NodeUpdate) → IsAtomic (update_node c)
unfolding update_node
update_node-IsAtomic c = search (node_rules, check_new_ip-IsQuiet) depth 40
