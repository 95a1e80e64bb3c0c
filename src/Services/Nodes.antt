-- ===== src/Services/Nodes.antt =====
-- app/services/node_service.py with app/repositories/node_repository.py. Percentages and capacities are
-- numbers of hundredths, as the columns keep them.
pub mod Names
use uav_dag_offload_platform.Common.{
  ℕ, suc, String, Bool, false, ◌&&◌, ◌||◌, Option, none, some, List, [], ◌∷◌, ◌++◌, eqb, leb,
  length, if◌then◌else◌,
}
use uav_dag_offload_platform.Common.Equality.{◌==◌, string_eq}
use uav_dag_offload_platform.Domain.Enums.{NodeType, NodeStatus, node_type_eq, node_status_eq}
use uav_dag_offload_platform.Db.Models.{Uuid, Datetime, Node, NodeStatusRecord}
use uav_dag_offload_platform.Db.Table.{where_, first, find, modify}
use uav_dag_offload_platform.Db.Pages.{order_by, newest_first, page_of, is_or_any}
use uav_dag_offload_platform.Db.Store.{Store, node_key}
use uav_dag_offload_platform.Core.Errors.{
  Exec, ok, pure, fail, gets, or_else, modify_state, node_not_found, node_name_conflict, ◌>>=◌,
  ◌>>◌,
}

pub record NodeCreate : Type 0 where
  pub name : String
  pub node_type : NodeType
  pub cpu_capacity : ℕ
  pub memory_capacity_mb : ℕ
  pub network_address : Option String
  pub description : Option String

-- Without `latitude` and `longitude`, as in the record it becomes.
pub record NodeStatusCreate : Type 0 where
  pub battery_level : Option ℕ
  pub cpu_usage : ℕ
  pub memory_usage : ℕ
  pub network_quality : Option ℕ
  pub bandwidth_mbps : Option ℕ
  pub current_load : Option ℕ
  pub queue_length : Option ℕ
  pub reported_at : Datetime

-- `NodeRepository.get_by_name`
unfoldable pub get_by_name : String → List Node → Option Node
unfolding first
get_by_name name nodes = first (λ node. node.name == name) nodes

abbrev pub new_node : Uuid → Datetime → NodeCreate → Node
new_node id now form = record {
  id = id;
  name = form.name;
  node_type = form.node_type;
  status = NodeStatus.online;
  cpu_capacity = form.cpu_capacity;
  memory_capacity_mb = form.memory_capacity_mb;
  network_address = form.network_address;
  description = form.description;
  last_heartbeat_at = none;
  created_at = now;
}

-- `NodeRepository.create`
unfoldable pub insert_node : Datetime → NodeCreate → Exec Store Node
insert_node now form s =
    let node = new_node s.next_uuid now form in
    (ok node, record s { next_uuid = suc s.next_uuid; nodes = s.nodes ++ node ∷ [] })

unfoldable pub create_node : Datetime → NodeCreate → Exec Store Node
unfolding get_by_name insert_node
create_node now form s = elim (get_by_name form.name s.nodes) [
  | some node ↦ fail node_name_conflict 409 s
  | none ↦ insert_node now form s
]

unfoldable pub get_node : Uuid → Exec Store Node
get_node id s = or_else (find id s.nodes) (fail node_not_found 404) s

-- value is not None and value >= 10
abbrev pub at_least_10 : Option ℕ → Bool
at_least_10 none = false
at_least_10 (some n) = leb 10 n

-- `_resolve_node_status`
unfoldable pub resolve_node_status : NodeStatusCreate → NodeStatus
resolve_node_status form =
    if leb 9000 form.cpu_usage
      || (leb 9000 form.memory_usage
          || (at_least_10 form.queue_length || at_least_10 form.current_load))
    then NodeStatus.busy
    else NodeStatus.online

abbrev pub new_status_record : Uuid → Uuid → NodeStatusCreate → NodeStatusRecord
new_status_record id node_id form = record {
  id = id;
  node_id = node_id;
  battery_level = form.battery_level;
  cpu_usage = form.cpu_usage;
  memory_usage = form.memory_usage;
  network_quality = form.network_quality;
  bandwidth_mbps = form.bandwidth_mbps;
  current_load = form.current_load;
  queue_length = form.queue_length;
  reported_at = form.reported_at;
}

-- `NodeRepository.create_status_record`
unfoldable pub create_status_record : Uuid → NodeStatusCreate → Exec Store NodeStatusRecord
create_status_record node_id form s =
    let record_ = new_status_record s.next_uuid node_id form in
    (
      ok record_,
      record s {
        next_uuid = suc s.next_uuid;
        node_status_records = s.node_status_records ++ record_ ∷ [];
      },
    )

abbrev pub report_row : NodeStatusCreate → Node → Node
unfolding resolve_node_status
report_row form node = record node {
  last_heartbeat_at = some form.reported_at;
  status = resolve_node_status form;
}

unfoldable pub report_status : Uuid → NodeStatusCreate → Exec Store NodeStatusRecord
unfolding get_node create_status_record
report_status id form = do
  node ← get_node id
  modify_state (λ s. record s { nodes = modify node.id (report_row form) s.nodes })
  create_status_record node.id form

-- The items of a page, and the total.
unfoldable pub list_nodes :
    Option NodeType → Option NodeStatus → (page page_size : ℕ) → Store → List Node × ℕ
unfolding where_ order_by page_of
list_nodes node_type status page page_size s =
    let rows =
      where_ (λ node. is_or_any node_type node.node_type && is_or_any status node.status) s.nodes in
    (page_of page page_size (newest_first (λ node. node.created_at) rows), length rows)

unfoldable pub list_by_status : NodeStatus → List Node → List Node
unfolding where_
list_by_status status nodes = where_ (λ node. node.status == status) nodes

-- The latest of the records of a node.
abbrev pub latest_of : List NodeStatusRecord → Option NodeStatusRecord
latest_of [] = none
latest_of (r ∷ rows) = some r

unfoldable pub get_latest_status_record : Uuid → List NodeStatusRecord → Option NodeStatusRecord
unfolding where_ order_by
get_latest_status_record id rows =
    latest_of (newest_first (λ r. r.reported_at) (where_ (λ r. eqb r.node_id id) rows))

unfoldable pub list_status_records :
    Uuid → (page page_size : ℕ) → Exec Store (List NodeStatusRecord × ℕ)
unfolding get_node where_ order_by page_of
list_status_records id page page_size = do
  get_node id
  rows ← gets (λ s. where_ (λ r. eqb r.node_id id) s.node_status_records)
  pure (page_of page page_size (newest_first (λ r. r.reported_at) rows), length rows)
