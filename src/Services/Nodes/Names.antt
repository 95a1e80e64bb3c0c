-- ===== src/Services/Nodes/Names.antt =====
-- Node names stay unique, as `NODE_NAME_CONFLICT` is to see to.
use uav_dag_offload_platform.Common.{
  ◌≡◌, String, true, none, List, [], ◌∷◌, ◌++◌, map, arith, if◌then◌else◌,
}
use uav_dag_offload_platform.Common.Equality.{◌==◌, string_eq}
use uav_dag_offload_platform.Domain.Dag.{contains}
use uav_dag_offload_platform.Domain.Dag.Graph.{Distinct}
use uav_dag_offload_platform.Db.Models.{Datetime, Node}
use uav_dag_offload_platform.Db.Table.{first}
use uav_dag_offload_platform.Db.Store.{Store}
use uav_dag_offload_platform.Services.Nodes.{
  NodeCreate, get_by_name, new_node, insert_node, create_node,
}

abbrev pub names : List Node → List String
names nodes = map (λ node. node.name) nodes

contains-append :
    (node : Node) (nodes : List Node) (x : String)
    → contains (names (nodes ++ node ∷ [])) x
      ≡ (if node.name == x then true else contains (names nodes) x)
unfolding contains
contains-append node [] x = ground arith
contains-append node (n ∷ nodes) x = ground (arith, contains-append node nodes x)

Distinct-append :
    (node : Node) (nodes : List Node)
    → get_by_name node.name nodes ≡ none
    → Distinct (names nodes)
    → Distinct (names (nodes ++ node ∷ []))
unfolding get_by_name first contains
Distinct-append node [] h once = ground arith
Distinct-append node (n ∷ nodes) h once = ground (
  arith,
  contains-append node nodes n.name,
  Distinct-append node nodes,
  string_eq.agrees node.name n.name,
  string_eq.agrees n.name node.name,
)

-- Creating a node, with or without a conflict, leaves node names unique.
pub create_node-Distinct :
    (now : Datetime) (form : NodeCreate) (s : Store)
    → Distinct (names s.nodes)
    → Distinct (names (create_node now form s).1.nodes)
unfolding create_node insert_node
create_node-Distinct now form s once =
    ground (arith, Distinct-append (new_node s.next_uuid now form) s.nodes)
