-- ===== src/Examples/Graphs.antt =====
-- The graph of the small project's spec.
use kusion.Base.{String, List, true, [], ◌∷◌, ◌≡◌, refl, contains}
use kusion.Base.GoMap.{get, set}
use kusion.Control.{OnOk, failed}
use kusion.Status.{internal, new_error_status_with_msg}
use kusion.Models.{index}
use kusion.Change.{update}
use kusion.Refs.{replace_fields, replace_implicit, replace_secret}
use kusion.Graph.{hashcode, vertex_name, root_node, resource_node}
use kusion.Graph.ListDag.{ListGraph, list_dag, list_dag-IsDag, list_dag-IsReducing, empty_graph}
use kusion.Parser.{parse_resources, link_ref_nodes}
use kusion.Parser.Linked.{HasLinks, link_ref_nodes-HasLinks}
use kusion.Parser.Ordered.{IsPlan, parse_resources-IsPlan}
use kusion.Parser.Removal.{manifest_keys, parse_deleted}
use kusion.Parser.Removed.{IsRemovalPlan, parse_deleted-IsRemovalPlan}
use kusion.Examples.Data.{db, web, in_order, in_order-Visits}

link_ref_nodes-HasLinks_example :
    OnOk
      (HasLinks list_dag-IsDag
        (index (db ∷ web ∷ []))
        update
        []
        (resource_node "web" update)
        ("db" ∷ [])
        empty_graph)
      (link_ref_nodes list_dag
        (index (db ∷ web ∷ []))
        (resource_node "web" update)
        update
        []
        ("db" ∷ [])
        empty_graph)
link_ref_nodes-HasLinks_example =
    link_ref_nodes-HasLinks list_dag-IsDag (index (db ∷ web ∷ [])) (resource_node "web" update)
      update [] ("db" ∷ []) empty_graph

parse_resources-IsPlan_example :
    OnOk
      (IsPlan list_dag-IsDag root_node (db ∷ web ∷ []))
      (parse_resources list_dag in_order (db ∷ web ∷ []) empty_graph)
parse_resources-IsPlan_example =
    parse_resources-IsPlan list_dag-IsDag list_dag-IsReducing in_order-Visits root_node
      (db ∷ web ∷ []) empty_graph refl

-- the parse returns: the dependency goes before the resource
spec_parses :
    OnOk
      (λ p. list_dag.has_edge "db" "web" p.0 ≡ true)
      (parse_resources list_dag in_order (db ∷ web ∷ []) empty_graph)
unfolding parse_resources index set get contains hashcode replace_fields replace_implicit
    replace_secret vertex_name
spec_parses = refl

parse_deleted-IsRemovalPlan_example :
    OnOk
      (IsRemovalPlan list_dag-IsDag [] (db ∷ web ∷ []))
      (parse_deleted list_dag in_order in_order (db ∷ web ∷ []) empty_graph)
unfolding manifest_keys
parse_deleted-IsRemovalPlan_example =
    parse_deleted-IsRemovalPlan list_dag-IsDag list_dag-IsReducing in_order in_order-Visits
      root_node (db ∷ web ∷ []) empty_graph refl

-- a destroy deletes the resource before its dependency
destroy_parses :
    OnOk
      (λ p. list_dag.has_edge "web" "db" p.0 ≡ true)
      (parse_deleted list_dag in_order in_order (db ∷ web ∷ []) empty_graph)
unfolding parse_deleted index set get contains hashcode replace_fields replace_implicit
    replace_secret vertex_name
destroy_parses = refl

-- the graph of a manifest that has the resource alone
abbrev web_graph : ListGraph
web_graph = record { nodes = resource_node "web" update ∷ root_node ∷ []; edges = [] }

abbrev from_last : List String → List String
from_last (a ∷ b ∷ []) = b ∷ a ∷ []
from_last ks = ks

-- Deleting the dependency is refused if it is visited before the resource that needs it.
first_is_refused :
    parse_deleted list_dag in_order in_order (db ∷ web ∷ []) web_graph
    ≡ failed (new_error_status_with_msg internal "web dependson db, cannot delete resource db")
unfolding parse_deleted index set get contains hashcode replace_fields replace_implicit
    replace_secret vertex_name
first_is_refused = refl

-- It is let through if the resource is visited before it.
last_is_let_through :
    OnOk
      (λ p. list_dag.has_edge "web" "db" p.0 ≡ true)
      (parse_deleted list_dag in_order from_last (db ∷ web ∷ []) web_graph)
unfolding parse_deleted index set get contains hashcode replace_fields replace_implicit
    replace_secret vertex_name
last_is_let_through = refl
