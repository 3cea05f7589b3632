-- ===== src/Graph.antt =====
-- The graph component: src/controlflowgraph/Vertex.cpp, Edge.cpp and Graph.cpp. Vertices and edges
-- are objects of one heap, reached by address; a null pointer is `none`; a graph holds the addresses
-- of its members. `new` takes the next free address.
pub mod Links
pub mod Counts
pub mod Deleted
pub mod Ends
pub mod Degrees
pub mod Replace
pub mod Index
pub mod Find
pub mod Spares
use coflo.Prelude.{
  ℕ, suc, ◌+◌, ◌≡◌, Bool, true, false, List, [], ◌∷◌, Option, none, some, ◌==◌, if◌then◌else◌,
  points_to, update, contains, insert, erase, length,
}
use coflo.Statement.{Statement, EdgeType, Location}

pub record Vertex : Type 0 where
  pub statement : Statement
  pub location : Location
  pub owning_function : Option ℕ
  pub out_edges : List ℕ
  pub in_edges : List ℕ
  pub vertex_index : ℕ

pub record Edge : Type 0 where
  pub edge_type : EdgeType
  pub source : Option ℕ
  pub target : Option ℕ
  pub is_back_edge : Bool

-- `next_vertex` and `next_edge` are the next free addresses, `deleted` the vertices given to
-- `delete`.
pub record Heap : Type 0 where
  pub vertex : ℕ → Vertex
  pub edge : ℕ → Edge
  pub next_vertex : ℕ
  pub next_edge : ℕ
  pub deleted : List ℕ

pub record Graph : Type 0 where
  pub vertices : List ℕ
  pub edges : List ℕ
  pub vertex_id_state : ℕ

abbrev pub empty_graph : Graph
empty_graph = record { vertices = []; edges = []; vertex_id_state = 0 }

-- A graph with the heap that its members live in.
pub record Cfg : Type 0 where
  pub heap : Heap
  pub graph : Graph

-- Vertex.cpp

abbrev pub with_vertex : ℕ → Vertex → Heap → Heap
with_vertex v x h = record h { vertex = update h.vertex v x }

abbrev pub with_edge : ℕ → Edge → Heap → Heap
with_edge e x h = record h { edge = update h.edge e x }

pub add_in_edge : ℕ → ℕ → Heap → Heap
add_in_edge v e h =
    with_vertex v (record (h.vertex v) { in_edges = insert e (h.vertex v).in_edges }) h

pub add_out_edge : ℕ → ℕ → Heap → Heap
add_out_edge v e h =
    with_vertex v (record (h.vertex v) { out_edges = insert e (h.vertex v).out_edges }) h

pub remove_in_edge : ℕ → ℕ → Heap → Heap
remove_in_edge v e h =
    with_vertex v (record (h.vertex v) { in_edges = erase e (h.vertex v).in_edges }) h

pub remove_out_edge : ℕ → ℕ → Heap → Heap
remove_out_edge v e h =
    with_vertex v (record (h.vertex v) { out_edges = erase e (h.vertex v).out_edges }) h

unfoldable pub in_degree : Heap → ℕ → ℕ
in_degree h v = length (h.vertex v).in_edges

unfoldable pub out_degree : Heap → ℕ → ℕ
out_degree h v = length (h.vertex v).out_edges

-- Edge.cpp

pub set_source : Option ℕ → ℕ → Heap → Heap
set_source u e h = with_edge e (record (h.edge e) { source = u }) h

pub set_target : Option ℕ → ℕ → Heap → Heap
set_target u e h = with_edge e (record (h.edge e) { target = u }) h

pub set_source_and_target : ℕ → ℕ → ℕ → Heap → Heap
set_source_and_target u v e h =
    with_edge e (record (h.edge e) { source = some u; target = some v }) h

pub clear_source_and_target : ℕ → Heap → Heap
clear_source_and_target e h = with_edge e (record (h.edge e) { source = none; target = none }) h

abbrev remove_from_source : Option ℕ → ℕ → Heap → Heap
remove_from_source none e h = h
remove_from_source (some u) e h = remove_out_edge u e h

abbrev remove_from_target : Option ℕ → ℕ → Heap → Heap
remove_from_target none e h = h
remove_from_target (some u) e h = remove_in_edge u e h

pub change_source : ℕ → ℕ → Heap → Heap
unfolding remove_out_edge add_out_edge set_source
change_source e u h =
    set_source (some u) e (add_out_edge u e (remove_from_source (h.edge e).source e h))

unfoldable pub change_target : ℕ → ℕ → Heap → Heap
unfolding remove_in_edge add_in_edge set_target
change_target e u h =
    set_target (some u) e (add_in_edge u e (remove_from_target (h.edge e).target e h))

set_targets : Option ℕ → List ℕ → Heap → Heap
unfolding set_target
set_targets u [] h = h
set_targets u (e ∷ es) h = set_targets u es (set_target u e h)

set_sources : Option ℕ → List ℕ → Heap → Heap
unfolding set_source
set_sources u [] h = h
set_sources u (e ∷ es) h = set_sources u es (set_source u e h)

swap_edges : ℕ → ℕ → Heap → Heap
swap_edges u v h =
    let a = h.vertex u in
    let b = h.vertex v in
    with_vertex u (record a { in_edges = b.in_edges; out_edges = b.out_edges })
      (with_vertex v (record b { in_edges = a.in_edges; out_edges = a.out_edges }) h)

-- The edges of `u` are pointed to `v`, then the two vertices swap their edge sets.
pub transfer_owned_resources_to : ℕ → ℕ → Heap → Heap
unfolding set_targets set_sources swap_edges
transfer_owned_resources_to u v h =
    swap_edges u v
      (set_sources (some v) (h.vertex u).out_edges (set_targets (some v) (h.vertex u).in_edges h))

find_pointing_to : Heap → ℕ → List ℕ → Option ℕ
find_pointing_to h v [] = none
find_pointing_to h v (e ∷ es) =
    if points_to (h.edge e).target v then some e else find_pointing_to h v es

pub find_out_edge_pointing_to_vertex : Heap → ℕ → ℕ → Option ℕ
unfolding find_pointing_to
find_out_edge_pointing_to_vertex h u v = find_pointing_to h v (h.vertex u).out_edges

-- Graph.cpp

assign_a_vertex_index_to_vertex : ℕ → Cfg → Cfg
assign_a_vertex_index_to_vertex v c = record {
  heap = with_vertex v (record (c.heap.vertex v) { vertex_index = c.graph.vertex_id_state }) c.heap;
  graph = record (c.graph) { vertex_id_state = c.graph.vertex_id_state + 1 };
}

-- `false` stands for the exception `duplicate_add`; the index is assigned before it is thrown.
unfoldable pub add_vertex : ℕ → Cfg → Cfg × Bool
unfolding assign_a_vertex_index_to_vertex
add_vertex v c =
    let c' = assign_a_vertex_index_to_vertex v c in
    if contains v c.graph.vertices
    then (c', false)
    else (record c' { graph = record (c'.graph) { vertices = insert v c'.graph.vertices } }, true)

unfoldable pub remove_vertex : ℕ → Cfg → Cfg
remove_vertex v c = record c { graph = record (c.graph) { vertices = erase v c.graph.vertices } }

-- The exception of `add_vertex` ends `replace_vertex` too.
unfoldable pub replace_vertex : ℕ → ℕ → Cfg → Cfg × Bool
unfolding add_vertex transfer_owned_resources_to remove_vertex
replace_vertex old new c =
    let (c', done) = add_vertex new c in
    if done
    then (
      remove_vertex old (record c' { heap = transfer_owned_resources_to old new c'.heap }),
      true,
    )
    else (c', false)

unfoldable pub add_edge : ℕ → ℕ → ℕ → Cfg → Cfg
unfolding add_out_edge add_in_edge set_source_and_target
add_edge u v e c = record {
  heap = set_source_and_target u v e (add_in_edge v e (add_out_edge u e c.heap));
  graph = record (c.graph) { edges = insert e c.graph.edges };
}

detach : Option ℕ → Option ℕ → ℕ → Cfg → Option Cfg
unfolding remove_out_edge remove_in_edge clear_source_and_target
detach none t e c = none
detach (some u) none e c = none
detach (some u) (some v) e c = some (record {
  heap = clear_source_and_target e (remove_in_edge v e (remove_out_edge u e c.heap));
  graph = record (c.graph) { edges = erase e c.graph.edges };
})

-- `none` is the call through a null source or target.
unfoldable pub remove_edge : ℕ → Cfg → Option Cfg
unfolding detach
remove_edge e c = detach (c.heap.edge e).source (c.heap.edge e).target e c

pub find_edge : ℕ → ℕ → Cfg → Option ℕ
unfolding find_out_edge_pointing_to_vertex
find_edge u v c = find_out_edge_pointing_to_vertex c.heap u v

-- `new` of an edge, detached and not a back edge.
unfoldable pub new_edge : EdgeType → Heap → ℕ × Heap
new_edge t h = (
  h.next_edge,
  record h {
    edge =
        update h.edge h.next_edge
          (record { edge_type = t; source = none; target = none; is_back_edge = false });
    next_edge = h.next_edge + 1;
  },
)

-- `new` of a vertex, with no edges; the owning function, which the constructor leaves unset, is `none`.
unfoldable pub new_vertex : Statement → Location → Heap → ℕ × Heap
new_vertex s l h = (
  h.next_vertex,
  record h {
    vertex = update h.vertex h.next_vertex (record {
      statement = s;
      location = l;
      owning_function = none;
      out_edges = [];
      in_edges = [];
      vertex_index = 0;
    });
    next_vertex = h.next_vertex + 1;
  },
)

-- `g.AddEdge(u, v, new T)`
unfoldable pub add_new_edge : ℕ → ℕ → EdgeType → Cfg → Cfg
unfolding new_edge add_edge
add_new_edge u v t c = let (e, h) = new_edge t c.heap in add_edge u v e (record c { heap = h })
