-- ===== src/Traversal.antt =====
-- The depth-first traversal of the control flow graphs: src/controlflowgraph/SparsePropertyMap.h,
-- CallStackFrameBase.h, DFSCallStack.cpp and ControlFlowGraphTraversalDFS.cpp. The heap is the one at
-- the start of the traversal, which the visitors of this model only read. A step is one round of a
-- loop of Traverse: an out edge of the current vertex, or its end.
pub mod Dfs
pub mod Colors
pub mod Reach
use coflo.Prelude.{
  ℕ, Bool, true, false, List, [], ◌∷◌, Option, none, some, if◌then◌else◌, ◌==◌, points_to, erase,
  insert, contains, not,
}
use coflo.Statement.{Statement, function_call_resolved}
use coflo.Graph.{Heap}

-- boost::default_color_type, as far as it is used.
pub data Color : Type 0 where
  white gray black : Color

-- SparsePropertyMap<vertex_descriptor, default_color_type, white_color>: the entries of the underlying
-- map.
abbrev pub ColorMap : Type 0
ColorMap = List (ℕ × Color)

abbrev pub find_entry : ℕ → ColorMap → Option Color
find_entry v [] = none
find_entry v ((w, x) ∷ m) = if v == w then some x else find_entry v m

abbrev pub erase_entry : ℕ → ColorMap → ColorMap
erase_entry v [] = []
erase_entry v ((w, x) ∷ m) = let rest = erase_entry v m in if v == w then rest else (w, x) ∷ rest

-- `m_underlying_map[v] = x`
abbrev pub assign_entry : ℕ → Color → ColorMap → ColorMap
assign_entry v x m = (v, x) ∷ erase_entry v m

-- White is the value that needs no entry.
pub put : ℕ → Color → ColorMap → ColorMap
put v white m = erase_entry v m
put v gray m = assign_entry v gray m
put v black m = assign_entry v black m

-- A key without an entry is given one.
pub get : ℕ → ColorMap → Color × ColorMap
get v m = elim (find_entry v m) [ none ↦ (white, assign_entry v white m) | some x ↦ (x, m) ]

-- CallStackFrameBase. Of a control flow graph the address is that of its function.
pub record Frame : Type 0 where
  pub pushing_call : Option ℕ
  pub calling_cfg : Option ℕ
  pub color_map : ColorMap

-- DFSCallStack: the top of the stack comes first.
pub record CallStack : Type 0 where
  pub frames : List Frame
  pub call_set : List ℕ

unfoldable pub push_call_stack : Option ℕ → Option ℕ → CallStack → CallStack
push_call_stack call cfg s = record s {
  frames = record { pushing_call = call; calling_cfg = cfg; color_map = [] } ∷ s.frames;
}

-- `m_target_function` of a FunctionCallResolved; no other statement has it.
erase_called : Statement → List ℕ → List ℕ
erase_called (function_call_resolved f p) fs = erase f fs
erase_called _ fs = fs

pop_frame : Heap → List ℕ → List Frame → Option CallStack
unfolding erase_called
pop_frame h q [] = none
pop_frame h q (f ∷ fs) = elim f.pushing_call [
  | none ↦ none
  | some c ↦ some (record { frames = fs; call_set = erase_called (h.vertex c).statement q })
]

-- `none` is the top of an empty stack, or a frame that no call pushed.
unfoldable pub pop_call_stack : Heap → CallStack → Option CallStack
unfolding pop_frame
pop_call_stack h s = pop_frame h s.call_set s.frames

-- The set is asked for the function and given it.
abbrev pub are_we_recursing : ℕ → CallStack → Bool × CallStack
are_we_recursing f s = (contains f s.call_set, record s { call_set = insert f s.call_set })

paint_top : ℕ → Color → List ℕ → List Frame → Option CallStack
unfolding put
paint_top v x q [] = none
paint_top v x q (f ∷ fs) =
    some (record { frames = record f { color_map = put v x f.color_map } ∷ fs; call_set = q })

-- `TopCallStack()->GetColorMap()->put(v, x)`
pub paint : ℕ → Color → CallStack → Option CallStack
unfolding paint_top
paint v x s = paint_top v x s.call_set s.frames

color_of_top : ℕ → List ℕ → List Frame → Option (Color × CallStack)
unfolding get
color_of_top v q [] = none
color_of_top v q (f ∷ fs) =
    let (x, m) = get v f.color_map in
    some (x, record { frames = record f { color_map = m } ∷ fs; call_set = q })

-- `TopCallStack()->GetColorMap()->get(v)`
pub color_of : ℕ → CallStack → Option (Color × CallStack)
unfolding color_of_top
color_of v s = color_of_top v s.call_set s.frames
