-- ===== src/Lib.antt =====
-- CoFlo builds the control flow graph of each function of a C program from the compiler's
-- intermediate code, links the graphs along the function calls, and checks rules of reachability on
-- them. This library models how a graph is built, cleaned up, linked, searched and printed, and how the
-- constraints become rules.
--
-- - Statement: the classes of src/controlflowgraph/statements and src/controlflowgraph/edges as data
--   types, and src/Location.h. A class that the code below never tells from another keeps its own
--   constructor.
-- - Graph: Vertex.cpp, Edge.cpp and Graph.cpp of src/controlflowgraph. Vertices and edges are objects
--   of one `Heap`, a function from addresses; a null pointer is `none`; `new` takes the next free
--   address. An `unordered_set` of pointers is a list without repetition (Prelude/Sets); its order of
--   iteration is unspecified in C++ and is here the order of the list. A `Cfg` is a graph with the heap.
-- - Build: Function::CreateControlFlowGraph of src/Function.cpp. Build/Create has its loops,
--   Build/Resolve the label map and ResolveLinks of src/controlflowgraph/statements/ParseHelpers.cpp,
--   Build/BackEdges the BackEdgeFixupVisitor and FixupBackEdges, Build/Redundant the function
--   RemoveRedundantNodes (both of src/controlflowgraph/algorithms/cfg_algs.cpp), and Build/Whole the
--   function as a whole.
-- - Link: Function::Link of src/Function.cpp, over the graphs of all functions in one heap.
-- - Degrees: filtered_in_degree and filtered_out_degree of src/Function.cpp.
-- - Traversal: SparsePropertyMap.h, CallStackFrameBase.h and DFSCallStack.cpp of src/controlflowgraph,
--   and in Traversal/Dfs the functions Traverse and SkipEdge of ControlFlowGraphTraversalDFS.cpp. A
--   visitor is a record of its calls on a state of its own. Traversal/Reach is the ReachabilityVisitor
--   of src/controlflowgraph/visitors and RunRule of src/controlflowgraph/analysis/RuleReachability.cpp,
--   and Traversal/Reach/Chain its PrintCallChain.
-- - Program: Parse and LookupFunction of src/Program.cpp, with Link of src/TranslationUnit.cpp.
-- - TranslationUnit: ParseFile of src/TranslationUnit.cpp, with CompileSourceFile and
--   BuildFunctionsFromThreeAddressFormStatementLists.
-- - Analyzer: Analyzer.cpp of src/controlflowgraph/analysis, from the texts of the constraints to what
--   the rules report.
-- - Visit: improved_depth_first_visit of src/controlflowgraph/algorithms/depth_first_traversal.hpp.
-- - Graphviz: the WriteGraphvizDotFileVisitor of src/controlflowgraph/visitors and
--   PrintControlFlowGraphDot of src/Function.cpp, with the texts in Statement/Text.
-- - Topological: topological_visit_kahn of src/controlflowgraph/algorithms/topological_visit_kahn.h.
-- - Printing: the FunctionCFGVisitor of src/controlflowgraph/visitors and PrintControlFlowGraph of
--   src/Function.cpp.
-- - ResponseFile: ResponseFileParser.cpp of src.
-- - Location: Location.cpp of src, from and to texts.
-- - Version: VersionNumber.cpp of src/libexttools, and CheckIfVersionIsUsable of ToolCompiler.cpp. The
--   reading of a text is in Version/Text.
-- - Examples: small graphs on which the definitions run and the theorems apply.
--
-- The parts meet in the heap: Build and Link change it through the operations of Graph, and Traversal,
-- Visit and Topological read the heap that they leave. The invariant between them is `IsLinked` of
-- Graph/Links: an edge stands in the out edges of exactly its source and in the in edges of exactly its
-- target, and has both ends or neither.
--
-- boost::depth_first_search is not code of the repository: Build takes the calls that it makes of the
-- visitor as an argument. What is relied on of them is `IsSearch` of Build/BackEdges/Total: a tree edge
-- leads to a vertex that no tree edge has led to, and a back edge to its source or to a vertex above it in
-- the tree. The location of the ENTRY and EXIT vertices is an argument of Build, which TranslationUnit
-- reads from the path of the file. The generated parser, the compiler's command and the files are
-- arguments of TranslationUnit, and ParseFile is one of Program. The walk of
-- FindForwardTargetForBackEdge has one unit of fuel more than the predecessor map has entries: each round
-- goes to an older entry or to the root. Traverse and the two other visits are given as their state after
-- a number of rounds of their loops: Traverse need not end, since every call pushes a frame with an empty
-- colour map, also a recursive one; the visit of Visit has a number of rounds that is enough where a
-- visitor stays in one colour context. The loop of VersionNumber::Set has a round for each character and one
-- more: a round that is not the last takes a character.
--
-- An exception and undefined behaviour, such as the dereference of a null pointer, are `none`, a `false`
-- or `fault`. Addresses, indices and counts are natural numbers without overflow. Not modelled are the
-- parser, the report, the command line and the calls of external tools.
pub mod Prelude
pub mod Analyzer
pub mod Build
pub mod Degrees
pub mod Examples
pub mod Graph
pub mod Graphviz
pub mod Link
pub mod Location
pub mod Printing
pub mod Program
pub mod ResponseFile
pub mod Statement
pub mod Topological
pub mod TranslationUnit
pub mod Traversal
pub mod Version
pub mod Visit
