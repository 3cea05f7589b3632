-- ===== src/Build.antt =====
-- Building the control flow graph of one function out of its statement list: LabelMap and the
-- ResolveLinks members (src/controlflowgraph/statements/ParseHelpers.cpp),
-- Function::CreateControlFlowGraph with its helpers (src/Function.cpp), and the passes of
-- src/controlflowgraph/algorithms/cfg_algs.cpp.
pub mod Resolve
pub mod Create
pub mod BackEdges
pub mod Redundant
pub mod Grows
pub mod Whole
