-- ===== src/Lib.antt =====
-- JULES: a model of the optimising compiler's core, with proofs.
--
-- The compiler turns source text into tokens (jules/src/core/lexer), a syntax tree, a
-- sea-of-nodes graph (jules/src/core/son) and machine code. Passes rewrite the graph between the
-- last two. The files here model the lexer, the graph and its verifier, some of the passes, and the
-- register allocator.
--
-- Prelude: shared names; lists, Boolean tests, bits and 64-bit words over the native numbers.
-- Support: jules/src/core/support/common.h, FNV-1a (Hash) and the sorted-vector map (FlatMap). A
--   map is a list of entries, its keys are numbers.
-- Frontend: jules/src/core/diagnostics (Diag), jules/src/core/lexer/token.h (Token),
--   jules/src/core/lexer/lexer.cpp (Lexer). A text is the list of its bytes; the pair `src_`,
--   `i_` is the rest of the text; std::strtod is a parameter. The loops of the lexer have the
--   length of the text, and one, for fuel.
-- Son.Types, Son.Node, Son.Graph, Son.Names, Son.Verifier: jules/src/core/son/types.h, node.h,
--   graph.h and graph.cpp, verifier.cpp. A graph is a record with the source's fields, a node id
--   is an index of the list of nodes. A read out of range, which the code asserts away, gives a
--   dead node. Each mutating member function is a function from graph to graph. `==` on doubles
--   is a parameter.
-- Passes.ConstEval: jules/src/core/son/passes/pass_utils.h. A double is its bit pattern and the
--   operations on doubles are a record, FloatOps. An i64 is its bit pattern, and signed overflow
--   wraps, which is what the comment on eval_bin_const says and what the processor does.
-- Passes.Meaning: what the pure nodes of a graph mean, for the passes to keep. A valuation gives
--   each node a value; params, phis, loads and calls may have any value of their type.
-- Passes.Driver: the loop of rounds that the rewriting passes share. A sweep has fuel, since it
--   visits the nodes that it adds.
-- Passes.IdentityCollapse, ConstantFolding,
--   AlgebraicSimplification, BitwiseOptimization, SelectOptimization:
--   jules/src/core/son/passes/p02, p03, p12, p16 and p17. In each, `visit` first chooses an
--   action and then performs it. `none` is a trap of the compiler (p03) or undefined behaviour
--   (p12 and p16, where std::vector moves its nodes under a reference; when it does is a
--   parameter).
-- Passes.Reassociation: jules/src/core/son/passes/p13, in the same form; --fp=fast is an argument.
-- Passes.PhiSimplification, RedundantPhiElimination, CopyPropagation:
--   jules/src/core/son/passes/p07, p10 and p11; Passes.Phis is the loop over the inputs of a phi that
--   the three repeat.
-- Passes.DeadNodeElimination: jules/src/core/son/passes/p01. The walk over the blocks has the number
--   of entries of the table of successors, and one, for fuel, since it pushes each block at most once;
--   the drain has the size of the graph, since it marks each node at most once.
-- Codegen.Ralloc, its Assign and Coalesce: jules/src/core/codegen/ralloc.h and ralloc.cpp. A pointer
--   to a vreg is its index. The selection by min-cost flow, in ralloc_flow.cpp, is a parameter of the
--   functions that call it.
-- Passes.ConstEval.Arithmetic: an account of the integer operations in arithmetic, which p03 is
--   measured by. Values are 64-bit words, also for 32-bit types, as pass_utils.h has them.
-- Examples: runs of the theorems on concrete graphs, texts, maps and ranges.
--
-- A pass runs in rounds of a sweep over the node ids. The fuel of a sweep of p07, p10, p11, p13 and p17 is the size and
-- one, since they add no node; that of p02 and p03 is twice the size and one, since a visit that adds a node
-- kills one that no later visit of the run rewrites again. p12 and p16 take theirs as an argument.
--
-- Not modelled: the parser, semantic analysis and the borrow checker, the graph builder, the
-- other passes, the analyses, the min-cost flow of the register allocator and the back end; rendering of diagnostics and
-- dumps, which only print; SmallVec and Arena, which are modelled by lists where they are used.
pub mod Prelude
pub mod Support
pub mod Son
pub mod Passes
pub mod Codegen
pub mod Frontend
pub mod Examples
