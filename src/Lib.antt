-- ===== src/Lib.antt =====
-- Verification of pme, the Proof Minimization Engine: a library that takes safety proofs of
-- hardware models and minimizes them, with SAT solvers underneath. This library
-- models parts of src/pme and proves them correct.
--
-- The parts of the program and how they interact. Every part of the engine speaks of literals
-- (src/pme/id.cpp): 64-bit numbers with a sign bit, a count of primes in the top 16 bits and
-- a variable between. The variable manager (src/pme/engine/variable_manager.cpp) hands out
-- fresh variables. The sorting networks (src/pme/util/sorting_network.cpp) are built from the
-- manager's variables, and the cardinality constraints (src/pme/util/cardinality_constraint.cpp) of the
-- MaxSAT and correction set searches stand on them. The trace of IC3 (src/pme/ic3/inductive_trace.cpp) keeps
-- the lemmas of a proof by level; the map solver (src/pme/util/map_solver.cpp) blocks explored seeds.
-- The minimizers (src/pme/minimization) take a proof as a set of clauses and ask a consecution checker
-- (src/pme/engine/consecution_checker.cpp) which clauses hold after a step; findSafeMIS and findMinimalSupport
-- (src/pme/util) search subsets of a proof over it.
--
--   Base        shared helpers: Boolean tests, lists over the native numbers, runs that may stop
--               (`Result`), bit operations on machine words (Base/Bits), hash maps (Base/Maps)
--   Literal     src/pme/id.cpp and the types of src/pme/pme.h, one function per function there
--   Cnf         the meaning of literals and clauses, against which encodings are proved
--   Variables   src/pme/engine/variable_manager.cpp: construction and getNewID
--   Network     src/pme/util/sorting_network.cpp: the data, the comparators, zipperMerge
--               Network/Build: mergeNetwork and sortingNetwork
--               Network/Simplified: simpMergeNetwork and cardinalityNetwork
--               the other files of Network hold the proofs, bottom up
--   Constraint  src/pme/util/cardinality_constraint.cpp: CardinalityConstraint (the assume functions) and
--               SortingConstraint; Constraint/Exact holds the theorems
--   Totalizer   src/pme/util/cardinality_constraint.cpp: TotalizerTree and TotalizerCardinalityConstraint;
--               the sizes of its nodes are in Totalizer/Sizes and Totalizer/Reachable
--   Trace       src/pme/ic3/inductive_trace.cpp: Frames (Trace/FrameStore) and InductiveTrace; the invariant is in
--               Trace/Invariant, its preservation in Preserved, Added, AddLemma and Trimmed;
--               getFullFrame is in FullFrame
--   MapSolver   src/pme/util/map_solver.cpp: the blocking clauses and the assumptions for a seed
--   Hitting     src/pme/util/hitting_set_finder.cpp, and subsumes of src/pme/pme.cpp
--   Checker     src/pme/engine/consecution_checker.h: the checker as an interface with the laws of its answers;
--               Checker/Chain is a small circuit that meets it
--   Database    src/pme/util/clause_database.cpp
--   Mis         src/pme/util/find_safe_mis.cpp, and isInductive of src/pme/engine/consecution_checker.cpp
--   Support     src/pme/util/find_minimal_support.cpp
--   Sisi        src/pme/minimization/sisi.cpp: the class SISI; Sisi/Feasible has refineFEAS and the steps of the
--               minimizer
--   Minimizer   src/pme/minimization/minimization.cpp and brute_force.cpp, and the minimizer of sisi.cpp;
--               Minimizer/Simple has simple.cpp
--
-- State is passed explicitly: a function of the source that calls `getNewID` takes the manager and
-- returns it with its result. `assert`, `at` and thrown exceptions return a fault in a `Result`.
--
-- Bounds and fuel. A literal is a number with its 64 bits written out (`% 2 ^ 64`), and an `unsigned`
-- that the assume functions hold one in keeps 32 (`% 2 ^ 32`), as does the number of a lemma, which the size
-- of the vector of lemmas is cut to; addLemma is described for traces of fewer than 2^32 lemmas. The networks recurse on fuel: the
-- number of inputs and one more for the merge networks, the number of inputs for the others; each call
-- halves its inputs, and the theorems on the networks state that every run returns. That the manager
-- never passes its last variable (2^47 of them) is an assertion of `getNewID` that the models of its
-- callers do not repeat. `std::sort` is insertion sort, a set is the list of its elements in order.
-- findSafeMIS takes as fuel the number of clauses and one more, its inner loop the number of clauses that
-- are left; refineFEAS the number of all clauses, for both loops; bruteForceMinimize the number of feasible
-- clauses, findMinimalSupport that of the frame, and the simple minimizer that of all clauses: each time
-- fuel is spent a set shrinks or grows by at least one. The theorems on them state that every run returns.
--
-- The consecution checker is a parameter: a record of its calls with the laws that its answers obey. A clause
-- that holds has a support from which it holds, a clause that fails has an assignment of which every
-- completion is a step that breaks it. It is asked only about clauses that it knows, which have no primes and
-- no literal beside its negation; the code does not check that when a clause is added. The laws are shown to be met by a checker of a small circuit.
--
-- Not modelled: the vendored SAT solvers (sat/) and the AIGER library (aiger/), which are
-- other projects; the transition relation, BMC and IC3 solvers, the checker's own use of its SAT
-- solver, the MARCO and CAMSIS minimizers, the IVC finders, MaxSAT and MUS searches, what hitting
-- sets read from a model, and the debuggers, which are built on a SAT solver; logging and options.
pub mod Base
pub mod Literal
pub mod Cnf
pub mod Variables
pub mod Network
pub mod Constraint
pub mod Totalizer
pub mod Trace
pub mod MapSolver
pub mod Hitting
pub mod Checker
pub mod Database
pub mod Mis
pub mod Support
pub mod Sisi
pub mod Minimizer
