-- ===== src/Lib.antt =====
-- A model of the core of CASITA, the analysis tool for OTF2 traces: the nodes and edges of the
-- event graph, the graph with its critical path, the event streams that collect the nodes, the
-- engine that links them, and the distribution of blame over the edges. The trace reader feeds
-- events to the engine, which takes nodes into their streams and adds edges between them; the
-- critical path and the blame walk back over these edges.
--
-- Node is class Node of src/backend/include/graph/Node.hpp: Flags, Paradigm, Ofld, Mpi, Omp and
-- Misc hold its enumerations, Metric the metric types of src/backend/include/AnalysisMetric.hpp,
-- Defs its state and accessors, Kinds its predicates (isMPISend is is_mpi_send), Order its
-- compareLess. OrderLaws and Counters prove what the order and the counters do.
--
-- GraphNode is class GraphNode of src/backend/include/graph/GraphNode.hpp: Search has both
-- findNode functions, TimeSearch findLastNodeBefore and findFirstNodeAfter, Partner the pair of
-- a region's nodes, with the pairing that addNewGraphNodeInternal of src/backend/GraphEngine.cpp
-- does. SearchLaws, FindNode, TimeLaws, TimeLast and TimeFirst are the proofs.
--
-- Edge is class Edge of src/backend/include/graph/Edge.hpp: Defs with the weight, Blame with the
-- blame map; Weight has the proofs.
--
-- Graph is class Graph of src/backend/Graph.cpp: Defs with the edge maps and getSubGraph,
-- SortedInsert with sortedInsert, CriticalPath with getCriticalPath. Edges, SubGraph, Choice,
-- Before, Chain and Walk are the proofs; Chain says what a critical path is.
--
-- Stream is class EventStream of src/backend/EventStream.cpp: Defs with its state, Add with
-- addGraphNode, Insert with insertGraphNode, Walk with walkBackward and walkForward. AddLaws,
-- Consistent, AddGraphNode, InsertLaws and LastNode are the proofs.
--
-- Engine is class GraphEngine of src/backend/GraphEngine.cpp: Defs with the edges, the stacks of
-- open regions and the sanity check, Nodes with addNewGraphNodeInternal, Queries with the
-- searches and streamWalkBackward. Outcomes says what holds of results; Sanity, SaneNodes,
-- Joining, Latest, LinkLaws, Regions, RegionLaws, Closest, WalkBack and QueryLaws are the
-- proofs. The engine puts a node into its stream by the operations of Stream and makes edges by
-- those of Graph; the pairs, callers and stacks are stored by identifier.
--
-- MpiStream is class MpiStream of src/backend/MpiStream.cpp: Defs with its state and a store of
-- the nodes that it changes, Handlers with the handlers of MPI events, Requests with waiting and
-- testing. Reached says which states the calls reach. Maps, Lifecycle, Tracked, Finished, Kept,
-- KeptCalls, KeptLoops, ReachedLaws, Returning, Refused, HalfDone and TestAll are the proofs. A
-- call that waits returns the handles that MPI_Wait is called for, and the answers of MPI_Test
-- are an argument.
--
-- BlameDistribution is src/analysis/include/BlameDistribution.hpp: Callbacks with the callbacks
-- of the stream walks, Defs with distributeBlame, Laws with the proofs. It walks over Stream,
-- finds edges by Engine and charges the blame maps of Edge. Statistics is class Statistics of
-- src/analysis/Statistics.cpp: Defs, and Sized with accesses inside of the arrays.
--
-- MpiAnalysis is class MPIAnalysis of src/analysis/MPIAnalysis.cpp: Defs with the groups, ranks
-- and remote nodes; the communicators that MPI makes are an argument. MpiRules holds the rules
-- for MPI: Collective is CollectiveRule of src/analysis/include/mpi/CollectiveRule.hpp, where
-- the receive buffer of MPI_Allgather is an argument, a list with one block for each rank;
-- LastEnter, Blocking, Judging and CollectiveLaws are the proofs. PointToPoint is SendRule and
-- RecvRule of the same directory, where the message that MPI_Recv gives is an argument;
-- Agreement compares the two ranks. The collective rule tests the requests of the stream by
-- MpiStream, counts by Statistics, finds its group and adds remote nodes by MpiAnalysis, and on
-- the last rank it distributes the blame by BlameDistribution.
--
-- Device is class DeviceStream of src/backend/DeviceStream.cpp: Defs with its state, where the
-- links of all nodes are a store, and Pending with the proofs. StreamGroup is class
-- EventStreamGroup of src/backend/EventStreamGroup.cpp: Defs over a heap of stream objects, Laws
-- and FirstStream with the invariant, Reached with the sequences of calls and Lookups with what
-- is found after them. Tests holds concrete runs.
--
-- A pointer to a node is the node's value or, in links and maps, its identifier, which the
-- constructor draws from a counter, so distinct nodes have distinct identifiers; theorems that
-- need this say so. A 64-bit number is a natural number, and its wrap-around is written out
-- where it can occur. A loop check of getCriticalPath is below 2^15, the range of the short that
-- findInFirst reads it as. Whether a node has a caller is an argument of the critical path.
-- Blame is a double in the code; here its type and addition are arguments.
--
-- A backward walk of the engine runs on one unit more than the time of its first node, which is
-- enough since the time falls with each step. distributeBlame calls itself for blame that is
-- propagated to other streams, on fuel; without propagation one unit is enough.
--
-- The binary searches run on fuel, one unit for each node of the vector, which is enough since
-- each round shrinks the range. The critical path runs on fuel too, and a rank of the nodes
-- bounds the number of rounds that it takes.
--
-- Left out are output and diagnostics (apart from the reads outside of the vector that a failed
-- binary search does), memory management, the trace reader and writer, the runner with its MPI
-- communication, GraphEngine::newEventStream and reset, MPIAnalysis::getMpiPartnersRanks, and
-- the analysis rules other than those for collectives, sends and receives.
pub mod Prelude
pub mod Node
pub mod GraphNode
pub mod Edge
pub mod Graph
pub mod Stream
pub mod Device
pub mod StreamGroup
pub mod Engine
pub mod MpiStream
pub mod BlameDistribution
pub mod Statistics
pub mod MpiAnalysis
pub mod MpiRules
pub mod Tests
