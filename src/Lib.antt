-- ===== src/Lib.antt =====
-- The part of AGVScheduling that decides, as functions: which AGV holds which node of the map, what
-- an allocation of tasks to AGVs is and costs, which tasks and AGVs take part in one, and how a map
-- and the status of a robot are kept.
--
-- The parts, their files here, and the code that they translate:
--
--   Reservation  include/common/NodeReservationTable.h, src/common/NodeReservationTable.cpp. `Table` is
--                the shards and the conflict index; `try_reserve`, `release`, `get` and the others are
--                the methods. A time is the reading of the steady clock in the call, an argument. A
--                call is one step and a history of calls is a list (Reservation/History, and with
--                changes of the map Reservation/Reload). `std::hash<int>` is an argument. The index is
--                made by Reservation/Distance, the grid search of configureDistanceConflict, where
--                `std::floor` is an argument.
--   Allocation   parseSolution and deParseSolution of src/algorithm/base/TaskAllocationUtils.cpp;
--                RemapAllocationToOriginal and AppendForcedTasks of src/common/TaskReachabilityFilter.cpp.
--   Allocator    src/algorithm/base/TaskAllocatorBase.cpp (Allocator/Repair, repairInvalidDuties) and
--                src/algorithm/GreedyTaskAllocator.cpp (Allocator/Greedy). The clock, the parser of
--                times, the settings from the environment and `std::pow` are arguments. The loop of
--                the greedy rounds has fuel for one round more than there are tasks: each round but
--                the last takes a task off.
--   AStar        src/path_planning/AStarPathFinder.cpp, include/AStarPathFinder.h. `std::sqrt` and the
--                element that the heap gives out are arguments. The loop has fuel for a turn for each
--                edge from each state of the map, which it never uses up (AStar/Measure, AStar/Found).
--   Cost         the sparse table of costs and calculateTotalCost of TaskAllocationUtils.cpp.
--   Fleet        the classes of include/data: Point, SubTask, Task, Amr. Fleet/Endpoints has
--                CollectTaskNodes, ResolveEndpoints (src/common/TaskReachabilityFilter.cpp) and
--                ExtractTaskEndpoints (src/common/AllocationReachability.cpp); Fleet/Policy has
--                include/common/TaskPolicy.h.
--   Arbitration  include/common/StatusArbitration.h.
--   UnionFind, MapInfo
--                include/data/MapInfo.h and src/data/MapInfo.cpp.
--   Reach        src/common/AmrPositionResolver.cpp, and IsTaskReachable and FilterTasksByReachability
--                of src/common/TaskReachabilityFilter.cpp.
--   Sanitize     SanitizeAllocationResult of src/common/AllocationReachability.cpp. The shortest path
--                updater's answer, the text of the log and the environment variable are arguments.
--
-- The filter of tasks (Reach) hands the reachable tasks to an allocation, whose result Allocation
-- carries back to the full list, and Sanitize changes chains that cannot be driven; Cost is what an
-- allocation minimises. Reach asks MapInfo, which asks UnionFind. The endpoints of a task are those of
-- Fleet/Endpoints everywhere.
--
-- Prelude holds what the parts share. A C++ `int` is the type of integers; nothing here overflows one,
-- but for the packed 64-bit keys of Cost and MapInfo, whose wrap-around is written out. A `double` is a
-- type of the interface `Double`, whose laws a theorem names where it needs them; Extended is an
-- instance that computes, and Samples has an AGV, for the examples. A method that throws returns
-- `none`. Three kinds of loop run on a counter: the greedy rounds (Allocator), the search for a path
-- (AStar), and the loops of `UnionFind::find`. Of these last, the first has the code's own counter of
-- steps, and the second walks the path that the first one has walked in at most so many steps.
--
-- Not modelled: what happens inside a call of the reservation table while others run. `release` and
-- `get` hold the lock of their shard. `tryReserve` and `findBlockingHold` hold the locks of all shards
-- that they look at, but read the clock and the conflict index before; the releases of all nodes of an
-- owner, `cleanupExpired` and the snapshots lock one shard after the other. Further not modelled are
-- the other planners, the randomised allocator, the shortest path updater (an argument of Reach and
-- Sanitize), the parsing of messages, the network and the tools.
mod Prelude
mod Extended
mod Samples
pub mod Reservation
pub mod Sanitize
pub mod Allocation
pub mod Allocator
pub mod Cost
pub mod Fleet
pub mod AStar
pub mod Arbitration
pub mod UnionFind
pub mod MapInfo
pub mod Reach
