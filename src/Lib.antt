-- ===== src/Lib.antt =====
-- Voxen, a voxel game engine: the parts of it that carry data structures and bookkeeping, as
-- definitions that run, with the theorems that make them correct.
--
-- The parts, and where the repository has them:
--
--   Common/V8gFlatMap     include/voxen/common/v8g_flat_map_impl.hpp (with v8g_flat_map.hpp,
--                         v8g_helpers.hpp and v8g_concepts.hpp): a map from keys to versioned
--                         values. `insert`, `erase`, `find` are the functions of that name;
--                         `find_mutable` is find(timeline, key), `copy` the constructor of an
--                         immutable map from a mutable one, `visit_diff` is visitDiff. The state
--                         is the vector of items; a value is what its pointer owns or shares.
--   Common/V8gHashTrie    include/voxen/common/v8g_hash_trie_impl.hpp (with v8g_hash_trie.hpp): a
--                         map of the same kind as a trie over the digits of the keys' hashes.
--                         `insert`, `erase` and `find` are the functions of that name, `insert_in`,
--                         `erase_in` and `find_in` their loops below a root node; `promote` is
--                         promoteItemToNode and `try_shrink` tryShrinkChildNode. A node is two
--                         masks, the two arrays that they pack, and its sizes in bytes. Its child
--                         Visit has `find_first`, `find_next` and `visit_unary`.
--   Common/Uid            include/voxen/common/uid.hpp and src/voxen/common/uid.cpp: identifiers and
--                         their text. `to_chars` is toChars, `from_chars` the constructor from
--                         text; `none` where that constructor does not compile.
--   Extras/LinearAllocator  include/extras/linear_allocator.hpp: ranges of an address space.
--                         The state is the vector of free ranges and the size. The unsigned
--                         type S has w bits, and its sums wrap (`% 2 ^ w`).
--   Extras/Bitset         include/extras/bitset.hpp: the array of 64-bit words; SIZE_MAX, which
--                         is no index, is `none`.
--   Extras/FixedPool      include/extras/fixed_pool.hpp: slots marked in a bitset and counted
--                         references. It uses the bitset through that module's theorems.
--   Svc/AsyncCounterTracker  src/voxen/svc/async_counter_tracker.cpp and .hpp: which of the
--                         allocated counters are complete, in 64 lists of segments.
--   Svc/ServiceLocator    src/voxen/svc/service_locator.cpp and .hpp: services started on demand.
--                         `find_service`, `request_service`, `register_service_factory` are the
--                         methods of that name, `destroy_all` is the destructor. A factory is the
--                         tree of its calls: which service it asks for, and what it does next.
--   Svc/TaskQueueSet      src/voxen/svc/task_queue_set.cpp and .hpp: a ring buffer of tasks with
--                         many pushing and popping threads. Its child Threads has the functions
--                         as steps: PushMove is pushTask, PopMove tryPopTask and what
--                         popTaskOrWait shares with it, WaitMove the waiting of popTaskOrWait,
--                         StopMove requestStopAll. Tries in Calls is one call of tryPopTask by a
--                         thread that is alone, Destroys in Draining the loop of the destructor.
--                         The state is the packed index and the items, with the history of each
--                         position, and where each thread stands.
--   Land/ChunkStorage     src/voxen/land/compressed_chunk_storage.cpp, the template for numbers:
--                         the constructor is `compress`; `load`, `set_uniform` and `expand`.
--   Util/LruVisitOrdering  include/voxen/util/lru_visit_ordering.hpp: keys visited in the order
--                         of their ticks. The state is the queue, as the list of its items in
--                         that order; `visit_oldest` is visitOldest with the visitor's state.
--   Prelude               Boolean tests, lists, words as lists of bits and `bit_and` with a mask.
--
-- In each part the module of that name holds the state and the operations; its children are
-- named for what they prove, and Tests holds runs and the theorems applied to concrete inputs.
--
-- Bounds and fuel. The loop of trimCompleteCounters runs on fuel, the number of counters; each
-- round lowers the number of counters that are left, so the fuel is never used up before the
-- loop ends. The search of the bitset recurs on the number of words it may look at, and
-- visitOldest on its count; a node of the trie has in its type how many digits are left, ten
-- below a root, which is all of a hash. A request of a service runs on fuel for the depth of the
-- factories' requests of each other; each pending service has a factory of its own, so that one
-- more than the number of factories is enough. All other loops are recursions on the list they
-- walk. The C++ assertions are hypotheses, but for those of the task queue's loops, which its
-- invariant carries: an allocator's size is at most half of its unsigned
-- type, a freed range is not free, a bit index is below N, a reference count stays below 256.
--
-- Concurrency. The pool's users act in any order, one atomic action at a time, and a ledger
-- outside the pool counts the pointers that they hold; the tracker's
-- operations are single steps, as its list lock makes them but for the first compare-and-exchange
-- of completeCounter. The threads of a task queue act in any order, one load, compare-exchange,
-- store or futex call at a time, in sequentially consistent memory; a weak compare-exchange may
-- fail and a sleeper may wake with no reason. Its 31-bit counts wrap, and the theorems on runs
-- suppose fewer than 2 ^ 31 pushes.
--
-- Not modelled: graphics, windows and files (input and output), the legacy terrain and the land
-- generator (floating point), shaders, third-party copies, and the thread and coroutine machinery
-- of the task service; the storage tree of chunks and messages. Of the modelled parts: the weaker
-- memory orders of a task queue; the chunks of Booleans, the copies and moves of a chunk, the
-- flat map's erase by iterator and its copy that damages mutable values, and the identity of
-- shared values; the trie's difference visit and which nodes its copies share; factories that
-- register factories, and the locator under several threads.
pub mod Prelude
pub mod Common
pub mod Extras
pub mod Land
pub mod Svc
pub mod Util
