-- ===== src/Lib.antt =====
-- repart-kv: a key-value store over several partitions, which moves keys between its partitions so
-- that keys accessed together come to lie together.
--
-- A store of kvstorage/ has one engine for each partition (storage/), a map from each key to its
-- partition (keystorage/), and a tracker (kvstorage/Tracker.h) that counts in a weighted graph
-- (graph/Graph.h) which keys are accessed and which together. A repartitioning takes the graph in
-- compressed rows to METIS (graph/MetisGraph.h) and moves the keys to the parts that come back.
--
-- Files:
--   Common, Common/*      tests, lists, options, the result of code that may throw
--   Key                   keys and values, strings as lists of bytes, compared as std::string does
--   SortedMap             std::map as a sorted association list
--   Storage               storage/StorageEngine.h and storage/Status.h; the record Backend is what a
--                         class derived from StorageEngine provides
--   Storage/Map           storage/MapStorageEngine.h, a Backend
--   KeyStorage            keystorage/KeyStorage.h, the record of the methods with the laws of a map
--   KeyStorage/Map        keystorage/MapKeyStorage.h, a KeyStorage
--   Locks                 std::shared_mutex: what one thread holds. Taking a mutex that the thread
--                         holds, and releasing one that it does not hold so, are errors
--   Hard                  kvstorage/HardRepartitioningKeyValueStorage.h: the constructor and
--                         read_impl, write_impl, scan_impl, repartition_impl and
--                         enable_tracking_impl, each as a function from the state to the state and
--                         the results, or to the error that ends it
--   Soft                  kvstorage/SoftRepartitioningKeyValueStorage.h: the same methods over one
--                         engine, whose repartitioning changes the map only
--   Stripped              kvstorage/LockStrippingKeyValueStorage.h: the hash of a key is its
--                         partition, and a scan sorts what the engines of all partitions find
--   Worker                kvstorage/threaded/SoftPartitionWorker.h and kvstorage/threaded/operation/:
--                         the operations, the queues of the workers and a round of a worker
--   SoftThreaded          kvstorage/threaded/SoftThreadedRepartitioningKeyValueStorage.h: the methods
--                         up to the wait for the reply. SoftThreaded/Steps has the runs: the methods
--                         and the rounds of the workers in any order
--   HardWorker            kvstorage/threaded/HardPartitionWorker.h and the operations that it takes
--   HardThreaded          kvstorage/threaded/HardThreadedRepartitioningKeyValueStorage.h, as
--                         SoftThreaded, over a heap of engines
--   Hard/History          the public methods of kvstorage/RepartitioningKeyValueStorage.h and
--                         kvstorage/PartitionedKeyValueStorage.h in sequence, beside a single map
--   Graph                 graph/Graph.h
--   Metis                 graph/MetisGraph.h; Metis/Rows says what the compressed rows hold, apart from
--                         the loops that fill them
--   Tracker               kvstorage/Tracker.h; the thread takes an item by pop_step and applies it by
--                         apply_step, and the methods of other threads come in between
--   Tracking              the tracker as the stores see it, with what they rely on;
--                         Tracker/Prepare fills it
--   Instances, Tests      concrete libraries, and the theorems at concrete inputs
--
-- Parameters: METIS, ankerl::unordered_dense::map and tbb::concurrent_bounded_queue are libraries
-- outside the repository. They are the records Metis, DenseMap and BoundedQueue, whose laws are what
-- their documentation says; Instances has concrete ones. The hash of the keys is any
-- function.
--
-- Bounds and fuel: weights, indices and counters are numbers without bound, so what is said holds as
-- long as they stay in the range of int and idx_t. The draining loops of the tracker run on as much
-- fuel as the queue has items and one round more, since each round but the last takes an item. All
-- other loops recur on a list or on the number of partitions.
--
-- A call of a store without workers is one step: what is said of histories holds of calls that do not
-- overlap. The mutexes that a call takes are in the state, and every release names the mutex and its
-- mode.
--
-- In a run of a threaded store a method that holds the mutex of the map exclusively is one step, a
-- scan takes a step for each worker at which it enqueues, and a round of a worker is one step. The
-- tracking of the key, which follows the release of the mutex, is in the step of the call, and a
-- repartitioning is in one step with the partitioning of the graph before it. A reply is what the
-- thread of the caller finds when the future or the barrier lets it go on. The queues have no bound,
-- so the wait for room in one is not in the runs, and a push is one step that puts the operation at the
-- end: that several threads which hold the mutex shared push to one single-producer queue at once is
-- outside of the model.
--
-- A partitioning of the graph is prepared among the steps of other threads, which are an argument:
-- those in the rounds of the draining loop, after which the loop is alone with the queue, and those
-- from its end to the lock.
--
-- Not modelled: the background loops and the destructors of the stores, overlapping calls of the
-- stores without workers, the engines and key storages over third-party databases, the benchmark
-- runner, and the programs around it.
pub mod Common
pub mod Key
pub mod SortedMap
pub mod Storage
pub mod KeyStorage
pub mod Locks
pub mod Tracking
pub mod Hard
pub mod Soft
pub mod Stripped
pub mod Graph
pub mod Metis
pub mod Tracker
pub mod Instances
pub mod Tests
pub mod Worker
pub mod HardWorker
pub mod HardThreaded
pub mod SoftThreaded
