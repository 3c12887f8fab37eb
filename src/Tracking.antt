-- ===== src/Tracking.antt =====
-- kvstorage/Tracker.h, as its clients see it: the methods that the partitioned stores call, and
-- that a partitioning which `prepare_for_partition_map_update` announces is complete and in range.
use repart_kv.Common.{ℕ, ◌<◌, ◌≡◌, Bool, true, List, length, All}
use repart_kv.Key.{Key}

pub record Tracking : Type 1 where
  pub State : Type 0
  pub create : State
  -- whether the graph has reached its size limit
  pub update : State → Key → State × Bool
  pub multi_update : State → List Key → State × Bool
  pub prepare_for_partition_map_update : State → ℕ → State × Bool
  pub get_metis_partitions : State → List ℕ
  pub get_idx_to_vertex : State → List Key
  pub lock_and_clear_graph : State → State
  pub partitions-length :
      (t : State) (n : ℕ)
      → (prepare_for_partition_map_update t n).1 ≡ true
      → length (get_metis_partitions (prepare_for_partition_map_update t n).0)
        ≡ length (get_idx_to_vertex (prepare_for_partition_map_update t n).0)
  pub partitions-InRange :
      (t : State) (n : ℕ)
      → (prepare_for_partition_map_update t n).1 ≡ true
      → All (λ p. p < n) (get_metis_partitions (prepare_for_partition_map_update t n).0)
