-- ===== src/Hard.antt =====
-- kvstorage/HardRepartitioningKeyValueStorage.h: one engine and one mutex per partition, a map
-- from keys to partitions, and repartitioning that moves the values of keys.
pub mod Invariant
pub mod Access
pub mod Writes
pub mod Moves
pub mod Repartition
pub mod Bits
pub mod Content
pub mod History
pub mod Start
pub mod Scans
use repart_kv.Common.{
  ℕ, zero, suc, ◌+◌, ◌%◌, ◌^◌, Bool, true, false, ◌&&◌, ◌||◌, Option, none, some, List, [], ◌∷◌,
  length, get_elem?, set, ltb, if◌then◌else◌, ◌==◌, leb, ◌++◌, map,
}
use repart_kv.Common.Result.{Result, ok, err, bad_index, ◌>>=◌, out_of_range}
use repart_kv.Key.{Key, Value}
use repart_kv.Storage.{Backend, StorageEngine, Status, success, not_found}
use repart_kv.KeyStorage.{KeyStorage}
use repart_kv.Locks.{Hold, key_map, partition, lock_shared, unlock_shared, within, lock, unlock}
use repart_kv.Tracking.{Tracking}
use repart_kv.SortedMap.{Entries}
use repart_kv.Storage

pub record Hard (B : Backend) (P : KeyStorage ℕ) (T : Tracking) : Type 0 where
  pub storage_map : P.Store
  pub held : List Hold
  pub enable_tracking : Bool
  pub is_repartitioning : Bool
  pub partition_count : ℕ
  pub storages : List (StorageEngine B)
  pub level : ℕ
  pub tracker : T.State
  pub tracking_duration : Option ℕ
  pub repartition_interval : Option ℕ
  pub running : Bool
  pub loop_started : Bool
  pub paths : List Value

-- `paths_[i]`
unfoldable pub nth_path : List Value → ℕ → Value
nth_path ps i = elim (get_elem? ps i) [ some p ↦ p | none ↦ [] ]

abbrev pub tmp : Value
tmp = b'/' ∷ b't' ∷ b'm' ∷ b'p' ∷ []

unfoldable pub or_tmp : List Value → List Value
or_tmp [] = tmp ∷ []
or_tmp (p ∷ ps) = p ∷ ps

abbrev pub is_positive : Option ℕ → Bool
is_positive none = false
is_positive (some n) = ltb 0 n

-- `storages_[p]`
unfoldable pub at {ℓ} : {A : Type ℓ} → List A → ℕ → Result A
at xs p = elim (get_elem? xs p) [ some x ↦ ok x | none ↦ err bad_index ]

-- The engines that the constructor makes, for the partitions from `i` on.
unfoldable pub engines : {B : Backend} → ℕ → ℕ → ℕ → List Value → List (StorageEngine B)
unfolding nth_path
engines zero i level paths = []
engines (suc n) i level paths =
    Storage.create level (nth_path paths (i % length paths)) ∷ engines n (i + 1) level paths

-- The sum of the engines' counters, in a `size_t`.
unfoldable pub operations : {B : Backend} → List (StorageEngine B) → ℕ
operations [] = 0
operations (e ∷ es) = (e.operation_count + operations es) % 2 ^ 64

-- `std::bitset<32>`: the bits that are set
abbrev pub Bitset : Type 0
Bitset = List ℕ

abbrev pub max_partition_count : ℕ
max_partition_count = 32

abbrev pub contains : ℕ → Bitset → Bool
contains i [] = false
contains i (b ∷ bits) = i == b || contains i bits

unfoldable pub set_bit : ℕ → Bitset → Result Bitset
set_bit p bits = if ltb p max_partition_count then ok (p ∷ bits) else err out_of_range

unfoldable pub test : ℕ → Bitset → Result Bool
test i bits = if ltb i max_partition_count then ok (contains i bits) else err out_of_range

-- The first loop of `scan_impl`.
unfoldable pub mark : Entries ℕ → Bitset → Result Bitset
unfolding set_bit
mark [] bits = ok bits
mark ((key, p) ∷ pairs) bits = set_bit p bits >>= mark pairs

-- The loops over the mutexes: `n` rounds from the partition `i` on.
unfoldable pub lock_marked : ℕ → ℕ → Bitset → List Hold → Result (List Hold)
unfolding test
lock_marked zero i bits h = ok h
lock_marked (suc n) i bits h = do
  marked ← test i bits
  h₁ ← (if marked then lock_shared (partition i) h else ok h)
  lock_marked n (i + 1) bits h₁

unfoldable pub unlock_marked : ℕ → ℕ → Bitset → List Hold → Result (List Hold)
unfolding test
unlock_marked zero i bits h = ok h
unlock_marked (suc n) i bits h = do
  marked ← test i bits
  h₁ ← (if marked then unlock_shared (partition i) h else ok h)
  unlock_marked n (i + 1) bits h₁

-- The loop that reads the values, each by the iterator of its partition's engine.
unfoldable pub find_all :
    {B : Backend}
    → List (StorageEngine B)
    → Entries ℕ
    → Status
    → Entries Value
    → Result (Status × Entries Value)
unfolding at
find_all storages [] status results = ok (status, results)
find_all {B} storages ((key, p) ∷ pairs) status results = do
  storage ← at storages p
  let (status', value) = B.find_impl storage.store key []
  let rest = find_all storages pairs status' (results ++ (key, value) ∷ [])
  elim status' [ success ↦ rest | other ↦ ok (other, results) ]

-- The two mutexes of a move, the lower partition first.
unfoldable pub lock_pair : ℕ → ℕ → ℕ → List Hold → Result (List Hold)
lock_pair n p next h =
    if leb p next
    then (within n p (lock (partition p) h) >>= λ h₁. within n next (lock (partition next) h₁))
    else (within n next (lock (partition next) h) >>= λ h₁. within n p (lock (partition p) h₁))

module _ {B : Backend} {P : KeyStorage ℕ} {T : Tracking} where
  unfoldable pub create : ℕ → Option ℕ → Option ℕ → List Value → Hard B P T
  unfolding engines or_tmp nth_path
  create partition_count tracking_duration repartition_interval paths = record {
    storage_map = P.create (nth_path (or_tmp paths) 0);
    held = [];
    enable_tracking = false;
    is_repartitioning = false;
    partition_count = partition_count;
    storages = engines partition_count 0 0 (or_tmp paths);
    level = 0;
    tracker = T.create;
    tracking_duration = tracking_duration;
    repartition_interval = repartition_interval;
    running = true;
    loop_started =
        ltb 1 partition_count && is_positive tracking_duration && is_positive repartition_interval;
    paths = or_tmp paths;
  }

  -- `if (tracker_.update(key)) enable_tracking_ = false`, under the flag
  unfoldable pub track : Key → Hard B P T → Hard B P T
  track key s =
      let (t, full) = T.update s.tracker key in
      if s.enable_tracking
      then record s { tracker = t; enable_tracking = if full then false else true }
      else s

  unfoldable pub track_all : List Key → Hard B P T → Hard B P T
  track_all keys s =
      let (t, full) = T.multi_update s.tracker keys in
      if s.enable_tracking
      then record s { tracker = t; enable_tracking = if full then false else true }
      else s

  -- `read_impl` behind a successful lookup of the partition
  unfoldable pub read_at :
      Hard B P T → ℕ → List Hold → Key → Value → Result (Hard B P T × Status × Value)
  unfolding at track
  read_at s p h key value = do
    h₁ ← within s.partition_count p (lock_shared (partition p) h)
    h₂ ← unlock_shared key_map h₁
    storage ← at s.storages p
    let (storage', status, value') = Storage.read storage key value
    h₃ ← unlock_shared (partition p) h₂
    ok (track key (record s { held = h₃; storages = set s.storages p storage' }), status, value')

  unfoldable pub read_impl : Hard B P T → Key → Value → Result (Hard B P T × Status × Value)
  unfolding read_at
  read_impl s key value = do
    h ← lock_shared key_map s.held
    elim (P.get s.storage_map key) [
      | some p ↦ read_at s p h key value
      | none ↦ do h₁ ← unlock_shared key_map h; ok (record s { held = h₁ }, not_found, value)
    ]

  -- `write_impl` behind the choice of the partition
  unfoldable pub write_at : Hard B P T → ℕ → List Hold → Key → Value → Result (Hard B P T × Status)
  unfolding at track
  write_at s p h key value = do
    h₁ ← within s.partition_count p (lock (partition p) h)
    h₂ ← unlock key_map h₁
    storage ← at s.storages p
    let (storage', status) = Storage.write storage key value
    h₃ ← unlock (partition p) h₂
    ok (track key (record s { held = h₃; storages = set s.storages p storage' }), status)

  module _ (hash_func : Key → ℕ) where
    unfoldable pub write_impl : Hard B P T → Key → Value → Result (Hard B P T × Status)
    unfolding write_at
    write_impl s key value = do
      h ← lock key_map s.held
      elim (P.get s.storage_map key) [
        | some p ↦ write_at s p h key value
        | none ↦
            let p = hash_func key % s.partition_count in
            write_at (record s { storage_map = P.put s.storage_map key p }) p h key value
      ]

  unfoldable pub scan_impl :
      Hard B P T → Key → ℕ → Entries Value → Result (Hard B P T × Status × Entries Value)
  unfolding mark lock_marked unlock_marked find_all track_all
  scan_impl s initial_key_prefix limit results = do
    h ← lock_shared key_map s.held
    let pairs = P.scan s.storage_map initial_key_prefix limit
    bits ← mark pairs []
    h₁ ← lock_marked s.partition_count 0 bits h
    h₂ ← unlock_shared key_map h₁
    (status, results') ← find_all s.storages pairs not_found results
    h₃ ← unlock_marked s.partition_count 0 bits h₂
    ok (track_all (map (λ e. e.0) pairs) (record s { held = h₃ }), status, results')

  -- One round of `update_storage_map`, for a key that is mapped to another partition.
  unfoldable pub move : Hard B P T → ℕ → ℕ → List Hold → Key → Result (Hard B P T)
  unfolding at lock_pair
  move s p next h key = do
    h₁ ← lock_pair s.partition_count p next h
    h₂ ← unlock key_map h₁
    source ← at s.storages p
    let (source', _, value) = Storage.read source key []
    let storages₁ = set s.storages p source'
    target ← at storages₁ next
    let storages₂ = set storages₁ next (Storage.write target key value).0
    source₂ ← at storages₂ p
    let storages₃ = set storages₂ p (Storage.remove source₂ key value).0
    h₃ ← unlock (partition p) h₂
    h₄ ← unlock (partition next) h₃
    ok (record s { held = h₄; storage_map = P.put s.storage_map key next; storages = storages₃ })

  unfoldable pub reassign : Hard B P T → ℕ → Key → Result (Hard B P T)
  unfolding move
  reassign s next key = do
    h ← lock key_map s.held
    elim (P.get s.storage_map key) [
      | none ↦ do h₁ ← unlock key_map h; ok (record s { held = h₁ })
      | some p ↦
          if p == next
          then (do h₁ ← unlock key_map h; ok (record s { held = h₁ }))
          else move s p next h key
    ]

  -- The loop of `update_storage_map`, over the result of METIS and the names of the vertices.
  unfoldable pub reassign_all : List ℕ → List Key → Hard B P T → Result (Hard B P T)
  reassign_all [] names s = ok s
  reassign_all (p ∷ ps) [] s = err bad_index
  reassign_all (p ∷ ps) (key ∷ names) s = reassign s p key >>= reassign_all ps names

  unfoldable pub update_storage_map : Hard B P T → Result (Hard B P T)
  update_storage_map s = do
    s₁ ← reassign_all (T.get_metis_partitions s.tracker) (T.get_idx_to_vertex s.tracker) s
    ok (record s₁ { tracker = T.lock_and_clear_graph s₁.tracker })

  unfoldable pub repartition_impl : Hard B P T → Result (Hard B P T)
  repartition_impl s = do
    let (t, prepared) = T.prepare_for_partition_map_update s.tracker s.partition_count
    let s₁ = record s { is_repartitioning = true; tracker = t }
    s₂ ← (if prepared then update_storage_map s₁ else ok s₁)
    ok (record s₂ { is_repartitioning = false })

  unfoldable pub enable_tracking_impl : Bool → Hard B P T → Hard B P T
  enable_tracking_impl enable s = record s { enable_tracking = enable }

  unfoldable pub operation_count_impl : Hard B P T → ℕ
  unfolding operations
  operation_count_impl s = operations s.storages
