-- ===== src/HardThreaded/Overtakes.antt =====
-- What a repartitioning does to the order of the calls on a key.
use repart_kv.Common.{
  ℕ, suc, ◌%◌, ◌≡◌, refl, sym, ap, ◌∙◌, true, false, Option, some, List, [], ◌∷◌, ◌++◌, arith,
  length, get_elem?, set, ◌==◌, subst, get_elem?-set, ◌+◌, lt-get_elem?, get_elem?-set_self,
}
use repart_kv.Common.Result.{ok}
use repart_kv.Key.{Key, Value}
use repart_kv.Storage.{Backend, found_or, success, StorageEngine}
use repart_kv.Storage.Laws.{held, read_result}
use repart_kv.KeyStorage.{KeyStorage, get-put}
use repart_kv.Tracking.{Tracking}
use repart_kv.Tracker.{put_parts}
use repart_kv.Soft.Parts.{placed_by}
use repart_kv.Worker.{reads, writes, enqueue, read_reply}
use repart_kv.SoftThreaded.{later}
use repart_kv.SoftThreaded.Steps.{called, ended}
use repart_kv.HardWorker.{
  HardQueue, HardOutcome, hard_reads, hard_writes, hard_worker, hard_process, put_at,
}
use repart_kv.HardThreaded.{
  HardThreaded, read_impl, write_impl, repartition_impl, update_map, new_engines, track,
  after_round, HardOperation,
}
use repart_kv.HardThreaded.Steps.{HardStep, HardRun, hard_ends_by}
use repart_kv.HardThreaded.Invariant.{HardInv, worker_of, engine_of, value_of}
use repart_kv.HardThreaded.Start.{old-new_engines}
use repart_kv.HardThreaded.Submits.{Written, written, write-Written}
use repart_kv.Storage

-- The parts are put whatever the map is like.
put_parts-placed_by :
    (P : KeyStorage ℕ) (names : List Key) (parts : List ℕ) (m : P.Store)
    → length parts ≡ length names
    → (n : P.Store) × (put_parts P names parts m ≡ ok n)
      × ((k : Key) → P.get n k ≡ placed_by k names parts (P.get m k))
unfolding put_parts
put_parts-placed_by P [] [] m l = (m, refl, λ k. refl)
put_parts-placed_by P [] (p ∷ parts) m l = absurd (omega (arith, l))
put_parts-placed_by P (j ∷ names) [] m l = absurd (omega (arith, l))
put_parts-placed_by P (j ∷ names) (p ∷ parts) m l =
    let (n, e, maps) = put_parts-placed_by P names parts (P.put m j p) (omega (arith, l)) in
    (n, e, λ k. maps k ∙ ap (placed_by k names parts) (get-put P m j k p))

enqueue_idle :
    (queues : List HardQueue) (p : ℕ) (o : HardOperation)
    → get_elem? queues p ≡ some []
    → enqueue p o queues ≡ ok (set queues p (o ∷ []))
unfolding enqueue
enqueue_idle queues p o e = rw (enqueue, e) refl

module _ {B : Backend} {S P : KeyStorage ℕ} {T : Tracking} (hash_func : Key → ℕ) where
  -- A read by the worker `p` of the engine `e`.
  module _ (s : HardThreaded B S P T) (p e n : ℕ) (k : Key) (old : Value)
      (there : get_elem? s.queues p ≡ some (hard_reads n k old e ∷ [])) where
    abbrev read_outcome : HardOutcome B
    read_outcome = record {
      engines = put_at e (Storage.read (s.engines e) k old).0 s.engines;
      queues = set s.queues p [];
      scans = s.scans;
      replies =
          read_reply n (Storage.read (s.engines e) k old).1 (Storage.read (s.engines e) k old).2
          ∷ [];
    }

    read_round : hard_worker p s.engines s.queues s.scans ≡ some read_outcome
    unfolding hard_worker hard_process
    read_round = rw (hard_worker, there) refl

    read_ends :
        hard_ends_by (get_elem? s.queues p) read_outcome.replies
        ≡ ended (reads n k old) (some (found_or old (held k (s.engines e)))) ∷ []
    read_ends =
        rw there (ap (λ x. ended (reads n k old) (some x) ∷ []) (read_result (s.engines e) k old))

    read_run :
        HardRun hash_func false s
          (ended (reads n k old) (some (found_or old (held k (s.engines e)))) ∷ [])
          (after_round s read_outcome)
    read_run =
        HardRun.more (hard_ends_by (get_elem? s.queues p) read_outcome.replies)
          (HardStep.work p read_outcome read_round) HardRun.stop (ap (λ x. x ++ []) (sym read_ends))

  -- The submission of a read at the worker `p` of the map.
  read_submits :
      (s : HardThreaded B S P T) (k : Key) (old : Value) (p e : ℕ)
      → S.get s.storage_map k ≡ some e
      → P.get s.partition_map k ≡ some p
      → get_elem? s.queues p ≡ some []
      → s.enable_tracking ≡ false
      → read_impl hash_func s k old
        ≡ ok (
          record s {
            queues = set s.queues p (hard_reads s.next_id k old e ∷ []);
            next_id = suc s.next_id;
          },
          later s.next_id,
        )
  unfolding read_impl track
  read_submits s k old p e hs hp hq off =
      rw
        (
          read_impl,
          hs,
          P.get_or_insert_old s.partition_map k (hash_func k % s.partition_count) p
              (sym (P.get_lem s.partition_map k) ∙ hp),
          enqueue_idle s.queues p (hard_reads s.next_id k old e) hq,
          off,
        )
        refl

  -- A repartitioning that finds a partitioning.
  abbrev repartitioned : HardThreaded B S P T → P.Store → HardThreaded B S P T
  repartitioned s m = record s {
    is_repartitioning = false;
    enable_tracking = false;
    partition_map = m;
    tracker =
        T.lock_and_clear_graph (T.prepare_for_partition_map_update s.tracker s.partition_count).0;
    storages = (new_engines s.partition_count 0 s.allocated (suc s.level) s.paths s.engines).0;
    level = suc s.level;
    engines = (new_engines s.partition_count 0 s.allocated (suc s.level) s.paths s.engines).1;
    allocated = s.allocated + s.partition_count;
  }

  repartition_result :
      (s : HardThreaded B S P T)
      → let prepared = T.prepare_for_partition_map_update s.tracker s.partition_count in
        prepared.1 ≡ true
        → (m : P.Store) × (repartition_impl s ≡ ok (repartitioned s m))
          × ((k : Key)
              → P.get m k
                ≡ placed_by k
                    (T.get_idx_to_vertex prepared.0)
                    (T.get_metis_partitions prepared.0)
                    (P.get s.partition_map k))
  unfolding repartition_impl update_map
  repartition_result s found =
      let prepared = T.prepare_for_partition_map_update s.tracker s.partition_count in
      let (m, e, maps) =
        put_parts-placed_by P (T.get_idx_to_vertex prepared.0) (T.get_metis_partitions prepared.0)
          s.partition_map (T.partitions-length s.tracker s.partition_count found) in
      (m, rw (repartition_impl, found, e) refl, maps)

  -- The partition of a key behind a repartitioning, if it is now at home.
  abbrev pub destination : HardThreaded B S P T → T.State → Key → Option ℕ → Option ℕ
  destination s tracker k old =
      let prepared = T.prepare_for_partition_map_update tracker s.partition_count in
      placed_by k (T.get_idx_to_vertex prepared.0) (T.get_metis_partitions prepared.0) old

  -- A write returns, a repartitioning gives its key another worker, and a read that is called then
  -- ends with the value from before the write.
  abbrev pub Overtakes : HardThreaded B S P T → Key → Value → Value → Type 0
  Overtakes s k v old =
      (t : HardThreaded B S P T) × HardRun hash_func false s
        (called (writes k v)
          ∷ called (reads s.next_id k old)
          ∷ ended (reads s.next_id k old) (some (found_or old (value_of hash_func s k)))
          ∷ [])
        t

  module _ (s : HardThreaded B S P T) (i : HardInv hash_func s) (k : Key) (v old : Value) (p : ℕ)
      (off : s.enable_tracking ≡ false) (empty : get_elem? s.queues p ≡ some [])
      (found : (T.prepare_for_partition_map_update s.tracker s.partition_count).1 ≡ true)
      (moved : destination s s.tracker k (some (worker_of hash_func s k)) ≡ some p)
      (differs : (worker_of hash_func s k == p) ≡ false) (d : Written hash_func s i k v) where
    abbrev wrote : HardThreaded B S P T
    wrote = written hash_func s i k v d

    tracker-wrote : wrote.tracker ≡ s.tracker
    tracker-wrote = rw off refl

    found-wrote : (T.prepare_for_partition_map_update wrote.tracker wrote.partition_count).1 ≡ true
    found-wrote = rw off found

    other_queue : get_elem? wrote.queues p ≡ some []
    other_queue = ground (
      arith,
      get_elem?-set s.queues (worker_of hash_func s k) p
          (d.queue ++ hard_writes k v (engine_of hash_func s k) ∷ [])
          (lt-get_elem? s.queues (worker_of hash_func s k) d.queue d.there),
      differs,
      empty,
    )

    moved-wrote : destination s wrote.tracker k (P.get d.partition_map k) ≡ some p
    moved-wrote =
        ap (λ t. destination s t k (P.get d.partition_map k)) tracker-wrote
        ∙ ap (destination s s.tracker k) d.partition.here
        ∙ moved

    old_value :
        (m : P.Store)
        → held k ((repartitioned wrote m).engines (engine_of hash_func s k))
          ≡ value_of hash_func s k
    old_value m = ap (held k) (
        old-new_engines B s.partition_count 0 s.allocated (suc s.level) s.paths s.engines
          (engine_of hash_func s k) (i.live k))

    overtaking :
        s.scanning ≡ [] → write_impl hash_func s k v ≡ ok (wrote, success) → Overtakes s k v old
    overtaking alone returned =
        let e = engine_of hash_func s k in
        let (m, done, maps) = repartition_result wrote found-wrote in
        let read = hard_reads s.next_id k old e in
        let t : HardThreaded B S P T = record (repartitioned wrote m) {
          queues = set wrote.queues p (read ∷ []);
          next_id = suc s.next_id;
        } in
        let submits =
          read_submits (repartitioned wrote m) k old p e d.storage.here (maps k ∙ moved-wrote)
            other_queue refl in
        let there =
          get_elem?-set_self wrote.queues p (read ∷ [])
            (lt-get_elem? wrote.queues p [] other_queue) in
        (
          after_round t (read_outcome t p e s.next_id k old there),
          HardRun.more (called (writes k v) ∷ []) (HardStep.write k v success alone returned)
              (HardRun.more [] (HardStep.repartition refl alone done)
                (HardRun.more (called (reads s.next_id k old) ∷ [])
                  (HardStep.read_waits k old s.next_id submits)
                  (subst
                    (λ x.
                      HardRun hash_func false t
                        (ended (reads s.next_id k old) (some (found_or old x)) ∷ [])
                        (after_round t (read_outcome t p e s.next_id k old there)))
                    (old_value m) (read_run t p e s.next_id k old there))
                  refl)
                refl)
              refl,
        )

  -- Of every state under the invariant of calm runs in which tracking is off, no scan has the mutex
  -- and a partitioning is found that moves the key to another worker whose queue is empty: a write
  -- of the key can return, the repartitioning come, and a read that is called then end with the
  -- value from before the write.
  pub write_impl-Overtakes :
      (s : HardThreaded B S P T) (k : Key) (v old : Value) (p : ℕ)
      → HardInv hash_func s
      → s.enable_tracking ≡ false
      → s.scanning ≡ []
      → get_elem? s.queues p ≡ some []
      → (T.prepare_for_partition_map_update s.tracker s.partition_count).1 ≡ true
      → destination s s.tracker k (some (worker_of hash_func s k)) ≡ some p
      → (worker_of hash_func s k == p) ≡ false
      → Overtakes s k v old
  write_impl-Overtakes s k v old p i off alone empty found moved differs =
      let (d, returned) = write-Written hash_func s i k v in
      overtaking s i k v old p off empty found moved differs d alone returned
