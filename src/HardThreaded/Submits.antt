-- ===== src/HardThreaded/Submits.antt =====
-- The submission of an operation: it goes to the end of the queue of the home of its key.
use repart_kv.Common.{
  ℕ, suc, ◌<◌, ◌≡◌, refl, sym, ap, ◌∙◌, Bool, true, false, none, some, [], ◌∷◌, ◌++◌, arith, ◌⊎◌,
  get_elem?, set, if◌then◌else◌, Option-cases, Bool-cases, inl, inr, ◌==◌, get_elem?-lt, subst,
}
use repart_kv.Common.Result.{ok}
use repart_kv.Key.{Key, Value, key_eq}
use repart_kv.Key.Laws.{key_eq_iff}
use repart_kv.Storage.{Backend, success, not_found}
use repart_kv.KeyStorage.{KeyStorage}
use repart_kv.Tracking.{Tracking}
use repart_kv.Worker.{reads, writes, enqueue}
use repart_kv.SoftThreaded.{now, later}
use repart_kv.SoftThreaded.Steps.{called}
use repart_kv.HardWorker.{HardOperation, hard_reads, hard_writes, HardQueue}
use repart_kv.Hard.{at}
use repart_kv.HardThreaded.{HardThreaded, read_impl, write_impl, track, partition_of, current}
use repart_kv.HardThreaded.Invariant.{HardInv, HardMoves, worker_of, engine_of}
use repart_kv.HardThreaded.Homes.{
  Settled, get_or_insert-Settled, engine_at-some, put-Settled, Settled-none,
}
use repart_kv.HardThreaded.Behind.{submit_moves}

module _ {B : Backend} {S P : KeyStorage ℕ} {T : Tracking} (hash_func : Key → ℕ) where
  module _ (s : HardThreaded B S P T) (i : HardInv hash_func s) where
    worker_of-lt : (k : Key) → worker_of hash_func s k < s.partition_count
    worker_of-lt k = omega (arith, i.nonempty)

    home_queue :
        (k : Key) → (q : HardQueue) × (get_elem? s.queues (worker_of hash_func s k) ≡ some q)
    home_queue k =
        get_elem?-lt s.queues (worker_of hash_func s k) (omega (arith, worker_of-lt k, i.sized))

    home_engine :
        (k : Key) → get_elem? s.storages (worker_of hash_func s k) ≡ some (engine_of hash_func s k)
    home_engine k =
        let (e, there) =
          get_elem?-lt s.storages (worker_of hash_func s k)
            (omega (arith, worker_of-lt k, i.engines)) in
        there ∙ ap some (sym (engine_at-some s.storages (worker_of hash_func s k) e there))

    enqueue_home :
        (k : Key) (q : HardQueue) (o : HardOperation)
        → get_elem? s.queues (worker_of hash_func s k) ≡ some q
        → enqueue (worker_of hash_func s k) o s.queues
          ≡ ok (set s.queues (worker_of hash_func s k) (q ++ o ∷ []))
    unfolding enqueue
    enqueue_home k q o e = rw (enqueue, e) refl

    at_home : (k : Key) → at s.storages (worker_of hash_func s k) ≡ ok (engine_of hash_func s k)
    unfolding at
    at_home k = rw (at, home_engine k) refl

    other_key :
        (m : S.Store) (k j : Key) (e : ℕ)
        → S.get m k ≡ some e
        → S.get m j ≡ none
        → key_eq k j ≡ false
    other_key m k j e hit miss = elim (Bool-cases (key_eq k j)) [
      | inr other ↦ other
      | inl same ↦ absurd (cc (ap (S.get m) ((key_eq_iff k j).0 same), hit, miss))
    ]

    -- A read waits at the home of its key, or, for a key that no engine has, returns.
    pub read_cases :
        (k : Key) (v : Value)
        → ((S.get s.storage_map k ≡ none) × (read_impl hash_func s k v ≡ ok (s, now not_found)))
          ⊎ (t : HardThreaded B S P T) × (read_impl hash_func s k v ≡ ok (t, later s.next_id))
            × HardMoves hash_func s (called (reads s.next_id k v) ∷ []) t
    unfolding read_impl track
    read_cases k v = elim (Option-cases (S.get s.storage_map k)) [
      | inl miss ↦ inl (miss, rw (read_impl, miss) refl)
      | inr (e, hit) ↦
          let (pm, found, ep, settled, known) =
            get_or_insert-Settled P (worker_of hash_func s) s.partition_map i.partitions k in
          let (q, there) = home_queue k in
          let o = hard_reads s.next_id k v e in
          let tracker = if s.enable_tracking then (T.update s.tracker k).0 else s.tracker in
          inr (
            record s {
              partition_map = pm;
              queues = set s.queues (worker_of hash_func s k) (q ++ o ∷ []);
              tracker = tracker;
              next_id = suc s.next_id;
            },
            rw (read_impl, hit, ep, enqueue_home k q o there) refl,
            submit_moves hash_func s i (worker_of hash_func s k) o q there
                (refl, i.storages k e hit) s.storage_map pm tracker (suc s.next_id)
                (reads s.next_id k v) i.storages settled.homed
                (λ j f g. settled.kept j (worker_of hash_func s j) (i.paired j f g))
                (λ j g. (g, rw (other_key s.storage_map k j e hit g) refl)) (λ j. refl),
          )
    ]

    partition_home :
        (k : Key) (found : Bool)
        → (found ≡ true → (e : ℕ) × (S.get s.storage_map k ≡ some e))
        → (pm : P.Store) × (partition_of P found s.partition_map k (worker_of hash_func s k)
            ≡ (pm, worker_of hash_func s k))
          × Settled P (worker_of hash_func s) s.partition_map k pm
    unfolding partition_of
    partition_home k true known =
        let (e, there) = known refl in
        let hit = i.paired k e there in
        (
          s.partition_map,
          rw (partition_of, hit) refl,
          record { homed = i.partitions; here = hit; kept = λ j p e. e; others = λ j ne. refl },
        )
    partition_home k false known =
        let (pm, found, e, settled, known) =
          get_or_insert-Settled P (worker_of hash_func s) s.partition_map i.partitions k in
        (pm, rw (partition_of, e) refl, settled)

    current_home :
        (k : Key) (sm : S.Store)
        → Settled S (engine_of hash_func s) s.storage_map k sm
        → (sm' : S.Store) × (current hash_func s sm k
              (engine_of hash_func s k)
              (worker_of hash_func s k)
            ≡ ok (sm', engine_of hash_func s k))
          × Settled S (engine_of hash_func s) s.storage_map k sm'
    unfolding current
    current_home k sm settled =
        elim (Bool-cases ((s.engines (engine_of hash_func s k)).level == s.level)) [
          | inl same ↦ (sm, rw (current, same) refl, settled)
          | inr older ↦
              let again = put-Settled S (engine_of hash_func s) sm settled.homed k in
              (
                S.put sm k (engine_of hash_func s k),
                rw (current, older, at_home k) refl,
                record {
                  homed = again.homed;
                  here = again.here;
                  kept = λ j p e. again.kept j p (settled.kept j p e);
                  others = λ j ne. again.others j ne ∙ settled.others j ne;
                },
              )
        ]

    paired-both :
        (k : Key) (sm : S.Store) (pm : P.Store)
        → Settled S (engine_of hash_func s) s.storage_map k sm
        → Settled P (worker_of hash_func s) s.partition_map k pm
        → (j : Key) (e : ℕ) → S.get sm j ≡ some e
        → P.get pm j ≡ some (worker_of hash_func s j)
    paired-both k sm pm a b j e h = elim (Bool-cases (key_eq k j)) [
      | inl same ↦
          subst (λ j. P.get pm j ≡ some (worker_of hash_func s j)) ((key_eq_iff k j).0 same) b.here
      | inr other ↦ b.kept j (worker_of hash_func s j) (i.paired j e (sym (a.others j other) ∙ h))
    ]

    -- The state behind a write.
    pub record Written (k : Key) (v : Value) : Type 0 where
      pub storage_map : S.Store
      pub partition_map : P.Store
      pub queue : HardQueue
      pub there : get_elem? s.queues (worker_of hash_func s k) ≡ some queue
      pub storage : Settled S (engine_of hash_func s) s.storage_map k storage_map
      pub partition : Settled P (worker_of hash_func s) s.partition_map k partition_map

    abbrev pub written : (k : Key) (v : Value) → Written k v → HardThreaded B S P T
    written k v d = record s {
      storage_map = d.storage_map;
      partition_map = d.partition_map;
      queues =
          set s.queues (worker_of hash_func s k)
            (d.queue ++ hard_writes k v (engine_of hash_func s k) ∷ []);
      tracker = if s.enable_tracking then (T.update s.tracker k).0 else s.tracker;
    }

    pub write-Written :
        (k : Key) (v : Value)
        → (d : Written k v) × (write_impl hash_func s k v ≡ ok (written k v d, success))
    unfolding write_impl track
    write-Written k v =
        let (sm₁, found, es, settled₁, known) =
          get_or_insert-Settled S (engine_of hash_func s) s.storage_map i.storages k in
        let (pm, ep, parts) = partition_home k found known in
        let (sm, ec, settled) = current_home k sm₁ settled₁ in
        let (q, there) = home_queue k in
        let o = hard_writes k v (engine_of hash_func s k) in
        (
          record {
            storage_map = sm;
            partition_map = pm;
            queue = q;
            there = there;
            storage = settled;
            partition = parts;
          },
          rw (write_impl, at_home k, es, ep, ec, enqueue_home k q o there) refl,
        )

    -- A write waits there too.
    pub write_moves :
        (k : Key) (v : Value)
        → (t : HardThreaded B S P T) × (write_impl hash_func s k v ≡ ok (t, success))
          × HardMoves hash_func s (called (writes k v) ∷ []) t
    write_moves k v =
        let w = worker_of hash_func s k in
        let e = engine_of hash_func s k in
        let (d, returned) = write-Written k v in
        let tracker = if s.enable_tracking then (T.update s.tracker k).0 else s.tracker in
        (
          written k v d,
          returned,
          submit_moves hash_func s i w (hard_writes k v e) d.queue d.there (refl, refl)
              d.storage_map d.partition_map tracker s.next_id (writes k v) d.storage.homed
              d.partition.homed (paired-both k d.storage_map d.partition_map d.storage d.partition)
              (λ j g. (
                Settled-none S (engine_of hash_func s) s.storage_map k d.storage_map d.storage j g,
                rw (other_key d.storage_map k j e d.storage.here g) refl,
              ))
              (λ j. refl),
        )
