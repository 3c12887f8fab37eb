-- ===== src/SoftThreaded/Fences.antt =====
-- A repartitioning of the threaded soft store: the map changes behind a sync of all the workers.
use mathlib.Core.List.{append-nil}
use repart_kv.Common.{
  ℕ, ◌≡◌, refl, sym, ◌∙◌, Bool, false, none, [], ◌∷◌, ◌++◌, All, length, Bool-cases, inl, inr,
  All-append, ◌<◌, Option-cases, suc,
}
use repart_kv.Common.Result.{ok}
use repart_kv.Key.{Key}
use repart_kv.Storage.{Backend}
use repart_kv.KeyStorage.{KeyStorage}
use repart_kv.Tracking.{Tracking}
use repart_kv.Worker.{syncs, enqueue_all}
use repart_kv.Soft.Parts.{Put, put_parts_lem, placed_by-some, placed_by-InRange}
use repart_kv.SoftThreaded.{SoftThreaded, update_map, repartition_impl}
use repart_kv.SoftThreaded.Log.{Log, Good, on_key}
use repart_kv.SoftThreaded.Invariant.{Inv, Idle, Idle-Moves, Moves}
use repart_kv.SoftThreaded.Queues.{Parts-enqueue_all, length-enqueue_all}
use repart_kv.SoftThreaded.Submits.{Reaches}
use repart_kv.SoftThreaded.Log.Append.{on_key-append, Ordered-fence, Recent-fence}

module _ {B : Backend} {P : KeyStorage ℕ} {T : Tracking} where
  module _ (s : SoftThreaded B P T) (log : Log) (i : Inv s log) (tracker : T.State)
      (complete : length (T.get_metis_partitions tracker) ≡ length (T.get_idx_to_vertex tracker))
      (range : All (λ p. p < s.partition_count) (T.get_metis_partitions tracker)) (m : P.Store)
      (r : Put P (T.get_idx_to_vertex tracker) (T.get_metis_partitions tracker) s.key_map m) where
    still_absent : (k : Key) → P.get m k ≡ none → P.get s.key_map k ≡ none
    still_absent k h = elim (Option-cases (P.get s.key_map k)) [
      | inl miss ↦ miss
      | inr (p, hit) ↦
          let (q, e) =
            placed_by-some k (T.get_idx_to_vertex tracker) (T.get_metis_partitions tracker) p in
          let maps = r.maps k in absurd (cc)
    ]

    abbrev fenced : T.State → SoftThreaded B P T
    fenced after = record s {
      is_repartitioning = false;
      enable_tracking = false;
      key_map = m;
      tracker = after;
      queues = enqueue_all (syncs s.next_id s.partition_count) s.queues;
      next_id = suc s.next_id;
    }

    fenced-Moves :
        (after : T.State)
        → Moves s log [] (fenced after) (log ++ (none, syncs s.next_id s.partition_count) ∷ [])
    fenced-Moves after =
        let sync = syncs s.next_id s.partition_count in
        let no_keys : (k : Key) → on_key k (log ++ (none, sync) ∷ []) ≡ on_key k log =
          λ k. on_key-append k log ((none, sync) ∷ []) ∙ append-nil (on_key k log) in
        (
          record {
            nonempty = i.nonempty;
            sized = length-enqueue_all sync s.queues ∙ i.sized;
            valid = r.valid;
            mapped = λ k q e.
                placed_by-InRange s.partition_count k (T.get_idx_to_vertex tracker)
                  (T.get_metis_partitions tracker) (P.get s.key_map k) range (i.mapped k) q
                  (sym (r.maps k) ∙ e);
            parts = Parts-enqueue_all s.queues log s.next_id s.partition_count i.parts;
            good =
                All-append (Good s.partition_count) log ((none, sync) ∷ []) i.good
                  ((s.next_id, refl), tt);
            ordered = Ordered-fence sync log i.ordered;
            recent = Recent-fence sync (P.get m) log;
            absent = λ k h. let (v, on) = i.absent k (still_absent k h) in (v, no_keys k ∙ on);
            only_scans = i.only_scans;
          },
          λ k. record {
            in_order = append-nil (on_key k log) ∙ sym (no_keys k);
            results = refl;
            value = refl;
          },
        )

  module _ (s : SoftThreaded B P T) (log : Log) (i : Inv s log) where
    abbrev prepared : T.State × Bool
    prepared = T.prepare_for_partition_map_update s.tracker s.partition_count

    abbrev given_up : SoftThreaded B P T
    given_up = record s { is_repartitioning = false; enable_tracking = false; tracker = prepared.0 }

    given_up-Idle : Idle s given_up log
    given_up-Idle = record {
      values = λ k. refl;
      key_map = refl;
      count = refl;
      sized = refl;
      parts = i.parts;
      only_scans = i.only_scans;
    }

    -- A repartitioning returns, whether or not METIS finds a partitioning.
    pub repartition_moves :
        (t : SoftThreaded B P T) × (repartition_impl s ≡ ok t) × Reaches s log [] t
    unfolding repartition_impl update_map
    repartition_moves = elim (Bool-cases prepared.1) [
      | inr failed ↦ (
        given_up,
        rw (repartition_impl, failed) refl,
        (log, Idle-Moves s given_up log i given_up-Idle),
      )
      | inl found ↦
          let complete = T.partitions-length s.tracker s.partition_count found in
          let range = T.partitions-InRange s.tracker s.partition_count found in
          let (m, e, r) =
            put_parts_lem P (T.get_idx_to_vertex prepared.0) (T.get_metis_partitions prepared.0)
              s.key_map i.valid complete in
          let after = T.lock_and_clear_graph prepared.0 in
          (
            fenced s log i prepared.0 complete range m r after,
            rw (repartition_impl, found, e) refl,
            (
              log ++ (none, syncs s.next_id s.partition_count) ∷ [],
              fenced-Moves s log i prepared.0 complete range m r after,
            ),
          )
    ]
