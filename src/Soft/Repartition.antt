-- ===== src/Soft/Repartition.antt =====
-- A repartitioning of the soft store changes the map from keys to partitions, and no value.
use repart_kv.Common.{
  ℕ, ◌<◌, ◌≡◌, refl, ap, ◌∙◌, inl, inr, true, false, [], ◌∷◌, if◌then◌else◌, Bool-cases, sym, All,
  length,
}
use repart_kv.Common.Result.{ok, Returns, Returns-bind}
use repart_kv.Key.{Key}
use repart_kv.Storage.{Backend}
use repart_kv.KeyStorage.{KeyStorage}
use repart_kv.Locks.{key_map, exclusive, lock, unlock_head}
use repart_kv.Tracking.{Tracking}
use repart_kv.Tracker.{put_parts}
use repart_kv.Soft.{Soft, update_map, repartition_impl}
use repart_kv.Soft.Access.{Inv, Keeps}
use repart_kv.Soft.Parts.{
  lock_all_lem, unlock_all_lem, placed_by, placed_by-InRange, placed_by-some, Put, put_parts_lem,
}

module _ {B : Backend} {P : KeyStorage ℕ} {T : Tracking} where
  -- The mapping of `t` is that of `s`, with the parts of the tracker put into it.
  abbrev pub Remapped : Soft B P T → T.State → Soft B P T → Type 0
  Remapped s r t =
      (k : Key)
      → P.get t.partition_map k
        ≡ placed_by k (T.get_idx_to_vertex r) (T.get_metis_partitions r) (P.get s.partition_map k)

  module _ (s : Soft B P T) (i : Inv s)
      (complete : length (T.get_metis_partitions s.tracker)
        ≡ length (T.get_idx_to_vertex s.tracker))
      (range : All (λ p. p < s.partition_count) (T.get_metis_partitions s.tracker)) where
    abbrev after_update : P.Store → Soft B P T
    after_update m = record s {
      held = [];
      partition_map = m;
      tracker = T.lock_and_clear_graph s.tracker;
    }

    after_update-Inv :
        (m : P.Store)
        → Put P (T.get_idx_to_vertex s.tracker) (T.get_metis_partitions s.tracker) s.partition_map m
        → Inv (after_update m)
    after_update-Inv m r = record {
      released = refl;
      nonempty = i.nonempty;
      valid = r.valid;
      mapped = λ k q e.
          placed_by-InRange s.partition_count k (T.get_idx_to_vertex s.tracker)
            (T.get_metis_partitions s.tracker) (P.get s.partition_map k) range (i.mapped k) q
            (sym (r.maps k) ∙ e);
      placed = λ k v h.
          let (p, hp) = i.placed k v h in
          let (q, e) =
            placed_by-some k (T.get_idx_to_vertex s.tracker) (T.get_metis_partitions s.tracker) p in
          (
            q,
            r.maps k
                ∙ ap
                    (placed_by k (T.get_idx_to_vertex s.tracker) (T.get_metis_partitions s.tracker))
                    hp
                ∙ e,
          );
    }

    updated :
        (m : P.Store)
        → put_parts P
            (T.get_idx_to_vertex s.tracker)
            (T.get_metis_partitions s.tracker)
            s.partition_map
          ≡ ok m
        → update_map s ≡ ok (after_update m)
    unfolding update_map lock
    updated m e = rw (
      i.released,
      lock_all_lem s.partition_count 0 (exclusive key_map ∷ []) (λ j le. refl),
      e,
      unlock_all_lem s.partition_count 0,
      unlock_head key_map [],
    )

    update_map_lem : Returns (update_map s) λ t. Keeps s t × Remapped s s.tracker t
    update_map_lem =
        let (m, e, r) =
          put_parts_lem P (T.get_idx_to_vertex s.tracker) (T.get_metis_partitions s.tracker)
            s.partition_map i.valid complete in
        rw (updated m e)
          (record { inv = after_update-Inv m r; values = λ k. refl; count = refl }, r.maps)

  abbrev started : Soft B P T → Soft B P T
  started s = record s {
    is_repartitioning = true;
    enable_tracking = false;
    tracker = (T.prepare_for_partition_map_update s.tracker s.partition_count).0;
  }

  started-Inv : (s : Soft B P T) → Inv s → Inv (started s)
  started-Inv s i = record {
    released = i.released;
    nonempty = i.nonempty;
    valid = i.valid;
    mapped = i.mapped;
    placed = i.placed;
  }

  finished-Inv : (s : Soft B P T) → Inv s → Inv (record s { is_repartitioning = false })
  finished-Inv s i = record {
    released = i.released;
    nonempty = i.nonempty;
    valid = i.valid;
    mapped = i.mapped;
    placed = i.placed;
  }

  -- Whether or not METIS finds a partitioning, a repartitioning of the soft store under the
  -- invariant returns, keeps the invariant and leaves the value of every key as it was. If it finds
  -- one, the map then has the keys of the result in the partitions that it gives, and every other
  -- key where it was; if not, the map is as it was.
  pub repartition_impl-Keeps :
      (s : Soft B P T)
      → Inv s
      → Returns (repartition_impl s) λ t.
        Keeps s t
        × ((k : Key)
            → let prepared = T.prepare_for_partition_map_update s.tracker s.partition_count in
              P.get t.partition_map k ≡ (
                if prepared.1
                then placed_by k
                    (T.get_idx_to_vertex prepared.0)
                    (T.get_metis_partitions prepared.0)
                    (P.get s.partition_map k)
                else P.get s.partition_map k))
  unfolding repartition_impl
  repartition_impl-Keeps s i =
      elim (Bool-cases (T.prepare_for_partition_map_update s.tracker s.partition_count).1) [
        | inr failed ↦ rw failed (
          record {
            inv = finished-Inv (started s) (started-Inv s i);
            values = λ k. refl;
            count = refl;
          },
          λ k. refl,
        )
        | inl found ↦ rw found (
            Returns-bind (update_map (started s)) _ _ _
              (update_map_lem (started s) (started-Inv s i)
                (T.partitions-length s.tracker s.partition_count found)
                (T.partitions-InRange s.tracker s.partition_count found))
              λ t h. (
                record { inv = finished-Inv t h.0.inv; values = h.0.values; count = h.0.count },
                h.1,
              ))
      ]
