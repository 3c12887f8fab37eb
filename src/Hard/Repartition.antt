-- ===== src/Hard/Repartition.antt =====
-- Repartitioning changes the partitions of keys to those that METIS chose, and no value.
use repart_kv.Common.{
  ℕ, ◌<◌, ◌≡◌, refl, sym, ap, ◌∙◌, subst, ◌≢◌, inl, inr, Bool, true, false, Option, none, some,
  List, [], ◌∷◌, arith, if◌then◌else◌, Bool-cases, Option-cases, length, All, get_elem?-lt,
}
use repart_kv.Common.Result.{ok, Returns, Returns-bind, Returns-weaken}
use repart_kv.Key.{Key, key_eq}
use repart_kv.Key.Laws.{key_eq_iff}
use repart_kv.Storage.{Backend}
use repart_kv.KeyStorage.{KeyStorage}
use repart_kv.Locks.{key_map, exclusive, lock, unlock}
use repart_kv.Tracking.{Tracking}
use repart_kv.Hard.{Hard, move, reassign, reassign_all, update_storage_map, repartition_impl}
use repart_kv.Hard.Invariant.{
  released-Agrees, view, Inv, Agrees, Agrees-view, Agrees-Inv, engine_of,
}
use native.Mathlib.Decide.{ℕ_discrete}
use repart_kv.Hard.Moves.{move_lem, view_after, Inv-after, maps_after}

-- Where a key is after the rounds of `update_storage_map`, if `o` is where it was before them:
-- only a mapped key is moved.
abbrev pub remap : ℕ → Option ℕ → Option ℕ
remap next none = none
remap next (some p) = some next

abbrev pub assigned : Key → List ℕ → List Key → Option ℕ → Option ℕ
assigned k [] names o = o
assigned k (p ∷ ps) [] o = o
assigned k (p ∷ ps) (key ∷ names) o = assigned k ps names (if key_eq key k then remap p o else o)

module _ {B : Backend} {P : KeyStorage ℕ} {T : Tracking} where
  -- The values, the number of partitions and the tracker are as they were.
  pub record Keeps (s t : Hard B P T) : Type 0 where
    pub inv : Inv t
    pub view_same : (k : Key) → view t k ≡ view s k
    pub count : t.partition_count ≡ s.partition_count
    pub tracker_same : t.tracker ≡ s.tracker

  abbrev Reassigned : ℕ → Key → Hard B P T → Hard B P T → Type 0
  Reassigned next key s t =
      Keeps s t
      × ((k : Key)
          → P.get t.storage_map k
            ≡ (if key_eq key k then remap next (P.get s.storage_map k) else P.get s.storage_map k))

  untouched : (s : Hard B P T) → Inv s → Keeps s (record s { held = [] })
  untouched s i = record {
    inv = Agrees-Inv (released-Agrees s) i;
    view_same = λ k. refl;
    count = refl;
    tracker_same = refl;
  }

  reassign_unmapped :
      (s : Hard B P T) (next : ℕ) (key : Key)
      → s.held ≡ []
      → P.get s.storage_map key ≡ none
      → reassign s next key ≡ ok (record s { held = [] })
  unfolding reassign lock unlock
  reassign_unmapped s next key free miss = ground arith

  reassign_in_place :
      (s : Hard B P T) (next : ℕ) (key : Key)
      → s.held ≡ []
      → P.get s.storage_map key ≡ some next
      → reassign s next key ≡ ok (record s { held = [] })
  unfolding reassign lock unlock
  reassign_in_place s next key free hit = ground arith

  reassign_elsewhere :
      (s : Hard B P T) (p next : ℕ) (key : Key)
      → s.held ≡ []
      → P.get s.storage_map key ≡ some p
      → p ≢ next
      → reassign s next key ≡ move s p next (exclusive key_map ∷ []) key
  unfolding reassign lock
  reassign_elsewhere s p next key free hit ne = ground arith

  reassign_lem :
      (s : Hard B P T) (next : ℕ) (key : Key)
      → Inv s
      → next < s.partition_count
      → Returns (reassign s next key) (Reassigned next key s)
  reassign_lem s next key i hn = elim (Option-cases (P.get s.storage_map key)) [
    | inl miss ↦
        rw (reassign_unmapped s next key i.released miss)
          (untouched s i, λ k. ground (arith, key_eq_iff key k))
    | inr (p, hit) ↦ elim (ℕ_discrete p next) [
      | yes there ↦
          rw (reassign_in_place s next key i.released (hit ∙ ap some there))
            (untouched s i, λ k. ground (arith, key_eq_iff key k))
      | no ne ↦
          let (e, he) = engine_of s i key p hit in
          let (f, hf) = get_elem?-lt s.storages next (omega (arith, i.sized)) in
          rw
            (
              reassign_elsewhere s p next key i.released hit ne,
              move_lem s p next e f key (i.mapped key p hit) hn ne he hf,
            )
            (
              record {
                inv = Inv-after s p next e f key i hit hn ne he hf;
                view_same = view_after s p next e f key i hit hn ne he hf;
                count = refl;
                tracker_same = refl;
              },
              λ k.
                  maps_after s p next e f key i hit hn ne he hf k
                  ∙ ground (arith, key_eq_iff key k),
            )
    ]
  ]

  abbrev AllReassigned : List ℕ → List Key → Hard B P T → Hard B P T → Type 0
  AllReassigned ps names s t =
      Keeps s t × ((k : Key) → P.get t.storage_map k ≡ assigned k ps names (P.get s.storage_map k))

  reassign_all_lem :
      (ps : List ℕ) (names : List Key) (s : Hard B P T)
      → Inv s
      → length ps ≡ length names
      → All (λ p. p < s.partition_count) ps
      → Returns (reassign_all ps names s) (AllReassigned ps names s)
  unfolding reassign_all
  reassign_all_lem [] names s i l h =
      (record { inv = i; view_same = λ k. refl; count = refl; tracker_same = refl }, λ k. refl)
  reassign_all_lem (p ∷ ps) [] s i l h = absurd (omega arith)
  reassign_all_lem (p ∷ ps) (key ∷ names) s i l h =
      Returns-bind (reassign s p key) (reassign_all ps names) (Reassigned p key s) _
        (reassign_lem s p key i h.0)
        λ a r.
          Returns-weaken (reassign_all ps names a) (AllReassigned ps names a) _
            (reassign_all_lem ps names a r.0.inv (omega arith)
              (subst (λ n. All (λ q. q < n) ps) (sym r.0.count) h.1))
            λ t w. (
              record {
                inv = w.0.inv;
                view_same = λ k. w.0.view_same k ∙ r.0.view_same k;
                count = w.0.count ∙ r.0.count;
                tracker_same = w.0.tracker_same ∙ r.0.tracker_same;
              },
              λ k. w.1 k ∙ ap (assigned k ps names) (r.1 k),
            )

  flags-Agrees :
      (s : Hard B P T) (b : Bool) (t : T.State)
      → s.held ≡ []
      → Agrees s (record s { is_repartitioning = b; tracker = t })
  flags-Agrees s b t free = record {
    released = free;
    count = refl;
    sized = refl;
    maps = λ k. refl;
    valid = λ v. v;
    engines = λ k p. refl;
  }

  abbrev Repartitioned : (Key → Option ℕ) → Hard B P T → Hard B P T → Type 0
  Repartitioned maps s t =
      Inv t
      × ((k : Key) → view t k ≡ view s k)
      × (t.partition_count ≡ s.partition_count)
      × ((k : Key) → P.get t.storage_map k ≡ maps k)

  update_storage_map_lem :
      (s : Hard B P T)
      → Inv s
      → length (T.get_metis_partitions s.tracker) ≡ length (T.get_idx_to_vertex s.tracker)
      → All (λ p. p < s.partition_count) (T.get_metis_partitions s.tracker)
      → Returns (update_storage_map s) (
          Repartitioned
            (λ k.
              assigned k
                (T.get_metis_partitions s.tracker)
                (T.get_idx_to_vertex s.tracker)
                (P.get s.storage_map k))
            s)
  unfolding update_storage_map
  update_storage_map_lem s i l h =
      let ps = T.get_metis_partitions s.tracker in
      let names = T.get_idx_to_vertex s.tracker in
      Returns-bind (reassign_all ps names s) _ (AllReassigned ps names s) _
        (reassign_all_lem ps names s i l h)
        λ t w.
          let a =
            flags-Agrees t t.is_repartitioning (T.lock_and_clear_graph t.tracker)
              w.0.inv.released in
          (Agrees-Inv a w.0.inv, λ k. Agrees-view a k ∙ w.0.view_same k, w.0.count, w.1)

  -- Whether or not METIS finds a partitioning, a repartitioning returns, keeps the invariant and
  -- leaves the value of every key as it was. If it finds one, each key is then in the partition
  -- that the result gives it, provided that it was mapped before.
  pub repartition-view :
      (s : Hard B P T)
      → Inv s
      → Returns (repartition_impl s) λ t.
        Inv t
        × ((k : Key) → view t k ≡ view s k)
        × (t.partition_count ≡ s.partition_count)
        × ((k : Key)
            → let prepared = T.prepare_for_partition_map_update s.tracker s.partition_count in
              P.get t.storage_map k ≡ (
                if prepared.1
                then assigned k
                    (T.get_metis_partitions prepared.0)
                    (T.get_idx_to_vertex prepared.0)
                    (P.get s.storage_map k)
                else P.get s.storage_map k))
  unfolding repartition_impl
  repartition-view s i =
      let (t, b) = T.prepare_for_partition_map_update s.tracker s.partition_count in
      let a = flags-Agrees s true t i.released in
      elim (Bool-cases (T.prepare_for_partition_map_update s.tracker s.partition_count).1) [
        | inl found ↦ rw found (
            Returns-bind (update_storage_map (record s { is_repartitioning = true; tracker = t })) _
              (Repartitioned
                (λ k.
                  assigned k (T.get_metis_partitions t) (T.get_idx_to_vertex t)
                    (P.get s.storage_map k))
                s)
              _
              (update_storage_map_lem (record s { is_repartitioning = true; tracker = t })
                (Agrees-Inv a i) (T.partitions-length s.tracker s.partition_count found)
                (T.partitions-InRange s.tracker s.partition_count found))
              λ u w.
                let c = flags-Agrees u false u.tracker w.0.released in
                (Agrees-Inv c w.0, λ k. Agrees-view c k ∙ w.1 k, w.2, w.3))
        | inr missed ↦ rw missed (
            let c = flags-Agrees s false t i.released in
            (Agrees-Inv c i, Agrees-view c, refl, λ k. refl))
      ]
