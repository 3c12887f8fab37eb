-- ===== src/Hard/Moves.antt =====
-- Repartitioning moves the values of keys between the engines and changes no key's value.
use repart_kv.Common.{
  ℕ, ◌<◌, ◌≡◌, refl, sym, ap, ◌∙◌, subst, ◌≢◌, inl, inr, false, Option, none, some, List, [], ◌∷◌,
  arith, ◌==◌, if◌then◌else◌, Bool-cases, length, get_elem?, set, length-set, lt-get_elem?,
  get_elem?-set,
}
use repart_kv.Common.Result.{ok}
use repart_kv.Key.{Key, Value, key_eq}
use repart_kv.Key.Laws.{key_eq_refl, key_eq_iff}
use repart_kv.Storage.{Backend, StorageEngine, Status, pending, success, not_found, error, found_or}
use repart_kv.Storage.Laws.{held, read_result, held-read, held-write, held-remove}
use repart_kv.KeyStorage.{KeyStorage, get-put}
use repart_kv.Locks.{key_map, exclusive, lock, unlock}
use repart_kv.Tracking.{Tracking}
use repart_kv.Hard.{Hard, move}
use repart_kv.Hard.Invariant.{at_engine, at_partition, view, Inv}
use repart_kv.Hard.Writes.{at_engine-set}
use repart_kv.Storage

module _ {B : Backend} {P : KeyStorage ℕ} {T : Tracking} where
  -- The state behind a move from the engine `e` of the partition `p` to `f` of `next`.
  abbrev pub moved_storages :
      Hard B P T → ℕ → ℕ → StorageEngine B → StorageEngine B → Key → List (StorageEngine B)
  moved_storages s p next e f key =
      let source = Storage.read e key [] in
      set (set (set s.storages p source.0) next (Storage.write f key source.2).0) p
        (Storage.remove source.0 key source.2).0

  abbrev pub after_move : Hard B P T → ℕ → ℕ → StorageEngine B → StorageEngine B → Key → Hard B P T
  after_move s p next e f key = record s {
    held = [];
    storage_map = P.put s.storage_map key next;
    storages = moved_storages s p next e f key;
  }

  pub move_lem :
      (s : Hard B P T) (p next : ℕ) (e f : StorageEngine B) (key : Key)
      → p < s.partition_count
      → next < s.partition_count
      → p ≢ next
      → get_elem? s.storages p ≡ some e
      → get_elem? s.storages next ≡ some f
      → move s p next (exclusive key_map ∷ []) key ≡ ok (after_move s p next e f key)
  unfolding move lock unlock
  move_lem s p next e f key hp hn ne he hf =
      let source = Storage.read e key [] in
      let first = set s.storages p source.0 in
      let size₀ = lt-get_elem? s.storages p e he in
      let size₁ = lt-get_elem? s.storages next f hf in
      ground (
        arith,
        length-set s.storages p source.0,
        get_elem?-set s.storages p next source.0,
        get_elem?-set s.storages p p source.0,
        get_elem?-set first next p (Storage.write f key source.2).0,
      )

  module _ (s : Hard B P T) (p next : ℕ) (e f : StorageEngine B) (key : Key) (i : Inv s)
      (hit : P.get s.storage_map key ≡ some p) (hn : next < s.partition_count) (ne : p ≢ next)
      (he : get_elem? s.storages p ≡ some e) (hf : get_elem? s.storages next ≡ some f) where
    -- The value that is read from the source is that of the key.
    value_moved : held key e ≡ some (Storage.read e key []).2
    value_moved =
        let (v, hv) = i.stored key p hit in
        let here : held key e ≡ some v = ap (at_engine key) (sym he) ∙ hv in
        here
        ∙ ap some
            (sym (ap (λ (r : Status × Value). r.1) (read_result e key [] ∙ ap (found_or []) here)))

    engines_after :
        (k : Key) (q : ℕ)
        → at_engine k (get_elem? (after_move s p next e f key).storages q) ≡ (
            if p == q
            then (if key_eq key k then none else at_engine k (get_elem? s.storages q))
            else if next == q
            then (if key_eq key k then held key e else at_engine k (get_elem? s.storages q))
            else at_engine k (get_elem? s.storages q))
    engines_after k q =
        let source = Storage.read e key [] in
        let first = set s.storages p source.0 in
        let target = (Storage.write f key source.2).0 in
        let second = set first next target in
        let size₀ = lt-get_elem? s.storages p e he in
        let size₁ = lt-get_elem? s.storages next f hf in
        let in_first : length first ≡ length s.storages = length-set s.storages p source.0 in
        let in_second : length second ≡ length first = length-set first next target in
        at_engine-set k second p q (Storage.remove source.0 key source.2).0 (omega arith)
        ∙ ground (
          arith,
          value_moved,
          held-remove source.0 key k source.2,
          held-read e key k [],
          held-write f key k source.2,
          at_engine-set k first next q target (omega arith),
          at_engine-set k s.storages p q source.0 size₀,
        )

    pub maps_after :
        (k : Key)
        → P.get (after_move s p next e f key).storage_map k
          ≡ (if key_eq key k then some next else P.get s.storage_map k)
    maps_after k = get-put P s.storage_map key k next

    -- A key's value is in its new partition, and nowhere else.
    pub view_after : (k : Key) → view (after_move s p next e f key) k ≡ view s k
    view_after k = elim (Bool-cases (key_eq key k)) [
      | inl same ↦
          subst (λ j. view (after_move s p next e f key) j ≡ view s j) ((key_eq_iff key k).0 same)
            at_key
      | inr other ↦ rw (maps_after k, other) (unchanged other (P.get s.storage_map k))
    ]
      where
        at_key : view (after_move s p next e f key) key ≡ view s key
        at_key =
            rw (maps_after key, key_eq_refl key, hit, he)
              (engines_after key next ∙ ground (arith, key_eq_refl key))

        unchanged :
            key_eq key k ≡ false
            → (o : Option ℕ) → at_partition (after_move s p next e f key) k o ≡ at_partition s k o
        unchanged other none = refl
        unchanged other (some q) = engines_after k q ∙ ground arith

    stored_after :
        (k : Key) (q : ℕ)
        → P.get (after_move s p next e f key).storage_map k ≡ some q
        → (v : Value) × (at_engine k (get_elem? (after_move s p next e f key).storages q) ≡ some v)
    stored_after k q h = elim (Bool-cases (key_eq key k)) [
      | inl same ↦
          ((Storage.read e key []).2, engines_after k q ∙ ground (arith, maps_after k, value_moved))
      | inr other ↦
          let (v, ev) = i.stored k q (ground (arith, maps_after k)) in
          (v, engines_after k q ∙ ground arith)
    ]

    pub Inv-after : Inv (after_move s p next e f key)
    Inv-after = record {
      released = refl;
      nonempty = i.nonempty;
      sized = length-set _ p _ ∙ length-set _ next _ ∙ length-set s.storages p _ ∙ i.sized;
      valid = P.put-IsValid s.storage_map key next i.valid;
      mapped = λ k q h. ground (arith, maps_after k, i.mapped k q);
      stored = stored_after;
      placed = λ k q v h.
          ground (arith, maps_after k, engines_after k q, i.placed k q v, key_eq_iff key k);
    }
