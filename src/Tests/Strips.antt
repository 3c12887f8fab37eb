-- ===== src/Tests/Strips.antt =====
-- The theorems on the lock-stripping store at a new store of two partitions.
use repart_kv.Common.{ℕ, ◌≡◌, ◌≤◌, refl, some, [], ◌∷◌, arith, if◌then◌else◌, length, All, false}
use repart_kv.Common.Result.{Result, ok, err, Returns, ◌>>=◌}
use repart_kv.Key.{Key, key_eq, key_lt}
use repart_kv.Storage.{success, found_or}
use repart_kv.Storage.Map.Laws.{map_storage_engine}
use repart_kv.Stripped.{Stripped, create, engines, read_impl, write_impl, scan_impl, found_status}
use repart_kv.Stripped.Access.{Inv, view, read_impl-Returns, write_impl-Returns}
use repart_kv.Stripped.Engines.{create-Kept, write_impl-Kept}
use repart_kv.Stripped.History.{latest, write_each, read-write_each}
use repart_kv.SortedMap.{IsSorted}
use repart_kv.Stripped.Smallest.{Kept, Reports, scan_impl-Smallest}

abbrev key : ℕ → Key
key n = n ∷ []

abbrev hash : Key → ℕ
hash = length

abbrev new_store : Stripped map_storage_engine
new_store = create 2 []

new_store-Inv : Inv hash new_store
unfolding create engines
new_store-Inv = record { released = refl; nonempty = omega arith; sized = refl }

read_impl-Returns_example : Returns (read_impl hash new_store (key 1) (key 5)) λ r.
    ((r.1, r.2) ≡ found_or (key 5) (view hash new_store (key 1)))
    × Inv hash r.0
    × ((k : Key) → view hash r.0 k ≡ view hash new_store k)
    × (r.0.partition_count ≡ new_store.partition_count)
read_impl-Returns_example = read_impl-Returns hash new_store (key 1) (key 5) new_store-Inv

write_impl-Returns_example : Returns (write_impl hash new_store (key 1) (key 4)) λ r.
    (r.1 ≡ success)
    × Inv hash r.0
    × ((k : Key)
        → view hash r.0 k ≡ (if key_eq (key 1) k then some (key 4) else view hash new_store k))
    × (r.0.partition_count ≡ new_store.partition_count)
write_impl-Returns_example = write_impl-Returns hash new_store (key 1) (key 4) new_store-Inv

new_store-Kept : Kept hash new_store
new_store-Kept = (create-Kept hash 2 [] (omega arith)).1

write_impl-Kept_example : Returns (write_impl hash new_store (key 1) (key 4)) λ r. Kept hash r.0
write_impl-Kept_example =
    write_impl-Kept hash new_store (key 1) (key 4) new_store-Inv new_store-Kept

abbrev result : {A : Type 0} (m : Result A) (Q : A → Type 0) → Returns m Q → A
result (ok a) Q h = a
result (err e) Q h = absurd h

result-Returns :
    {A : Type 0} (m : Result A) (Q R : A → Type 0) (h : Returns m Q)
    → Returns m R
    → R (result m Q h)
result-Returns (ok a) Q R h r = r
result-Returns (err e) Q R h r = absurd h

-- The new store after the write of a key.
abbrev stored : Stripped map_storage_engine
stored = (result (write_impl hash new_store (key 1) (key 4)) _ write_impl-Returns_example).0

stored-Inv : Inv hash stored
stored-Inv =
    (result-Returns (write_impl hash new_store (key 1) (key 4)) _ _ write_impl-Returns_example
      write_impl-Returns_example).1

stored-Kept : Kept hash stored
stored-Kept =
    result-Returns (write_impl hash new_store (key 1) (key 4)) _ _ write_impl-Returns_example
      write_impl-Kept_example

scan_impl-Smallest_example : Returns (scan_impl stored (key 0) 3 []) λ r.
    IsSorted r.2
    × All (λ d. (key_lt d.0 (key 0) ≡ false) × (view hash stored d.0 ≡ some d.1)) r.2
    × ((k : Key) → Reports (key 0) 3 r.2 k (view hash stored k))
    × (length r.2 ≤ 3)
    × (r.1 ≡ found_status r.2)
    × Inv hash r.0
    × ((k : Key) → view hash r.0 k ≡ view hash stored k)
scan_impl-Smallest_example = scan_impl-Smallest hash stored (key 0) 3 stored-Inv stored-Kept []

read-write_each_example :
    Returns
      (write_each hash new_store ((key 1, key 4) ∷ (key 3, key 5) ∷ (key 1, key 6) ∷ []) >>= λ t.
        read_impl hash t (key 1) [])
      λ r.
        ((r.1, r.2)
          ≡ found_or [] (
              latest
                (key 1)
                ((key 1, key 4) ∷ (key 3, key 5) ∷ (key 1, key 6) ∷ [])
                (view hash new_store (key 1))))
        × Inv hash r.0
read-write_each_example =
    read-write_each hash new_store ((key 1, key 4) ∷ (key 3, key 5) ∷ (key 1, key 6) ∷ []) (key 1)
      [] new_store-Inv
