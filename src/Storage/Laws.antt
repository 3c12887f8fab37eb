-- ===== src/Storage/Laws.antt =====
-- The operations of the base class in terms of the engine's contents.
use repart_kv.Common.{◌≡◌, refl, Option, none, some, if◌then◌else◌}
use repart_kv.Key.{Key, Value, key_eq}
use repart_kv.SortedMap.{lookup}
use repart_kv.SortedMap.Laws.{lookup-insert, lookup-erase}
use repart_kv.Storage.{Backend, StorageEngine, found_or, success, read, write, remove, contents}

module _ {B : Backend} where
  -- what the engine holds under a key
  abbrev pub held : Key → StorageEngine B → Option Value
  held k e = lookup k (contents e)

  pub read_result :
      (e : StorageEngine B) (k : Key) (old : Value)
      → ((read e k old).1, (read e k old).2) ≡ found_or old (held k e)
  unfolding read
  read_result e k old = B.read_impl_lem e.store k old

  pub held-read :
      (e : StorageEngine B) (k j : Key) (old : Value) → held j (read e k old).0 ≡ held j e
  unfolding read
  held-read e k j old = refl

  pub held-write :
      (e : StorageEngine B) (k j : Key) (v : Value)
      → held j (write e k v).0 ≡ (if key_eq k j then some v else held j e)
  unfolding write
  held-write e k j v = rw (B.contents-write_impl e.store k v) (lookup-insert k j v (contents e))

  pub write-status : (e : StorageEngine B) (k : Key) (v : Value) → (write e k v).1 ≡ success
  unfolding write
  write-status e k v = B.write_impl-status e.store k v

  pub held-remove :
      (e : StorageEngine B) (k j : Key) (old : Value)
      → held j (remove e k old).0 ≡ (if key_eq k j then none else held j e)
  unfolding remove
  held-remove e k j old = rw (B.contents-remove_impl e.store k old) (lookup-erase k j (contents e))
