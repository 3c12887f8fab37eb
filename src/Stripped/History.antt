-- ===== src/Stripped/History.antt =====
-- Writes of the lock-stripping store in sequence, and a read behind them.
use repart_kv.Common.{ℕ, ◌≡◌, refl, ap, ◌∙◌, Option, some, List, [], ◌∷◌, if◌then◌else◌}
use repart_kv.Common.Result.{Result, ok, ◌>>=◌, Returns, Returns-bind, Returns-weaken}
use repart_kv.Key.{Key, Value, key_eq}
use repart_kv.Storage.{Backend, found_or}
use repart_kv.Stripped.{Stripped, read_impl, write_impl}
use repart_kv.Stripped.Access.{Inv, view, read_impl-Returns, write_impl-Returns}

-- The value of a key after the writes, from the one that it had.
abbrev pub latest : Key → List (Key × Value) → Option Value → Option Value
latest k [] old = old
latest k (e ∷ es) old = latest k es (if key_eq e.0 k then some e.1 else old)

module _ {B : Backend} (hash_func : Key → ℕ) where
  abbrev pub write_each : Stripped B → List (Key × Value) → Result (Stripped B)
  write_each s [] = ok s
  write_each s (e ∷ es) = do (t, status) ← write_impl hash_func s e.0 e.1; write_each t es

  write_each-view :
      (s : Stripped B) (es : List (Key × Value))
      → Inv hash_func s
      → Returns
          (write_each s es)
          λ t. Inv hash_func t × ((k : Key) → view hash_func t k ≡ latest k es (view hash_func s k))
  write_each-view s [] i = (i, λ k. refl)
  write_each-view s (e ∷ es) i =
      Returns-bind (write_impl hash_func s e.0 e.1) (λ r. write_each r.0 es) _ _
        (write_impl-Returns hash_func s e.0 e.1 i)
        (λ r h.
          let (status, inv, values, count) = h in
          Returns-weaken (write_each r.0 es) _ _ (write_each-view r.0 es inv)
            (λ t k. (k.0, λ j. k.1 j ∙ ap (latest j es) (values j))))

  -- With an engine for each partition, any writes of the lock-stripping store one after the other
  -- return, and so does a read behind them: with the value of the last write of its key, with the
  -- value from before where there is none, and with `not_found` where it has no value.
  pub read-write_each :
      (s : Stripped B) (es : List (Key × Value)) (key : Key) (old : Value)
      → Inv hash_func s
      → Returns (write_each s es >>= λ t. read_impl hash_func t key old) λ r.
        ((r.1, r.2) ≡ found_or old (latest key es (view hash_func s key))) × Inv hash_func r.0
  read-write_each s es key old i =
      Returns-bind (write_each s es) (λ t. read_impl hash_func t key old) _ _
        (write_each-view s es i)
        (λ t h.
          let (inv, values) = h in
          Returns-weaken (read_impl hash_func t key old) _ _
            (read_impl-Returns hash_func t key old inv)
            (λ r k.
              let (found, after, values_after, count) = k in
              (found ∙ ap (found_or old) (values key), after)))
