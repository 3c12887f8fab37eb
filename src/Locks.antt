-- ===== src/Locks.antt =====
-- The mutexes that one thread of a partitioned store takes (`key_map_lock_` and the vector
-- `partition_locks_`, all `std::shared_mutex`): what the thread holds, oldest first.
use repart_kv.Common.{
  ℕ, ◌≡◌, refl, Bool, true, false, List, [], ◌∷◌, ◌++◌, ◌||◌, ◌==◌, ltb, if◌then◌else◌, arith,
}
use repart_kv.Common.Result.{Result, ok, err, not_owned, self_deadlock, bad_index}

pub data Lock : Type 0 where
  key_map : Lock
  partition : ℕ → Lock

pub data Hold : Type 0 where
  shared exclusive : Lock → Hold

unfoldable pub same_lock : Lock → Lock → Bool
same_lock key_map key_map = true
same_lock (partition p) (partition q) = p == q
same_lock _ _ = false

unfoldable pub is_held : Lock → List Hold → Bool
unfolding same_lock
is_held l [] = false
is_held l (shared m ∷ hs) = same_lock l m || is_held l hs
is_held l (exclusive m ∷ hs) = same_lock l m || is_held l hs

-- A thread that holds a `shared_mutex` in any mode must not lock it.
unfoldable pub lock : Lock → List Hold → Result (List Hold)
unfolding is_held
lock l hs = if is_held l hs then err self_deadlock else ok (hs ++ exclusive l ∷ [])

unfoldable pub lock_shared : Lock → List Hold → Result (List Hold)
unfolding is_held
lock_shared l hs = if is_held l hs then err self_deadlock else ok (hs ++ shared l ∷ [])

abbrev keep : Hold → Result (List Hold) → Result (List Hold)
keep h (ok hs) = ok (h ∷ hs)
keep h (err e) = err e

-- A release in a mode in which the thread does not own the mutex is undefined.
unfoldable pub unlock : Lock → List Hold → Result (List Hold)
unfolding same_lock
unlock l [] = err not_owned
unlock l (exclusive m ∷ hs) =
    let rest = unlock l hs in if same_lock l m then ok hs else keep (exclusive m) rest
unlock l (shared m ∷ hs) = keep (shared m) (unlock l hs)

unfoldable pub unlock_shared : Lock → List Hold → Result (List Hold)
unfolding same_lock
unlock_shared l [] = err not_owned
unlock_shared l (shared m ∷ hs) =
    let rest = unlock_shared l hs in if same_lock l m then ok hs else keep (shared m) rest
unlock_shared l (exclusive m ∷ hs) = keep (exclusive m) (unlock_shared l hs)

-- `partition_locks_[p]->…`, for a vector of `n` mutexes
abbrev pub within : ℕ → ℕ → Result (List Hold) → Result (List Hold)
within n p r = if ltb p n then r else err bad_index

pub unlock_shared_head : (l : Lock) (hs : List Hold) → unlock_shared l (shared l ∷ hs) ≡ ok hs
unfolding unlock_shared
unlock_shared_head key_map hs = refl
unlock_shared_head (partition p) hs = ground arith

pub unlock_head : (l : Lock) (hs : List Hold) → unlock l (exclusive l ∷ hs) ≡ ok hs
unfolding unlock
unlock_head key_map hs = refl
unlock_head (partition p) hs = ground arith
