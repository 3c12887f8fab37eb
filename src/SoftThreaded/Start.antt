-- ===== src/SoftThreaded/Start.antt =====
-- The store as its constructor leaves it: no key, no value, and nothing waits.
use repart_kv.Common.{
  ℕ, zero, suc, ◌≡◌, refl, sym, ap, ◌∙◌, Option, none, some, List, [], ◌<◌, replicate,
  length-replicate,
}
use repart_kv.Key.{Key, Value}
use repart_kv.Storage.{Backend}
use repart_kv.Storage.Laws.{held}
use repart_kv.KeyStorage.{KeyStorage}
use repart_kv.Tracking.{Tracking}
use repart_kv.Worker.{Queue}
use repart_kv.Hard.{nth_path, or_tmp}
use repart_kv.SortedMap.{lookup}
use repart_kv.SoftThreaded.{SoftThreaded, create}
use repart_kv.SoftThreaded.Invariant.{Inv, core, Parts}
use repart_kv.Storage

same_queue : {p q : Queue} → some p ≡ some q → p ≡ q
same_queue e = cc

Parts-none : (n : ℕ) → Parts (replicate n []) []
Parts-none zero w q e = absurd (cc)
Parts-none (suc n) zero q e = ap core (sym (same_queue e))
Parts-none (suc n) (suc w) q e = Parts-none n w q e

module _ (B : Backend) (P : KeyStorage ℕ) (T : Tracking) where
  abbrev pub created : ℕ → Option ℕ → Option ℕ → List Value → SoftThreaded B P T
  created n duration interval paths = create n duration interval paths

  -- The start.
  pub create-empty :
      (n : ℕ) (duration interval : Option ℕ) (paths : List Value) (k : Key)
      → (P.get (created n duration interval paths).key_map k ≡ none)
        × (held k (created n duration interval paths).storage ≡ none)
  unfolding create Storage.create lookup
  create-empty n duration interval paths k =
      let path = nth_path (or_tmp paths) 0 in
      (
        P.get_lem (P.create path) k ∙ ap (lookup k) (P.entries-create path),
        ap (lookup k) (B.contents-create 0 path),
      )

  pub create-Inv :
      (n : ℕ) (duration interval : Option ℕ) (paths : List Value)
      → 0 < n
      → Inv (created n duration interval paths) []
  unfolding create
  create-Inv n duration interval paths pos = record {
    nonempty = pos;
    sized = length-replicate n [];
    valid = P.create-IsValid (nth_path (or_tmp paths) 0);
    mapped = λ k p h. absurd (cc ((create-empty n duration interval paths k).0, h));
    parts = Parts-none n;
    good = tt;
    ordered = tt;
    recent = tt;
    absent = λ k h. ((create-empty n duration interval paths k).1, refl);
    only_scans = tt;
  }
