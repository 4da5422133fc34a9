-- ===== src/Discovery/Store.antt =====
-- internal/discovery/store.go: `New`, `Snapshot`, `Refresh`. What a scan reads of the roots, and when, is an argument.
use mcsm.Common.{ℕ, ◌≡◌, refl, ◌∙◌, Option, none, some, String, List, [], ◌∷◌}
use mcsm.Lock.Owner.{default_stale_after}
use mcsm.Discovery.Scan.{Discovered, Entry, scan}

-- `none` is the zero time.
pub record Catalog : Type 0 where
  pub scanned_at : Option ℕ
  pub servers : List Discovered

pub record CatalogStore : Type 0 where
  pub roots : List String
  pub instance_name : String
  pub stale_threshold : ℕ
  pub interval : ℕ
  pub cur : Catalog

unfoldable pub new_store : List String → String → ℕ → CatalogStore
new_store roots self interval = record {
  roots = roots;
  instance_name = self;
  stale_threshold = default_stale_after;
  interval = interval;
  cur = record { scanned_at = none; servers = [] };
}

unfoldable pub catalog_of : CatalogStore → Catalog
catalog_of s = s.cur

-- Each root with what can be read of it.
read_roots : (String → Option (List Entry)) → List String → List (String × Option (List Entry))
read_roots read [] = []
read_roots read (r ∷ rs) = (r, read r) ∷ read_roots read rs

module _ (sort : List Discovered → List Discovered) where
  unfoldable pub scanned : (String → Option (List Entry)) → ℕ → CatalogStore → Catalog
  unfolding scan read_roots
  scanned read now s = record {
    scanned_at = some now;
    servers = scan sort s.instance_name s.stale_threshold now (read_roots read s.roots);
  }

  unfoldable pub rescan : (String → Option (List Entry)) → ℕ → CatalogStore → CatalogStore
  unfolding scanned
  rescan read now s = record s { cur = scanned read now s }

  -- The rounds of `Run`, and forced ones.
  unfoldable pub rescan_all :
      List ((String → Option (List Entry)) × ℕ) → CatalogStore → CatalogStore
  unfolding rescan
  rescan_all [] s = s
  rescan_all ((read, now) ∷ rs) s = rescan_all rs (rescan read now s)

  -- What handlers read after some rounds: nothing before the first, and else the result of the last one for the
  -- store's roots.
  unfoldable pub newest_scan : CatalogStore → List ((String → Option (List Entry)) × ℕ) → Catalog
  unfolding scanned
  newest_scan s [] = catalog_of s
  newest_scan s ((read, now) ∷ []) = scanned read now s
  newest_scan s (r ∷ q ∷ rs) = newest_scan s (q ∷ rs)

  newest_scan_kept :
      (s : CatalogStore) (c : Catalog) (r : (String → Option (List Entry)) × ℕ)
      (rs : List ((String → Option (List Entry)) × ℕ))
      → newest_scan (record s { cur = c }) (r ∷ rs) ≡ newest_scan s (r ∷ rs)
  unfolding newest_scan
  newest_scan_kept s c r [] = refl
  newest_scan_kept s c r (q ∷ rs) = newest_scan_kept s c q rs

  pub catalog_of-rescan_all :
      (rs : List ((String → Option (List Entry)) × ℕ)) (s : CatalogStore)
      → catalog_of (rescan_all rs s) ≡ newest_scan s rs
  unfolding rescan_all newest_scan catalog_of
  catalog_of-rescan_all [] s = refl
  catalog_of-rescan_all ((read, now) ∷ []) s = refl
  catalog_of-rescan_all ((read, now) ∷ q ∷ rs) s =
      catalog_of-rescan_all (q ∷ rs) (rescan read now s) ∙ newest_scan_kept s _ q rs
