-- ===== src/Storage/Cache/Tests.antt =====
-- kernel/fs_cache.cpp on a concrete cache and disk.
use knit_os.Base.{refl, true, false, [], ◌∷◌, ◌==◌, if◌then◌else◌, arith, not}
use knit_os.Storage.Cache.{
  Cache, Device, fs_cache_read_sector, fs_cache_write_sector, fs_cache_sync,
}
use knit_os.Storage.Cache.Lookup.{cached}
use knit_os.Storage.Cache.Coherence.{IsCoherent}
use knit_os.Storage.Cache.Reads.{Reads, fs_cache_read_sector-Reads}
use knit_os.Storage.Cache.Writes.{Writes, fs_cache_write_sector-Writes}
use knit_os.Storage.Cache.Sync.{Syncs, fs_cache_sync-Syncs}

-- A disk on which only the sector 9 cannot be written.
abbrev dev : Device
dev = record { reads = λ l. true; writes = λ l. not (l == 9); torn = λ l b. b }

-- One clean slot for the sector 3 and one dirty slot for the sector 5.
abbrev cache : Cache
cache = record {
  ready = true;
  slots =
      record { used = true; dirty = false; lba = 3; stamp = 1; bytes = 30 ∷ [] }
      ∷ record { used = true; dirty = true; lba = 5; stamp = 2; bytes = 51 ∷ [] }
      ∷ [];
  clock = 2;
  hits = 0;
  misses = 2;
  disk = λ l. (if l == 3 then 30 else 50) ∷ [];
}

cache-IsCoherent : IsCoherent cache
unfolding cached
cache-IsCoherent = record {
  distinct = (λ _. refl, (λ _. refl, tt));
  clean = λ l s e d. ground arith;
}

fs_cache_read_sector-Reads_example : Reads 4 cache (fs_cache_read_sector dev 4 cache)
fs_cache_read_sector-Reads_example =
    fs_cache_read_sector-Reads dev 4 cache (λ l b. refl) refl cache-IsCoherent

fs_cache_write_sector-Writes_example :
    Writes dev 4 (77 ∷ []) cache (fs_cache_write_sector dev 4 (77 ∷ []) cache)
fs_cache_write_sector-Writes_example =
    fs_cache_write_sector-Writes dev 4 (77 ∷ []) cache refl cache-IsCoherent

fs_cache_sync-Syncs_example : Syncs dev cache (fs_cache_sync dev cache)
fs_cache_sync-Syncs_example = fs_cache_sync-Syncs dev cache refl cache-IsCoherent
