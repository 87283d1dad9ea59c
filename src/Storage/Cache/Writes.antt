-- ===== src/Storage/Cache/Writes.antt =====
-- Writing sectors through the cache, and bringing the disk up to date.
use knit_os.Base.{
  ℕ, ◌≡◌, ◌≢◌, ◌∙◌, refl, ap, Bool, true, false, Option, none, some, get_elem?, ◌==◌, if◌then◌else◌,
  Bool-cases, inl, inr, eq_of_==, ne_of_==,
}
use knit_os.Storage.Cache.{
  Sector, Slot, Cache, Device, update, slot_evict, tick, overwrite, fs_cache_write_sector,
}
use knit_os.Storage.Cache.Lookup.{cached, MayHold, slot_find_cases}
use knit_os.Storage.Cache.Coherence.{
  view, IsCoherent, view-put_self, view-put_ne, put-IsCoherent, Evicts, slot_evict-Evicts,
}

module _ (dev : Device) where
  -- The slot `i` takes the new bytes.
  overwrite-view :
      (lba : ℕ) (bytes : Sector) (c : Cache) (i : ℕ) (s : Slot)
      → IsCoherent c
      → get_elem? c.slots i ≡ some s
      → (s.used ≡ true → s.lba ≢ lba → s.dirty ≡ false)
      → MayHold lba s c.slots
      → IsCoherent (overwrite dev lba bytes c i).1
        × ((l : ℕ) → view (overwrite dev lba bytes c i).1 l ≡ update (view c) lba bytes l)
  unfolding overwrite
  overwrite-view lba bytes c i s v at clean m = (
    put-IsCoherent d i s new v' at refl m (λ e. absurd (cc)),
    λ l. elim (Bool-cases (l == lba)) [
      | inl e ↦ rw (e, eq_of_== _ _ e) (view-put_self d i s new v' at refl m)
      | inr ne ↦ rw ne (view-put_ne d i s new v' at refl m clean l (ne_of_== _ _ ne))
    ],
  )
    where
      d : Cache
      d = tick dev c

      v' : IsCoherent d
      v' = record { distinct = v.distinct; clean = v.clean }

      new : Slot
      new = record { used = true; dirty = true; lba = lba; stamp = d.clock; bytes = bytes }

  -- A write that succeeds changes the one sector for its readers, and one that fails changes none.
  abbrev pub Writes : ℕ → Sector → Cache → Bool × Cache → Type 0
  Writes lba bytes c (true, d) = IsCoherent d × ((l : ℕ) → view d l ≡ update (view c) lba bytes l)
  Writes lba bytes c (false, d) = IsCoherent d × ((l : ℕ) → view d l ≡ view c l)

  overwrite-Writes :
      (lba : ℕ) (bytes : Sector) (c d : Cache) (i : ℕ)
      → ((l : ℕ) → view d l ≡ view c l)
      → IsCoherent (overwrite dev lba bytes d i).1
        × ((l : ℕ) → view (overwrite dev lba bytes d i).1 l ≡ update (view d) lba bytes l)
      → Writes lba bytes c (overwrite dev lba bytes d i)
  unfolding overwrite
  overwrite-Writes lba bytes c d i same (v, e) =
      (v, λ l. e l ∙ ap (λ z. if l == lba then bytes else z) (same l))

  write_miss-Writes :
      (lba : ℕ) (bytes : Sector) (c : Cache) (v : IsCoherent c)
      → cached lba c.slots ≡ none
      → (o : Option (ℕ × Cache)) → Evicts dev c v o
      → Writes lba bytes c
          (elim o [ none ↦ (false, c) | some (i, d) ↦ overwrite dev lba bytes d i ])
  write_miss-Writes lba bytes c v absent none h = (v, λ l. refl)
  write_miss-Writes lba bytes c v absent (some (i, d)) (k, (s, at, clean)) =
      overwrite-Writes lba bytes c d i k.same
        (overwrite-view lba bytes d i s k.coherent at (λ u _. clean u) (inr (k.absent lba absent)))

  -- Writing a sector through the cache makes it the sector's contents for every later reader and
  -- leaves the other sectors, whatever was evicted for it; if it fails, no sector has changed.
  pub fs_cache_write_sector-Writes :
      (lba : ℕ) (bytes : Sector) (c : Cache)
      → c.ready ≡ true
      → IsCoherent c
      → Writes lba bytes c (fs_cache_write_sector dev lba bytes c)
  unfolding fs_cache_write_sector
  fs_cache_write_sector-Writes lba bytes c r v = elim (slot_find_cases lba c.slots) [
    | inl (e, absent) ↦
        rw (r, e, fs_cache_write_sector)
          (write_miss-Writes lba bytes c v absent (slot_evict dev c) (slot_evict-Evicts dev c v))
    | inr (i, s, e, at, _, u, same) ↦
        rw (r, e, fs_cache_write_sector)
          (overwrite-Writes lba bytes c c i (λ l. refl)
            (overwrite-view lba bytes c i s v at (λ _ ne. absurd (ne same)) (inl (u, same))))
  ]
