-- ===== src/Storage/Cache/Reads.antt =====
-- Reading and writing sectors through the cache, and bringing the disk up to date.
use knit_os.Base.{
  ℕ, ◌+◌, ◌%◌, ◌^◌, ◌≡◌, ◌∙◌, refl, sym, true, false, Option, none, some, get_elem?, set_same,
  arith, Bool-cases, inl, inr,
}
use knit_os.Storage.Cache.{
  Sector, Slot, Cache, Device, slot_find, slot_evict, tick, read_hit, fill, read_miss,
  fs_cache_read_sector,
}
use knit_os.Storage.Cache.Lookup.{cached, slot_find_cases, cached_of_slot}
use knit_os.Storage.Cache.Coherence.{
  view, IsCoherent, view-put, put-IsCoherent, Evicts, slot_evict-Evicts,
}

-- A step that fails and spoils nothing, or a read that gives what the reader should see.
abbrev pub Reads : ℕ → Cache → Option Sector × Cache → Type 0
Reads lba c (o, d) =
    IsCoherent d × ((l : ℕ) → view d l ≡ view c l) × ((b : Sector) → o ≡ some b → b ≡ view c lba)

view_of_slot :
    (c : Cache) (i : ℕ) (s : Slot)
    → IsCoherent c
    → get_elem? c.slots i ≡ some s
    → s.used ≡ true
    → view c s.lba ≡ s.bytes
view_of_slot c i s v at u = rw (cached_of_slot c.slots i v.distinct at u, view)

view_absent : (c : Cache) (l : ℕ) → cached l c.slots ≡ none → view c l ≡ c.disk l
view_absent c l e = rw (e, view)

clean_of_slot :
    (c : Cache) (i : ℕ) (s : Slot)
    → IsCoherent c
    → get_elem? c.slots i ≡ some s
    → s.used ≡ true
    → s.dirty ≡ false
    → s.bytes ≡ c.disk s.lba
clean_of_slot c i s v at u = v.clean s.lba s (cached_of_slot c.slots i v.distinct at u)

module _ (dev : Device) where
  -- A failed transfer leaves the buffer alone.
  abbrev pub IsGentle : Type 0
  IsGentle = (l : ℕ) (b : Sector) → dev.torn l b ≡ b

  read_hit-Reads :
      (lba : ℕ) (c : Cache) (i : ℕ) (s : Slot)
      → IsCoherent c
      → get_elem? c.slots i ≡ some s
      → s.used ≡ true
      → s.lba ≡ lba
      → Reads lba c (read_hit dev c i s)
  unfolding read_hit
  read_hit-Reads lba c i s v at u same = (
    put-IsCoherent d i s new v' at u (inl (u, refl)) (clean_of_slot c i s v at u),
    view-put d i s new v' at u (inl (u, refl)) (λ _ ne. absurd (ne refl))
        (sym (view_of_slot c i s v at u)),
    λ b e. rw (← same, view_of_slot c i s v at u) (ground arith),
  )
    where
      d : Cache
      d = tick dev (record c { hits = (c.hits + 1) % 2 ^ 32 })

      v' : IsCoherent d
      v' = record { distinct = v.distinct; clean = v.clean }

      new : Slot
      new = record s { stamp = d.clock }

  fill-Reads :
      (lba : ℕ) (c : Cache) (i : ℕ) (s : Slot)
      → IsGentle
      → IsCoherent c
      → get_elem? c.slots i ≡ some s
      → (s.used ≡ true → s.dirty ≡ false)
      → cached lba c.slots ≡ none
      → Reads lba c (fill dev lba c i s)
  unfolding fill
  fill-Reads lba c i s gentle v at clean absent = elim (Bool-cases (dev.reads lba)) [
    | inr failed ↦
        rw (failed, gentle lba s.bytes, set_same c.slots i at) (v, λ l. refl, λ b e. absurd (cc))
    | inl done ↦ rw done (
      put-IsCoherent d i s new v' at refl (inr absent) (λ _. refl),
      view-put d i s new v' at refl (inr absent) (λ u _. clean u) (sym (view_absent c lba absent)),
      λ b e. rw (view_absent c lba absent) (ground arith),
    )
  ]
    where
      d : Cache
      d = tick dev c

      v' : IsCoherent d
      v' = record { distinct = v.distinct; clean = v.clean }

      new : Slot
      new = record { used = true; dirty = false; lba = lba; stamp = d.clock; bytes = c.disk lba }

  Reads-after :
      (lba : ℕ) (c d : Cache) (r : Option Sector × Cache)
      → ((l : ℕ) → view d l ≡ view c l)
      → Reads lba d r
      → Reads lba c r
  Reads-after lba c d (o, e) same (v, same', got) =
      (v, λ l. same' l ∙ same l, λ b h. got b h ∙ same lba)

  read_miss-Reads :
      (lba : ℕ) (c : Cache)
      → IsGentle
      → IsCoherent c
      → cached lba c.slots ≡ none
      → Reads lba c (read_miss dev lba c)
  unfolding read_miss
  read_miss-Reads lba c gentle v absent = go (slot_evict dev d) (slot_evict-Evicts dev d v')
    where
      d : Cache
      d = record c { misses = (c.misses + 1) % 2 ^ 32 }

      v' : IsCoherent d
      v' = record { distinct = v.distinct; clean = v.clean }

      go :
          (o : Option (ℕ × Cache))
          → Evicts dev d v' o
          → Reads lba c (elim o [
            | none ↦ (none, d)
            | some (i, e) ↦ elim (get_elem? e.slots i) [
              | none ↦ (none, e)
              | some s ↦ fill dev lba e i s
            ]
          ])
      go none h = (v', λ l. refl, λ b e. absurd (cc))
      go (some (i, e)) (k, (s, at, clean)) = rw at (
          Reads-after lba c e _ k.same
            (fill-Reads lba e i s gentle k.coherent at clean (k.absent lba absent)))

  reading_absent :
      (lba : ℕ) (c : Cache)
      → c.ready ≡ true
      → slot_find lba c.slots ≡ none
      → fs_cache_read_sector dev lba c ≡ read_miss dev lba c
  unfolding fs_cache_read_sector
  reading_absent lba c r e = ground arith

  reading_cached :
      (lba : ℕ) (c : Cache) (i : ℕ) (s : Slot)
      → c.ready ≡ true
      → slot_find lba c.slots ≡ some i
      → get_elem? c.slots i ≡ some s
      → fs_cache_read_sector dev lba c ≡ read_hit dev c i s
  unfolding fs_cache_read_sector
  reading_cached lba c i s r e at = ground arith

  -- Reading a sector through the cache gives what the reader should see, or fails; either way the
  -- cache stays coherent and no sector changes for its readers, if the driver leaves the buffer alone
  -- when a transfer fails.
  pub fs_cache_read_sector-Reads :
      (lba : ℕ) (c : Cache)
      → IsGentle
      → c.ready ≡ true
      → IsCoherent c
      → Reads lba c (fs_cache_read_sector dev lba c)
  fs_cache_read_sector-Reads lba c gentle r v = elim (slot_find_cases lba c.slots) [
    | inl (e, absent) ↦ rw (reading_absent lba c r e) (read_miss-Reads lba c gentle v absent)
    | inr (i, s, e, at, _, u, same) ↦
        rw (reading_cached lba c i s r e at) (read_hit-Reads lba c i s v at u same)
  ]
