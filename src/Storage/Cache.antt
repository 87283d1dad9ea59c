-- ===== src/Storage/Cache.antt =====
-- kernel/fs_cache.cpp: the write-back cache of disk sectors, over a disk that may fail.
pub mod Lookup
pub mod Coherence
pub mod Reads
pub mod Writes
pub mod Sync
pub mod Tests
use mathlib.Core.Option
use knit_os.Base.{
  ℕ, zero, suc, ◌+◌, ◌%◌, ◌^◌, List, [], ◌∷◌, ◌++◌, Bool, true, false, not, ◌&&◌, Option, none,
  some, get_elem?, set, map, ltb, ◌==◌, if◌then◌else◌, find_index,
}

abbrev pub Sector : Type 0
Sector = List ℕ

pub record Slot : Type 0 where
  pub used : Bool
  pub dirty : Bool
  pub lba : ℕ
  pub stamp : ℕ
  pub bytes : Sector

pub record Cache : Type 0 where
  pub ready : Bool
  pub slots : List Slot
  pub clock : ℕ
  pub hits : ℕ
  pub misses : ℕ
  pub disk : ℕ → Sector

-- What the disk driver does beyond its data: the sectors whose transfers succeed, and what a
-- transfer that failed has left in the buffer it was given.
pub record Device : Type 0 where
  pub reads : ℕ → Bool
  pub writes : ℕ → Bool
  pub torn : ℕ → Sector → Sector

abbrev pub slot_count : ℕ
slot_count = 256

abbrev pub holds : ℕ → Slot → Bool
holds lba s = s.used && s.lba == lba

pub slot_find : ℕ → List Slot → Option ℕ
slot_find lba = find_index (holds lba)

-- The second loop of `slot_evict`, at the index `i`.
pub oldest_from : ℕ → ℕ → ℕ → List Slot → ℕ
oldest_from best best_stamp i [] = best
oldest_from best best_stamp i (s ∷ ss) =
    let earlier = ltb s.stamp best_stamp in
    oldest_from (if earlier then i else best) (if earlier then s.stamp else best_stamp) (i + 1) ss

pub oldest : List Slot → ℕ
oldest [] = 0
oldest (s ∷ ss) = oldest_from 0 s.stamp 1 ss

abbrev pub put_slot : Cache → ℕ → Slot → Cache
put_slot c i s = record c { slots = set c.slots i s }

abbrev pub update : (ℕ → Sector) → ℕ → Sector → ℕ → Sector
update disk lba bytes l = if l == lba then bytes else disk l

module _ (dev : Device) where
  -- `disk_write_sector(slots[i].lba, slots[i].data)`, which clears the dirty mark if it succeeds.
  pub flush : Cache → ℕ → Slot → Option Cache
  flush c i s =
      if dev.writes s.lba
      then some (record (put_slot c i (record s { dirty = false })) {
        disk = update c.disk s.lba s.bytes;
      })
      else none

  -- The first loop returns an unused slot. What else it computes, a clean slot, is overwritten.
  pub slot_evict : Cache → Option (ℕ × Cache)
  slot_evict c = elim (find_index (λ s. not s.used) c.slots) [
    | some i ↦ some (i, c)
    | none ↦ elim (get_elem? c.slots (oldest c.slots)) [
      | none ↦ none
      | some s ↦
          if s.dirty
          then Option.map (λ (d : Cache). (oldest c.slots, d)) (flush c (oldest c.slots) s)
          else some (oldest c.slots, c)
    ]
  ]

  -- The loop of `fs_cache_sync`, on the slots from the index `i` on.
  pub sync_from : ℕ → List Slot → Cache → Bool × Cache
  sync_from i [] c = (true, c)
  sync_from i (s ∷ ss) c = elim (s.used && s.dirty) [
    | false ↦ sync_from (i + 1) ss c
    | true ↦ elim (flush c i s) [ none ↦ (false, c) | some d ↦ sync_from (i + 1) ss d ]
  ]

  pub fs_cache_sync : Cache → Bool × Cache
  fs_cache_sync c = if c.ready then sync_from 0 c.slots c else (true, c)

  abbrev pub tick : Cache → Cache
  tick c = record c { clock = (c.clock + 1) % 2 ^ 32 }

  -- A hit of `fs_cache_read_sector` at the slot `i`.
  pub read_hit : Cache → ℕ → Slot → Option Sector × Cache
  read_hit c i s =
      let d = tick (record c { hits = (c.hits + 1) % 2 ^ 32 }) in
      (some s.bytes, put_slot d i (record s { stamp = d.clock }))

  -- The end of a miss, with the slot that `slot_evict` gave.
  pub fill : ℕ → Cache → ℕ → Slot → Option Sector × Cache
  fill lba c i s =
      if dev.reads lba
      then (let d = tick c in
          (
            some (c.disk lba),
            put_slot d i (record {
              used = true;
              dirty = false;
              lba = lba;
              stamp = d.clock;
              bytes = c.disk lba;
            }),
          ))
      else (none, put_slot c i (record s { bytes = dev.torn lba s.bytes }))

  pub read_miss : ℕ → Cache → Option Sector × Cache
  unfolding fill
  read_miss lba c =
      let d = record c { misses = (c.misses + 1) % 2 ^ 32 } in
      elim (slot_evict d) [
        | none ↦ (none, d)
        | some (i, e) ↦ elim (get_elem? e.slots i) [ none ↦ (none, e) | some s ↦ fill lba e i s ]
      ]

  -- The first component is the buffer after a return of 0; `none` is -1.
  pub fs_cache_read_sector : ℕ → Cache → Option Sector × Cache
  fs_cache_read_sector lba c =
      if c.ready
      then elim (slot_find lba c.slots) [
        | none ↦ read_miss lba c
        | some i ↦ elim (get_elem? c.slots i) [ none ↦ (none, c) | some s ↦ read_hit c i s ]
      ]
      else ((if dev.reads lba then some (c.disk lba) else none), c)

  -- The end of `fs_cache_write_sector`, at the slot that has or gets the sector.
  pub overwrite : ℕ → Sector → Cache → ℕ → Bool × Cache
  overwrite lba bytes c i =
      let d = tick c in
      (
        true,
        put_slot d i
            (record { used = true; dirty = true; lba = lba; stamp = d.clock; bytes = bytes }),
      )

  pub fs_cache_write_sector : ℕ → Sector → Cache → Bool × Cache
  fs_cache_write_sector lba bytes c =
      if c.ready
      then elim (slot_find lba c.slots) [
        | some i ↦ overwrite lba bytes c i
        | none ↦ elim (slot_evict c) [ none ↦ (false, c) | some (i, d) ↦ overwrite lba bytes d i ]
      ]
      else if dev.writes lba
      then (true, record c { disk = update c.disk lba bytes })
      else (false, c)

  -- `fs_cache_read_sectors`: the sectors read before a failure stay in the buffer.
  pub fs_cache_read_sectors : ℕ → ℕ → Cache → Option (List Sector) × Cache
  fs_cache_read_sectors lba zero c = (some [], c)
  fs_cache_read_sectors lba (suc n) c =
      let (first, d) = fs_cache_read_sector lba c in
      let (rest, e) = fs_cache_read_sectors ((lba + 1) % 2 ^ 32) n d in
      elim first [ none ↦ (none, d) | some b ↦ (Option.map (λ bs. b ∷ bs) rest, e) ]

  pub fs_cache_write_sectors : ℕ → List Sector → Cache → Bool × Cache
  fs_cache_write_sectors lba [] c = (true, c)
  fs_cache_write_sectors lba (b ∷ bs) c =
      let (done, d) = fs_cache_write_sector lba b c in
      let rest = fs_cache_write_sectors ((lba + 1) % 2 ^ 32) bs d in
      if done then rest else (false, d)

pub fs_cache_init : Cache → Cache
fs_cache_init c = record c {
  ready = true;
  slots =
      map
        (λ (s : Slot). record {
          used = false;
          dirty = false;
          lba = 0;
          stamp = 0;
          bytes = map (λ b. 0) s.bytes;
        })
        c.slots;
  clock = 1;
  hits = 0;
  misses = 0;
}

pub fs_cache_invalidate_all : Cache → Cache
fs_cache_invalidate_all c = record c {
  slots = map (λ (s : Slot). record s { used = false; dirty = false }) c.slots;
}
