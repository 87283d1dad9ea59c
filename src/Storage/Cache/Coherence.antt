-- ===== src/Storage/Cache/Coherence.antt =====
-- What a reader of the disk through the cache sees, and how the steps of the cache keep it.
use knit_os.Base.{
  ℕ, ◌≡◌, ◌≢◌, ◌∙◌, refl, true, false, not, Option, none, some, get_elem?, arith, length,
  length-set, ◌==◌, find_index_cases, All-get, Bool-cases, Option-cases, inl, inr,
  get_elem?-set_self, lt_of_get_elem?, eq_of_==, ne_of_==,
}
use knit_os.Storage.Cache.{Sector, Slot, Cache, Device, oldest, put_slot, update, flush, slot_evict}
use knit_os.Storage.Cache.Lookup.{
  cached, IsDistinct, MayHold, with_slot, cached_of_slot, cached-set, IsDistinct-set,
}

-- The contents of a sector: its slot's bytes if it is cached, and the disk's if it is not.
abbrev pub view : Cache → ℕ → Sector
view c l = elim (cached l c.slots) [ some s ↦ s.bytes | none ↦ c.disk l ]

-- No sector is cached twice, and a slot that is not dirty agrees with the disk.
pub record IsCoherent (c : Cache) : Type 0 where
  pub distinct : IsDistinct c.slots
  pub clean : (l : ℕ) (s : Slot) → cached l c.slots ≡ some s → s.dirty ≡ false → s.bytes ≡ c.disk l

-- The slot `i` gets other contents, for a sector that it may hold. What the slot gives up must be
-- on the disk, and what it takes, if it is clean, must be there too.
module _ (c : Cache) (i : ℕ) (old new : Slot) (v : IsCoherent c)
    (at : get_elem? c.slots i ≡ some old) (u : new.used ≡ true)
    (m : MayHold new.lba old c.slots) where
  abbrev after : Cache
  after = put_slot c i new

  after-cached : (l : ℕ) → cached l after.slots ≡ with_slot l old new c.slots
  after-cached l = cached-set l c.slots i old new v.distinct at u m

  pub view-put_self : view after new.lba ≡ new.bytes
  view-put_self = ground (arith, after-cached new.lba)

  pub view-put_ne :
      (old.used ≡ true → old.lba ≢ new.lba → old.dirty ≡ false)
      → (l : ℕ) → l ≢ new.lba
      → view after l ≡ view c l
  view-put_ne given_up l ne =
      ground
        (arith, after-cached l, cached_of_slot c.slots i v.distinct at, given_up, v.clean l old)

  -- Every other sector is as it was, and so is this one if the slot's bytes are what it had.
  pub view-put :
      (old.used ≡ true → old.lba ≢ new.lba → old.dirty ≡ false)
      → new.bytes ≡ view c new.lba
      → (l : ℕ) → view after l ≡ view c l
  view-put given_up kept l = elim (Bool-cases (l == new.lba)) [
    | inl e ↦ rw (eq_of_== _ _ e) (view-put_self ∙ kept)
    | inr ne ↦ view-put_ne given_up l (ne_of_== _ _ ne)
  ]

  pub put-IsCoherent : (new.dirty ≡ false → new.bytes ≡ c.disk new.lba) → IsCoherent after
  put-IsCoherent on_disk = record {
    distinct = IsDistinct-set c.slots i old new v.distinct at u m;
    clean = λ l s e d. ground (arith, after-cached l, on_disk, v.clean l s);
  }

-- What the steps that make room leave as it was.
pub record Keeps (c d : Cache) : Type 0 where
  pub coherent : IsCoherent d
  pub same : (l : ℕ) → view d l ≡ view c l
  pub absent : (l : ℕ) → cached l c.slots ≡ none → cached l d.slots ≡ none
  pub ready : d.ready ≡ c.ready
  pub room : length d.slots ≡ length c.slots

pub Keeps-refl : (c : Cache) → IsCoherent c → Keeps c c
Keeps-refl c v = record {
  coherent = v;
  same = λ l. refl;
  absent = λ l e. e;
  ready = refl;
  room = refl;
}

module _ (dev : Device) (c : Cache) (v : IsCoherent c) where
  module _ (i : ℕ) (s : Slot) (at : get_elem? c.slots i ≡ some s) (u : s.used ≡ true) where
    abbrev cleaned : Slot
    cleaned = record s { dirty = false }

    abbrev flushed : Cache
    flushed = record (put_slot c i cleaned) { disk = update c.disk s.lba s.bytes }

    flushed-cached : (l : ℕ) → cached l flushed.slots ≡ with_slot l s cleaned c.slots
    flushed-cached l = cached-set l c.slots i s cleaned v.distinct at u (inl (u, refl))

    flushed-Keeps : Keeps c flushed
    flushed-Keeps = record {
      coherent = record {
        distinct = IsDistinct-set c.slots i s cleaned v.distinct at u (inl (u, refl));
        clean = λ l t e d. ground (arith, flushed-cached l, v.clean l t);
      };
      same = λ l. ground (arith, flushed-cached l, cached_of_slot c.slots i v.distinct at u);
      absent = λ l e. ground (arith, flushed-cached l, cached_of_slot c.slots i v.distinct at u);
      ready = refl;
      room = length-set c.slots i cleaned;
    }

    -- A flush that succeeds changes no sector that a reader sees, and leaves a clean slot.
    pub flush-Keeps :
        (d : Cache) → flush dev c i s ≡ some d → Keeps c d × (get_elem? d.slots i ≡ some cleaned)
    unfolding flush
    flush-Keeps d e =
        let same : d ≡ flushed = ground arith in
        rw same (flushed-Keeps, get_elem?-set_self c.slots i cleaned (lt_of_get_elem? c.slots i at))

  -- Room in the slot `i`: nothing there, or nothing that the disk lacks.
  abbrev pub Evicts : Option (ℕ × Cache) → Type 0
  Evicts none = Unit {0}
  Evicts (some (i, d)) =
      Keeps c d × ((s : Slot) × (get_elem? d.slots i ≡ some s) × (s.used ≡ true → s.dirty ≡ false))

  pub slot_evict-Evicts : Evicts (slot_evict dev c)
  unfolding slot_evict flush
  slot_evict-Evicts = elim (find_index_cases (λ (s : Slot). not s.used) c.slots) [
    | inr (i, s, e, at, free) ↦
        rw (e, slot_evict) (Keeps-refl c v, (s, at, λ u. absurd (ground arith)))
    | inl (e, all_used) ↦ elim (Option-cases (get_elem? c.slots (oldest c.slots))) [
      | inl out ↦ rw (e, out, slot_evict) tt
      | inr (s, at) ↦
          let u : s.used ≡ true =
            ground (arith, All-get (λ (x : Slot). not x.used ≡ false) c.slots _ all_used at) in
          elim (Bool-cases s.dirty) [
            | inl dirty ↦ elim (Option-cases (flush dev c (oldest c.slots) s)) [
              | inl failed ↦ rw (e, at, dirty, failed, slot_evict) tt
              | inr (d, done) ↦
                  let (k, at') = flush-Keeps (oldest c.slots) s at u d done in
                  rw (e, at, dirty, done, slot_evict)
                    (k, (record s { dirty = false }, at', λ _. refl))
            ]
            | inr clean ↦ rw (e, at, clean, slot_evict) (Keeps-refl c v, (s, at, λ _. clean))
          ]
    ]
  ]
