-- ===== src/Storage/Cache/Sync.antt =====
-- `fs_cache_sync` brings the disk up to date.
use knit_os.Base.{
  ℕ, suc, ◌+◌, ◌-◌, ◌≡◌, ◌<◌, ◌≢◌, ◌∙◌, refl, List, [], ◌∷◌, Bool, true, false, ◌&&◌, some,
  get_elem?, set, arith, leb, Bool-cases, Option-cases, inl, inr, get_elem?-set_self,
  get_elem?-set_ne, lt_of_get_elem?,
}
use knit_os.Storage.Cache.{Slot, Cache, Device, flush, sync_from, fs_cache_sync}
use knit_os.Storage.Cache.Lookup.{slot_find_cases}
use knit_os.Storage.Cache.Coherence.{view, IsCoherent, Keeps, Keeps-refl, flush-Keeps}

Keeps-trans : (c d e : Cache) → Keeps c d → Keeps d e → Keeps c e
Keeps-trans c d e k m = record {
  coherent = m.coherent;
  same = λ l. m.same l ∙ k.same l;
  absent = λ l h. m.absent l (k.absent l h);
  ready = m.ready ∙ k.ready;
  room = m.room ∙ k.room;
}

-- The slots in front of `i` have nothing that the disk lacks.
abbrev SyncedTo : ℕ → Cache → Type 0
SyncedTo i c =
    (j : ℕ) (s : Slot) → j < i → get_elem? c.slots j ≡ some s → s.used ≡ true → s.dirty ≡ false

-- The loop's list is what the table holds from `i` on.
abbrev AheadAt : ℕ → List Slot → Cache → Type 0
AheadAt i ss c = (j k : ℕ) → k ≡ i + j → get_elem? c.slots k ≡ get_elem? ss j

module _ (dev : Device) where
  abbrev pub Syncs : Cache → Bool × Cache → Type 0
  Syncs c (true, d) = Keeps c d × ((l : ℕ) → d.disk l ≡ view c l)
  Syncs c (false, d) = Keeps c d

  -- A flush changes its own slot only.
  flush-set :
      (c : Cache) (i : ℕ) (s : Slot) (d : Cache)
      → flush dev c i s ≡ some d
      → d.slots ≡ set c.slots i (record s { dirty = false })
  unfolding flush
  flush-set c i s d e = ground arith

  flush-SyncedTo :
      (c : Cache) (i : ℕ) (s : Slot) (d : Cache)
      → get_elem? c.slots i ≡ some s
      → flush dev c i s ≡ some d
      → SyncedTo i c
      → SyncedTo (i + 1) d
  flush-SyncedTo c i s d at e synced j t below at' u =
      let set_at =
        get_elem?-set_self c.slots i (record s { dirty = false }) (lt_of_get_elem? c.slots i at) in
      ground (
        arith,
        flush-set c i s d e,
        set_at,
        λ (ne : i ≢ j). get_elem?-set_ne c.slots i j (record s { dirty = false }) ne,
        synced j t,
      )

  flush-AheadAt :
      (c : Cache) (i : ℕ) (s : Slot) (ss : List Slot) (d : Cache)
      → flush dev c i s ≡ some d
      → AheadAt i (s ∷ ss) c
      → AheadAt (i + 1) ss d
  flush-AheadAt c i s ss d e ahead j k eq = ground (
    arith,
    flush-set c i s d e,
    get_elem?-set_ne c.slots i k (record s { dirty = false }) (ground arith),
    ahead (suc j) k,
  )

  Syncs-trans : (c d : Cache) → Keeps c d → (r : Bool × Cache) → Syncs d r → Syncs c r
  Syncs-trans c d k (true, x) (m, up) = (Keeps-trans c d x k m, λ l. up l ∙ k.same l)
  Syncs-trans c d k (false, x) m = Keeps-trans c d x k m

  -- After the last slot no reader sees more than the disk has.
  all_clean :
      (i : ℕ) (c : Cache)
      → IsCoherent c
      → SyncedTo i c
      → AheadAt i [] c
      → (l : ℕ) → c.disk l ≡ view c l
  all_clean i c v synced ahead l = elim (slot_find_cases l c.slots) [
    | inl (e, e') ↦ rw (e', view) refl
    | inr (j, s, e, at, e', u, same) ↦
        let below : j < i = elim (Bool-cases (leb i j)) [
          | inl le ↦ ground (arith, ahead (j - i) j (ground arith))
          | inr gt ↦ ground arith
        ] in
        ground (arith, v.clean l s e', synced j s below at u)
  ]

  sync_from-Syncs :
      (i : ℕ) (ss : List Slot) (c : Cache)
      → IsCoherent c
      → SyncedTo i c
      → AheadAt i ss c
      → Syncs c (sync_from dev i ss c)
  unfolding sync_from
  sync_from-Syncs i [] c v synced ahead = (Keeps-refl c v, all_clean i c v synced ahead)
  sync_from-Syncs i (s ∷ ss) c v synced ahead = elim (Bool-cases (s.used && s.dirty)) [
    | inl e ↦ elim (Option-cases (flush dev c i s)) [
      | inl failed ↦ rw (e, failed, sync_from) (Keeps-refl c v)
      | inr (d, done) ↦
          let at : get_elem? c.slots i ≡ some s = ahead 0 i (ground arith) in
          let (k, at') = flush-Keeps dev c v i s at (ground arith) d done in
          let rest =
            sync_from-Syncs (i + 1) ss d k.coherent (flush-SyncedTo c i s d at done synced)
              (flush-AheadAt c i s ss d done ahead) in
          rw (e, done, sync_from) (Syncs-trans c d k (sync_from dev (i + 1) ss d) rest)
    ]
    | inr e ↦
        rw (e, sync_from)
          (sync_from-Syncs (i + 1) ss c v (λ j t below at' u. ground (arith, ahead 0 i, synced j t))
            (λ j k e'. ahead (suc j) k (ground arith)))
  ]

  -- In a ready cache that is coherent, `fs_cache_sync` changes no sector that a reader sees and
  -- keeps the cache coherent, whatever the disk does; if it reports success, every sector on the
  -- disk is what a reader sees.
  pub fs_cache_sync-Syncs :
      (c : Cache) → c.ready ≡ true → IsCoherent c → Syncs c (fs_cache_sync dev c)
  unfolding fs_cache_sync
  fs_cache_sync-Syncs c ready v =
      let loop =
        sync_from-Syncs 0 c.slots c v (λ j s below. absurd (ground arith))
          (λ j k e. ground arith) in
      let runs : fs_cache_sync dev c ≡ sync_from dev 0 c.slots c = ground arith in rw runs loop
