-- ===== src/Net/Route/Best.antt =====
-- `route_lookup` as the choice of a best entry.
use knit_os.Base.{
  ℕ, suc, ◌≡◌, ◌≤◌, ◌<◌, ◌≢◌, refl, List, [], ◌∷◌, true, false, ◌&&◌, Option, none, some, get_elem?,
  arith, drop, leb, ◌==◌, if◌then◌else◌, All, All-map, Bool-cases, ◌⊎◌, inl, inr, ==_of_ne,
}
use knit_os.Net.Route.{Netif, Route, broadcast, reaches, best_from, route_lookup}

-- An entry for the address that no other entry for it exceeds, the last one of its mask.
pub record IsBest (ip : ℕ) (t : List Route) (r : Route) : Type 0 where
  pub index : ℕ
  pub at : get_elem? t index ≡ some r
  pub reaching : reaches ip r ≡ true
  pub widest : All (λ s. reaches ip s ≡ true → s.mask ≤ r.mask) t
  pub last : All (λ s. reaches ip s ≡ true → s.mask < r.mask) (drop (suc index) t)

IsBest-later :
    (ip : ℕ) (x : Route) (t : List Route) (r : Route)
    → IsBest ip t r
    → (reaches ip x ≡ true → x.mask ≤ r.mask)
    → IsBest ip (x ∷ t) r
IsBest-later ip x t r b h = record {
  index = suc b.index;
  at = b.at;
  reaching = b.reaching;
  widest = (h, b.widest);
  last = b.last;
}

IsBest-here :
    (ip : ℕ) (x : Route) (t : List Route)
    → reaches ip x ≡ true
    → All (λ (s : Route). reaches ip s ≡ true → s.mask < x.mask) t
    → IsBest ip (x ∷ t) x
IsBest-here ip x t h below = record {
  index = 0;
  at = refl;
  reaching = h;
  widest = (
    λ _. omega arith,
    All-map (λ (s : Route). reaches ip s ≡ true → s.mask < x.mask)
        (λ (s : Route). reaches ip s ≡ true → s.mask ≤ x.mask) t (λ s b e. omega (arith, b e))
        below,
  );
  last = below;
}

module _ (ip : ℕ) where
  best_from-some :
      (b : Route) (t : List Route)
      → ((best_from ip (some b) t ≡ some b) × All (λ s. reaches ip s ≡ true → s.mask < b.mask) t)
        ⊎ ((r : Route) × (best_from ip (some b) t ≡ some r) × IsBest ip t r × (b.mask ≤ r.mask))
  unfolding best_from
  best_from-some b [] = inl (refl, tt)
  best_from-some b (x ∷ t) = elim (Bool-cases (reaches ip x && leb b.mask x.mask)) [
    | inl better ↦ elim (best_from-some x t) [
      | inl (e, below) ↦
          inr (x, rw (better, best_from) e, IsBest-here ip x t (ground arith) below, ground arith)
      | inr (r, e, best, le) ↦
          inr (r, rw (better, best_from) e, IsBest-later ip x t r best (λ _. le), ground arith)
    ]
    | inr worse ↦ elim (best_from-some b t) [
      | inl (e, below) ↦ inl (rw (worse, best_from) e, (λ h. ground arith, below))
      | inr (r, e, best, le) ↦
          inr (r, rw (worse, best_from) e, IsBest-later ip x t r best (λ h. ground arith), le)
    ]
  ]

  best_from-none :
      (t : List Route)
      → ((best_from ip none t ≡ none) × All (λ s. reaches ip s ≡ false) t)
        ⊎ ((r : Route) × (best_from ip none t ≡ some r) × IsBest ip t r)
  unfolding best_from
  best_from-none [] = inl (refl, tt)
  best_from-none (x ∷ t) = elim (Bool-cases (reaches ip x)) [
    | inl hit ↦ elim (best_from-some x t) [
      | inl (e, below) ↦ inr (x, rw (hit, best_from) e, IsBest-here ip x t hit below)
      | inr (r, e, best, le) ↦ inr (r, rw (hit, best_from) e, IsBest-later ip x t r best (λ _. le))
    ]
    | inr miss ↦ elim (best_from-none t) [
      | inl (e, none_fits) ↦ inl (rw (miss, best_from) e, (miss, none_fits))
      | inr (r, e, best) ↦
          inr (r, rw (miss, best_from) e, IsBest-later ip x t r best (λ h. absurd (ground arith)))
    ]
  ]

-- Where a packet goes through a gateway, or straight to its destination if there is none.
abbrev pub hop : ℕ → ℕ → ℕ
hop gateway ip = if gateway == 0 then ip else gateway

-- For an address other than the broadcast, a lookup takes a valid entry whose network holds the
-- address and whose mask no other such entry exceeds, the last one of that mask, and leaves through
-- its gateway and interface; only if there is no such entry it falls back to the default interface,
-- and it fails exactly if that is missing too.
pub route_lookup-IsBest :
    (default : Option Netif) (ip : ℕ) (t : List Route)
    → ip ≢ broadcast
    → (All (λ (s : Route). reaches ip s ≡ false) t
        × (route_lookup default ip t
            ≡ elim default [ none ↦ none | some n ↦ some (hop n.gateway ip, some n) ]))
      ⊎ ((r : Route) × IsBest ip t r
          × (route_lookup default ip t
              ≡ some (hop r.gateway ip, elim r.nif [ none ↦ default | some n ↦ some n ])))
unfolding route_lookup
route_lookup-IsBest default ip t ne =
    let unicast : (ip == broadcast) ≡ false = ==_of_ne ip broadcast ne in
    elim (best_from-none ip t) [
      | inl (e, none_fits) ↦ inl (none_fits, rw (unicast, e, route_lookup) refl)
      | inr (r, e, best) ↦ inr (r, best, rw (unicast, e, route_lookup) refl)
    ]
