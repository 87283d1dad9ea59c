-- ===== src/Net/Route/Updates.antt =====
-- The routing table as a map from networks to routes.
use knit_os.Base.{
  ℕ, ◌≡◌, ◌≢◌, refl, List, true, false, not, Option, none, some, get_elem?, set, arith, find_index,
  find_index_cases, All, All-map, ◌⊎◌, inl, inr, ==_self,
}
use knit_os.Base.{first_fit, first_fit-set_miss, first_fit-set_hit}
use knit_os.Net.Route.{Netif, Route, is_for, route_find_slot, route_add}

-- The entry of a network.
abbrev pub entry : ℕ → ℕ → List Route → Option Route
entry dest mask t = first_fit (is_for dest mask) t

-- The table `t'` has the route for its network, and every other network's entry as in `t`.
pub record Adds (dest mask gateway : ℕ) (nif : Option Netif) (t t' : List Route) : Type 0 where
  pub route : Route
  pub here : entry dest mask t' ≡ some route
  pub via : route.gateway ≡ gateway
  pub on : route.nif ≡ nif
  pub others : (d m : ℕ) → (d ≢ dest) ⊎ (m ≢ mask) → entry d m t' ≡ entry d m t

module _ (dest mask gateway : ℕ) (nif : Option Netif) (t : List Route) where
  set-Adds :
      (i : ℕ) (old new : Route)
      → get_elem? t i ≡ some old
      → ((find_index (is_for dest mask) t ≡ some i) ⊎ (find_index (is_for dest mask) t ≡ none))
      → (is_for dest mask old ≡ true) ⊎ (old.valid ≡ false)
      → is_for dest mask new ≡ true
      → new.gateway ≡ gateway
      → new.nif ≡ nif
      → Adds dest mask gateway nif t (set t i new)
  set-Adds i old new at first was is_new g n = record {
    route = new;
    here = first_fit-set_hit (is_for dest mask) t i old new at first is_new;
    via = g;
    on = n;
    others =
        λ d m other. first_fit-set_miss (is_for d m) t i old new at (ground arith) (ground arith);
  }

  -- `route_add` gives the network the gateway and the interface, in its entry if it has one, and
  -- leaves every other network's entry; it fails, changing nothing, only if the network has no entry
  -- and all slots are taken.
  pub route_add-Adds :
      ((t' : List Route) × (route_add dest mask gateway nif t ≡ (true, t'))
        × Adds dest mask gateway nif t t')
      ⊎ ((route_add dest mask gateway nif t ≡ (false, t))
          × (find_index (is_for dest mask) t ≡ none)
          × All (λ (r : Route). r.valid ≡ true) t)
  unfolding route_add route_find_slot
  route_add-Adds = elim (find_index_cases (is_for dest mask) t) [
    | inr (i, r, e, at, hit) ↦ inl (
      set t i (record r { gateway = gateway; nif = nif }),
      rw (e, at, route_add) refl,
      set-Adds i r (record r { gateway = gateway; nif = nif }) at (inl e) (inl hit) hit refl refl,
    )
    | inl (e, _) ↦ elim (find_index_cases (λ (r : Route). not r.valid) t) [
      | inr (i, r, e', at, free) ↦
          let new : Route = record {
            dest = dest;
            mask = mask;
            gateway = gateway;
            nif = nif;
            valid = true;
          } in
          inl (
            set t i new,
            rw (e, e', route_add, route_find_slot) refl,
            set-Adds i r new at (inr e) (inr (ground arith)) (rw (==_self dest, ==_self mask) refl)
                refl refl,
          )
      | inl (e', taken) ↦ inr (
        rw (e, e', route_add, route_find_slot) refl,
        e,
        All-map (λ (r : Route). not r.valid ≡ false) (λ (r : Route). r.valid ≡ true) t
            (λ r v. ground arith) taken,
      )
    ]
  ]
