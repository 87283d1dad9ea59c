-- ===== src/Net/Route/Tests.antt =====
-- kernel/drivers/network/protocols/route.cpp on a concrete table.
use knit_os.Base.{◌≡◌, ◌⊎◌, refl, true, false, none, some, List, [], ◌∷◌, All, arith}
use knit_os.Net.Route.{Netif, Route, reaches, best_from, route_lookup}
use knit_os.Net.Route.Best.{IsBest, hop, route_lookup-IsBest}

abbrev eth0 : Netif
eth0 = record { address = 1; ip = 3232235786; netmask = 4294967040; gateway = 3232235777 }

-- 0.0.0.0/0 through the gateway, 192.168.1.0/24 on the link, and a free slot.
abbrev table : List Route
table =
    record { dest = 0; mask = 0; gateway = 3232235777; nif = some eth0; valid = true }
    ∷ record { dest = 3232235776; mask = 4294967040; gateway = 0; nif = some eth0; valid = true }
    ∷ record { dest = 0; mask = 0; gateway = 0; nif = none; valid = false }
    ∷ []

on_link : route_lookup none 3232235800 table ≡ some (3232235800, some eth0)
unfolding route_lookup best_from
on_link = refl

off_link : route_lookup none 134744072 table ≡ some (3232235777, some eth0)
unfolding route_lookup best_from
off_link = refl

route_lookup-IsBest_example :
    (All (λ (s : Route). reaches 134744072 s ≡ false) table
      × (route_lookup none 134744072 table ≡ none))
    ⊎ ((r : Route) × IsBest 134744072 table r
        × (route_lookup none 134744072 table
            ≡ some (hop r.gateway 134744072, elim r.nif [ none ↦ none | some n ↦ some n ])))
route_lookup-IsBest_example = route_lookup-IsBest none 134744072 table (λ e. absurd (omega arith))
