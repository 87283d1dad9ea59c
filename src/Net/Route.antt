-- ===== src/Net/Route.antt =====
-- kernel/drivers/network/protocols/route.cpp. An interface is a value with the fields that the table
-- reads, its address in place of the pointer; `netif_default` is an argument.
pub mod Best
pub mod Updates
pub mod Tests
use mathlib.Core.Option
use Prim.Native.Nat.{bit_and}
use knit_os.Base.{
  ℕ, ◌+◌, ◌-◌, ◌^◌, Bool, true, false, not, ◌&&◌, ◌||◌, Option, none, some, List, [], ◌∷◌, map,
  get_elem?, set, ltb, leb, ◌==◌, if◌then◌else◌, find_index,
}

pub record Netif : Type 0 where
  pub address : ℕ
  pub ip : ℕ
  pub netmask : ℕ
  pub gateway : ℕ

pub record Route : Type 0 where
  pub dest : ℕ
  pub mask : ℕ
  pub gateway : ℕ
  pub nif : Option Netif
  pub valid : Bool

abbrev pub route_max : ℕ
route_max = 16

abbrev pub broadcast : ℕ
broadcast = 2 ^ 32 - 1

pub route_init : List Route → List Route
route_init t = map (λ r. record { dest = 0; mask = 0; gateway = 0; nif = none; valid = false }) t

pub route_find_slot : List Route → Option ℕ
route_find_slot t = find_index (λ r. not r.valid) t

abbrev pub is_for : ℕ → ℕ → Route → Bool
is_for dest mask r = r.valid && r.dest == dest && r.mask == mask

-- `true` is a return of 0.
pub route_add : ℕ → ℕ → ℕ → Option Netif → List Route → Bool × List Route
unfolding route_find_slot
route_add dest mask gateway nif t = elim (find_index (is_for dest mask) t) [
  | some i ↦ elim (get_elem? t i) [
    | none ↦ (false, t)
    | some r ↦ (true, set t i (record r { gateway = gateway; nif = nif }))
  ]
  | none ↦ elim (route_find_slot t) [
    | none ↦ (false, t)
    | some i ↦ (
      true,
      set t i (record { dest = dest; mask = mask; gateway = gateway; nif = nif; valid = true }),
    )
  ]
]

pub route_del : ℕ → ℕ → List Route → Bool × List Route
route_del dest mask t = elim (find_index (is_for dest mask) t) [
  | none ↦ (false, t)
  | some i ↦ elim (get_elem? t i) [
    | none ↦ (false, t)
    | some r ↦ (true, set t i (record r { valid = false }))
  ]
]

pub route_set_default : ℕ → Option Netif → List Route → List Route
route_set_default gateway nif t = (route_add 0 0 gateway nif t).1

pub route_update_connected : Option Netif → List Route → List Route
route_update_connected none t = t
route_update_connected (some n) t =
    if n.ip == 0
    then t
    else let t = (route_add (bit_and n.ip n.netmask) n.netmask 0 (some n) t).1 in
      if n.gateway == 0 then t else route_set_default n.gateway (some n) t

-- `(dest_ip & mask) == (dest & mask)` for a valid entry.
abbrev pub reaches : ℕ → Route → Bool
reaches ip r = r.valid && bit_and ip r.mask == bit_and r.dest r.mask

-- `best < 0 || routes[i].mask >= best_mask`.
abbrev pub as_wide : Option Route → Route → Bool
as_wide none r = true
as_wide (some b) r = leb b.mask r.mask

-- The loop of `route_lookup`: the best entry so far, `best_mask` being its mask.
pub best_from : ℕ → Option Route → List Route → Option Route
best_from ip best [] = best
best_from ip best (r ∷ t) = best_from ip (if reaches ip r && as_wide best r then some r else best) t

-- The next hop and the interface of a return of 0; `none` is -1.
pub route_lookup : Option Netif → ℕ → List Route → Option (ℕ × Option Netif)
route_lookup default ip t =
    if ip == broadcast
    then elim default [ none ↦ none | some n ↦ some (ip, some n) ]
    else elim (best_from ip none t) [
      | none ↦ elim default [
        | none ↦ none
        | some n ↦ some ((if n.gateway == 0 then ip else n.gateway), some n)
      ]
      | some r ↦ some (
        (if r.gateway == 0 then ip else r.gateway),
        elim r.nif [ none ↦ default | some n ↦ some n ],
      )
    ]

pub route_count : List Route → ℕ
route_count [] = 0
route_count (r ∷ t) = let n = route_count t in if r.valid then n + 1 else n

-- The loop of `route_get`, with the `n` of the source counting up to the index.
pub route_get_from : ℕ → ℕ → List Route → Option Route
route_get_from n index [] = none
route_get_from n index (r ∷ t) =
    let later = route_get_from (n + 1) index t in
    let same = route_get_from n index t in
    if r.valid then if n == index then some r else later else same

pub route_get : ℕ → List Route → Option Route
route_get index t = route_get_from 0 index t
