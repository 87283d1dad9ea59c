-- ===== src/Net/Arp/Tests.antt =====
-- kernel/drivers/network/protocols/arp.cpp on a concrete cache.
use knit_os.Base.{ℕ, ◌≡◌, ◌≤◌, ◌<◌, ◌⊎◌, refl, false, none, some, List, [], ◌∷◌, replicate, arith}
use knit_os.Net.Arp.{Arp, ArpPacket, entry_ttl, fresh, arp_add_entry, age, arp_get_mac, op_request}
use knit_os.Net.Arp.Ageing.{IsArp, arp_add_entry-Adds, arp_get_mac-ages}

abbrev empty : Arp
empty = record {
  table = replicate 16 (record { ip = 0; mac = []; valid = false; last_seen = 0 });
  evict_slot = 0;
  our_ip = 10;
  our_mac = 2 ∷ 0 ∷ 0 ∷ 0 ∷ 0 ∷ 1 ∷ [];
}

empty-IsArp : IsArp empty
empty-IsArp = record { room = refl; evict_in = omega arith }

abbrev mac : List ℕ
mac = 2 ∷ 0 ∷ 0 ∷ 0 ∷ 0 ∷ 7 ∷ []

arp_get_mac-ages_example :
    ((age 6000 (fresh 5000 20 mac) ≤ entry_ttl)
      × (arp_get_mac 6000 20 (arp_add_entry 5000 20 mac empty)
          ≡ (some mac, arp_add_entry 5000 20 mac empty)))
    ⊎ ((entry_ttl < age 6000 (fresh 5000 20 mac))
        × ((arp_get_mac 6000 20 (arp_add_entry 5000 20 mac empty)).0 ≡ none))
arp_get_mac-ages_example =
    arp_get_mac-ages 6000 20 (arp_add_entry 5000 20 mac empty) {e = fresh 5000 20 mac}
      (arp_add_entry-Adds 5000 20 mac empty empty-IsArp).here

-- A request of 20 for our address.
abbrev request : ArpPacket
request = record {
  hardware_type = 1;
  protocol_type = 2048;
  hardware_len = 6;
  protocol_len = 4;
  operation = op_request;
  sender_mac = mac;
  sender_ip = 20;
  target_mac = [];
  target_ip = 10;
}
