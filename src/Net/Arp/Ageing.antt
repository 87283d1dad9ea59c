-- ===== src/Net/Arp/Ageing.antt =====
-- What a lookup finds after an entry was added.
use knit_os.Base.{
  ℕ, zero, suc, ◌≡◌, ◌≤◌, ◌<◌, ◌≢◌, ◌∙◌, refl, List, [], ◌∷◌, true, false, not, Option, none, some,
  get_elem?, arith, length, length-set, ltb, ◌==◌, find_index_cases, All, All-map, Bool-cases, ◌⊎◌,
  inl, inr, eq_of_==, ==_self,
}
use knit_os.Base.{first_fit, first_fit-set_miss, first_fit-set_hit, first_fit-find_index}
use knit_os.Net.Arp.{
  Entry, Arp, ArpPacket, table_size, entry_ttl, is_for, fresh, arp_add_entry, age, arp_get_mac,
}

-- The table has all its slots, and the next one to be evicted is one of them.
pub record IsArp (a : Arp) : Type 0 where
  pub room : length a.table ≡ table_size
  pub evict_in : a.evict_slot < table_size

-- What the cache has for an address.
abbrev pub entry : ℕ → Arp → Option Entry
entry ip a = first_fit (is_for ip) a.table

-- The address has the new entry, and every other has what it had, but one that was evicted.
pub record Adds (now ip : ℕ) (mac : List ℕ) (a b : Arp) : Type 0 where
  pub valid : IsArp b
  pub here : entry ip b ≡ some (fresh now ip mac)
  pub others :
      (q : ℕ)
      → q ≢ ip
      → (entry q b ≡ entry q a)
        ⊎ ((e : Entry) × (get_elem? a.table a.evict_slot ≡ some e)
            × (e.ip ≡ q)
            × All (λ (x : Entry). x.valid ≡ true) a.table)

slot_of : (t : List Entry) (i : ℕ) → i < length t → (e : Entry) × (get_elem? t i ≡ some e)
slot_of [] i h = absurd (omega arith)
slot_of (x ∷ t) zero h = (x, refl)
slot_of (x ∷ t) (suc i) h = slot_of t i (omega arith)

-- Adding an entry for an address keeps the table in order and makes that the address's entry;
-- another address loses its entry only if all slots were taken and its slot was the next to evict.
pub arp_add_entry-Adds :
    (now ip : ℕ) (mac : List ℕ) (a : Arp) → IsArp a → Adds now ip mac a (arp_add_entry now ip mac a)
unfolding arp_add_entry
arp_add_entry-Adds now ip mac a v = elim (find_index_cases (is_for ip) a.table) [
  | inr (i, e, f, at, hit) ↦
      rw (f, arp_add_entry)
        (record {
          valid = record {
            room = length-set a.table i (fresh now ip mac) ∙ v.room;
            evict_in = v.evict_in;
          };
          here =
              first_fit-set_hit (is_for ip) a.table i e (fresh now ip mac) at (inl f)
                (rw (==_self ip) refl);
          others = λ q ne. inl (
              first_fit-set_miss (is_for q) a.table i e (fresh now ip mac) at (ground arith)
                (ground arith));
        })
  | inl (f, _) ↦ elim (find_index_cases (λ (e : Entry). not e.valid) a.table) [
    | inr (i, e, g, at, free) ↦
        rw (f, g, arp_add_entry)
          (record {
            valid = record {
              room = length-set a.table i (fresh now ip mac) ∙ v.room;
              evict_in = v.evict_in;
            };
            here =
                first_fit-set_hit (is_for ip) a.table i e (fresh now ip mac) at (inr f)
                  (rw (==_self ip) refl);
            others = λ q ne. inl (
                first_fit-set_miss (is_for q) a.table i e (fresh now ip mac) at (ground arith)
                  (ground arith));
          })
    | inl (g, taken) ↦
        let i = a.evict_slot in
        let (e, at) = slot_of a.table i (omega (arith, v.room, v.evict_in)) in
        rw (f, g, arp_add_entry)
          (record {
            valid = record {
              room = length-set a.table i (fresh now ip mac) ∙ v.room;
              evict_in = omega arith;
            };
            here =
                first_fit-set_hit (is_for ip) a.table i e (fresh now ip mac) at (inr f)
                  (rw (==_self ip) refl);
            others = λ q ne. elim (Bool-cases (e.ip == q)) [
              | inl lost ↦ inr (
                e,
                at,
                eq_of_== e.ip q lost,
                All-map (λ (x : Entry). not x.valid ≡ false) (λ (x : Entry). x.valid ≡ true) a.table
                    (λ x h. ground arith) taken,
              )
              | inr other ↦ inl (
                  first_fit-set_miss (is_for q) a.table i e (fresh now ip mac) at (ground arith)
                    (ground arith))
            ];
          })
  ]
]

-- A lookup within the time to live of an entry gives its address and changes nothing; after that it
-- gives none.
pub arp_get_mac-ages :
    (now ip : ℕ) (a : Arp) {e : Entry}
    → entry ip a ≡ some e
    → ((age now e ≤ entry_ttl) × (arp_get_mac now ip a ≡ (some e.mac, a)))
      ⊎ ((entry_ttl < age now e) × ((arp_get_mac now ip a).0 ≡ none))
unfolding arp_get_mac
arp_get_mac-ages now ip a {e} f = elim (first_fit-find_index (is_for ip) a.table) [
  | inl (_, g) ↦ absurd (cc)
  | inr (i, x, g, at, h, _) ↦
      let same : x ≡ e = ground arith in
      elim (Bool-cases (ltb entry_ttl (age now e))) [
        | inl old ↦ inr (ground arith, rw (g, at, same, old, arp_get_mac) refl)
        | inr young ↦ inl (ground arith, rw (g, at, same, young, arp_get_mac) refl)
      ]
]

-- What a host answers to a request for its address: its own hardware address, to the one that asked.
abbrev pub own_address : Arp → ArpPacket → ArpPacket
own_address a p = record {
  hardware_type = 1;
  protocol_type = 2048;
  hardware_len = 6;
  protocol_len = 4;
  operation = 2;
  sender_mac = a.our_mac;
  sender_ip = a.our_ip;
  target_mac = p.sender_mac;
  target_ip = p.sender_ip;
}
