-- ===== src/Net/Arp.antt =====
-- kernel/drivers/network/protocols/arp.cpp: the cache of hardware addresses, and the packets that are
-- answered. Numbers are in host order. `now` is `tcp_get_time()`.
pub mod Ageing
pub mod Tests
use mathlib.Core.Option
use knit_os.Base.{
  ℕ, ◌+◌, ◌-◌, ◌%◌, ◌^◌, Bool, true, false, not, ◌&&◌, ◌||◌, Option, none, some, List, [], ◌∷◌, map,
  replicate, get_elem?, set, ltb, ◌==◌, if◌then◌else◌, find_index,
}

pub record Entry : Type 0 where
  pub ip : ℕ
  pub mac : List ℕ
  pub valid : Bool
  pub last_seen : ℕ

pub record Arp : Type 0 where
  pub table : List Entry
  pub evict_slot : ℕ
  pub our_ip : ℕ
  pub our_mac : List ℕ

pub record ArpPacket : Type 0 where
  pub hardware_type : ℕ
  pub protocol_type : ℕ
  pub hardware_len : ℕ
  pub protocol_len : ℕ
  pub operation : ℕ
  pub sender_mac : List ℕ
  pub sender_ip : ℕ
  pub target_mac : List ℕ
  pub target_ip : ℕ

abbrev pub table_size : ℕ
table_size = 16

abbrev pub entry_ttl : ℕ
entry_ttl = 300000

abbrev pub op_request : ℕ
op_request = 1

abbrev pub op_reply : ℕ
op_reply = 2

-- With the address that `nic_get_mac` gives.
pub arp_init : List ℕ → Arp → Arp
arp_init mac a = record a {
  table =
      map (λ (e : Entry). record { ip = 0; mac = replicate 6 0; valid = false; last_seen = 0 })
        a.table;
  our_mac = mac;
}

abbrev pub is_for : ℕ → Entry → Bool
is_for ip e = e.valid && e.ip == ip

abbrev pub fresh : ℕ → ℕ → List ℕ → Entry
fresh now ip mac = record { ip = ip; mac = mac; valid = true; last_seen = now }

pub arp_add_entry : ℕ → ℕ → List ℕ → Arp → Arp
arp_add_entry now ip mac a = elim (find_index (is_for ip) a.table) [
  | some i ↦ record a { table = set a.table i (fresh now ip mac) }
  | none ↦ elim (find_index (λ e. not e.valid) a.table) [
    | some i ↦ record a { table = set a.table i (fresh now ip mac) }
    | none ↦ record a {
      table = set a.table a.evict_slot (fresh now ip mac);
      evict_slot = (a.evict_slot + 1) % table_size;
    }
  ]
]

-- `now - last_seen` on `uint32_t`.
abbrev pub age : ℕ → Entry → ℕ
age now e = (now + 2 ^ 32 - e.last_seen) % 2 ^ 32

pub arp_get_mac : ℕ → ℕ → Arp → Option (List ℕ) × Arp
arp_get_mac now ip a = elim (find_index (is_for ip) a.table) [
  | none ↦ (none, a)
  | some i ↦ elim (get_elem? a.table i) [
    | none ↦ (none, a)
    | some e ↦
        if ltb entry_ttl (age now e)
        then (none, record a { table = set a.table i (record e { valid = false }) })
        else (some e.mac, a)
  ]
]

abbrev pub reply_to : Arp → ArpPacket → ArpPacket
reply_to a p = record {
  hardware_type = 1;
  protocol_type = 2048;
  hardware_len = 6;
  protocol_len = 4;
  operation = op_reply;
  sender_mac = a.our_mac;
  sender_ip = a.our_ip;
  target_mac = p.sender_mac;
  target_ip = p.sender_ip;
}

-- The packet that goes out, if one does.
pub arp_handle_packet : ℕ → ArpPacket → Arp → Arp × Option ArpPacket
arp_handle_packet now p a =
    if not (p.hardware_type == 1)
      || not (p.protocol_type == 2048)
      || not (p.hardware_len == 6)
      || not (p.protocol_len == 4)
    then (a, none)
    else let b = arp_add_entry now p.sender_ip p.sender_mac a in
      (
        b,
        if p.operation == op_request && p.target_ip == a.our_ip then some (reply_to a p) else none,
      )

pub arp_send_request : ℕ → Arp → ArpPacket
arp_send_request target_ip a = record {
  hardware_type = 1;
  protocol_type = 2048;
  hardware_len = 6;
  protocol_len = 4;
  operation = op_request;
  sender_mac = a.our_mac;
  sender_ip = a.our_ip;
  target_mac = replicate 6 255;
  target_ip = target_ip;
}

pub arp_set_our_ip : ℕ → Arp → Arp
arp_set_our_ip ip a = record a { our_ip = ip }
