-- ===== src/Arp.antt =====
-- The address resolution of kernel/src/net/arp.c. The child modules prove what holds of it.
--
-- An IPv4 address and a MAC address are numbers: their four and six bytes read as one word, so that `memcpy`
-- and `memcmp` on them are assignment and comparison. What is sent is a list of frames, each with the MAC
-- address it goes to; `ethernet_send_packet` adds the header of the frame. Log calls are left out.
pub mod Table
pub mod Handle
mod Tests
use nocturne_os_base.Prelude.{
  ℕ, zero, suc, ◌+◌, Bool, Option, none, some, List, [], ◌∷◌, ltb, leb, ◌==◌, if◌then◌else◌, set,
  replicate,
}
use nocturne_os_base.Endian.{htons, ntohs}

abbrev pub arp_table_max_size : ℕ
arp_table_max_size = 128

-- `arp_packet_t`; the opcode and the two types are in network order.
pub record ArpPacket : Type 0 where
  pub hardware_type : ℕ
  pub protocol : ℕ
  pub hardware_addr_len : ℕ
  pub protocol_addr_len : ℕ
  pub opcode : ℕ
  pub src_mac : ℕ
  pub src_ip : ℕ
  pub dest_mac : ℕ
  pub dest_ip : ℕ

pub record ArpTableEntry : Type 0 where
  pub ip_addr : ℕ
  pub mac_addr : ℕ

-- `arp_table` and `arp_table_curr`.
pub record ArpTable : Type 0 where
  pub entries : List ArpTableEntry
  pub curr : ℕ

-- What `netcard_entry_t` gives: the address of the card and what `get_mac_addr` writes.
pub record Netcard : Type 0 where
  pub ipv4_addr : ℕ
  pub mac_addr : ℕ

pub arp_lookup_add : ℕ → ℕ → ArpTable → ArpTable
arp_lookup_add mac ip s =
    let next = if ltb s.curr arp_table_max_size then s.curr + 1 else s.curr in
    record {
      entries = set s.entries s.curr (record { ip_addr = ip; mac_addr = mac });
      curr = if leb arp_table_max_size next then 0 else next;
    }

-- The loop of `arp_lookup`, over the entries that are left.
unfoldable pub lookup_entries : List ArpTableEntry → ℕ → Option ℕ
lookup_entries [] ip = none
lookup_entries (e ∷ es) ip =
    let rest = lookup_entries es ip in if e.ip_addr == ip then some e.mac_addr else rest

unfoldable pub arp_lookup : ArpTable → ℕ → Option ℕ
arp_lookup s ip = lookup_entries s.entries ip

-- The fields that a request and a reply share.
abbrev pub filled : Netcard → ℕ → ℕ → ℕ → ArpPacket
filled card dest_mac dest_ip opcode = record {
  hardware_type = htons 1;
  protocol = htons 0x0800;
  hardware_addr_len = 6;
  protocol_addr_len = 4;
  opcode = htons opcode;
  src_mac = card.mac_addr;
  src_ip = card.ipv4_addr;
  dest_mac = dest_mac;
  dest_ip = dest_ip;
}

-- The frames that it sends, and the new table.
pub arp_handle_packet : Netcard → ArpPacket → ArpTable → List (ℕ × ArpPacket) × ArpTable
arp_handle_packet card packet s =
    let reply = (packet.src_mac, filled card packet.src_mac packet.src_ip 2) ∷ [] in
    let sent =
      if ntohs packet.opcode == 1
      then (if packet.dest_ip == card.ipv4_addr then [] else reply)
      else [] in
    (sent, arp_lookup_add packet.src_mac packet.src_ip s)

abbrev pub broadcast_mac : ℕ
broadcast_mac = 0xffffffffffff

pub arp_send_packet : Netcard → ℕ → ℕ → List (ℕ × ArpPacket)
arp_send_packet card dest_mac dest_ip = (broadcast_mac, filled card dest_mac dest_ip 1) ∷ []

-- The table at the start holds zeros.
abbrev pub empty_table : ArpTable
empty_table = record {
  entries = replicate arp_table_max_size (record { ip_addr = 0; mac_addr = 0 });
  curr = 0;
}

pub arp_init : ArpTable → ArpTable
arp_init s = arp_lookup_add broadcast_mac 0xffffffff s
