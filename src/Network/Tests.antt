-- ===== src/Network/Tests.antt =====
-- Runs of the network code, and instances of the theorems.
use nocturne_os_base.Prelude.{
  ℕ, ◌≡◌, refl, ap, ◌∙◌, none, some, List, [], ◌∷◌, ◌++◌, ◌==◌, if◌then◌else◌, arith,
}
use nocturne_os_base.Arp.{ArpTable, Netcard, arp_lookup, arp_lookup_add, lookup_entries}
use nocturne_os_base.Network.{
  frame, to_dhcp, udp_send_packet, ipv4_send_packet, ipv4_packet, ethernet_send_packet,
  ethernet_handle_packet, ethernet_type_ipv4,
}
use nocturne_os_base.Network.Deliver.{handle-udp_send_packet}
use nocturne_os_base.Network.Resolve.{asks, ipv4_send_packet-Finds, ipv4_send_packet_unreachable}
use nocturne_os_base.Network.Queue.{NetqueueItem, send_pass, send_pass-Reverses}

abbrev server : Netcard
server = record { ipv4_addr = 0x0101a8c0; mac_addr = 0x020304050607 }

abbrev known : ArpTable
known = record { entries = record { ip_addr = 0x0201a8c0; mac_addr = 0x0a } ∷ []; curr = 1 }

known-lookup : arp_lookup known 0x0201a8c0 ≡ some 0x0a
unfolding arp_lookup lookup_entries
known-lookup = refl

handle-udp_send_packet_example :
    (f : List ℕ) × (udp_send_packet server 0x0201a8c0 67 68 (2 ∷ 1 ∷ []) (λ i. known)
      ≡ frame f ∷ [])
    × (ethernet_handle_packet f known
        ≡ (to_dhcp (2 ∷ 1 ∷ []), arp_lookup_add 0x020304050607 0x0101a8c0 known))
handle-udp_send_packet_example =
    handle-udp_send_packet server 0x0201a8c0 0x0a 67 68 (2 ∷ 1 ∷ []) (λ i. known) known
      (omega arith) (omega arith) (omega arith) known-lookup

-- The table before and after the answer to a first request.
abbrev blank : ArpTable
blank = record { entries = []; curr = 0 }

abbrev answered : ℕ → ArpTable
answered i = if i == 0 then blank else known

blank-lookup : arp_lookup blank 0x0201a8c0 ≡ none
unfolding arp_lookup lookup_entries
blank-lookup = refl

ipv4_send_packet-Finds_example :
    ipv4_send_packet server 0x0201a8c0 (5 ∷ []) 6 answered
    ≡ asks 1 server 0x0201a8c0
      ++ ethernet_send_packet server 0x0a
          (ipv4_packet 0x0101a8c0 0x0201a8c0 (5 ∷ []) 6)
          ethernet_type_ipv4
ipv4_send_packet-Finds_example =
    ipv4_send_packet-Finds server 0x0201a8c0 answered (5 ∷ []) 6 1 0x0a (omega arith)
      (λ j l.
        let e : j ≡ 0 = omega arith in
        ap (λ n. arp_lookup (answered n) 0x0201a8c0) e ∙ blank-lookup)
      known-lookup

ipv4_send_packet_unreachable_example :
    ipv4_send_packet server 0x0201a8c0 (5 ∷ []) 6 (λ i. blank) ≡ asks 9 server 0x0201a8c0
ipv4_send_packet_unreachable_example =
    ipv4_send_packet_unreachable server 0x0201a8c0 (λ i. blank) (5 ∷ []) 6 (λ j l. blank-lookup)

abbrev item : ℕ → NetqueueItem
item n = record { card = 0; bytes = n ∷ [] }

send_pass-Reverses_example : send_pass (item 1 ∷ item 2 ∷ []) ≡ (item 2 ∷ item 1 ∷ [], [])
send_pass-Reverses_example = send_pass-Reverses (item 1 ∷ item 2 ∷ [])
