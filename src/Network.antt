-- ===== src/Network.antt =====
-- The way of a packet through kernel/src/net: udp.c, ipv4.c, ethernet.c and the queues of stack.c, with dhcp.c.
--
-- A packet is the list of its bytes; reading behind its end gives 0. A 16-bit field has its low byte first. An
-- address is a number, as in Arp: its bytes read as one word. What a thread sends is the list of the items pushed
-- on the outgoing queue. The buffers are taken to be granted. Log calls are left out. Deliver is about
-- sending and receiving, Queue about the queues, Dhcp about the client of DHCP.
mod Bytes
pub mod Deliver
pub mod Resolve
pub mod Queue
pub mod Dhcp
mod Tests
pub use Bytes.*
use nocturne_os_base.Prelude.{
  ℕ, zero, suc, ◌+◌, ◌==◌, if◌then◌else◌, Bool, true, false, Option, none, some, List, [], ◌∷◌,
  ◌++◌, u16, length, get_or, drop, take,
}
use nocturne_os_base.Endian.{htons, ntohs}
use nocturne_os_base.Checksum.{ipv4_checksum}
use nocturne_os_base.Arp.{ArpTable, ArpPacket, Netcard, arp_lookup, arp_lookup_add, arp_send_packet}

abbrev pub ethernet_type_ipv4 : ℕ
ethernet_type_ipv4 = 0x0800

abbrev pub ethernet_type_arp : ℕ
ethernet_type_arp = 0x0806

abbrev pub ip_protocol_udp : ℕ
ip_protocol_udp = 17

-- `udp_packet_t` and the data behind it; the checksum is 0.
unfoldable pub udp_packet : ℕ → ℕ → List ℕ → List ℕ
udp_packet src_port dst_port payload =
    bytes16 (htons (u16 src_port))
    ++ (bytes16 (htons (u16 dst_port))
        ++ (bytes16 (htons (u16 (8 + length payload))) ++ (bytes16 0 ++ payload)))

-- `ipv4_packet_t` without options.
unfoldable pub ipv4_header : ℕ → ℕ → ℕ → ℕ → ℕ → List ℕ
ipv4_header source destination size protocol check =
    0x45
    ∷ 0
    ∷ (bytes16 (htons (u16 (20 + size)))
        ++ (bytes16 0
            ++ (bytes16 0
                ++ (64
                    ∷ protocol
                    ∷ (bytes16 check ++ (le_bytes 4 source ++ le_bytes 4 destination))))))

unfoldable pub ipv4_packet : ℕ → ℕ → List ℕ → ℕ → List ℕ
unfolding ipv4_header
ipv4_packet source destination payload protocol =
    let check =
      htons (ipv4_checksum (ipv4_header source destination (length payload) protocol 0)) in
    ipv4_header source destination (length payload) protocol check ++ payload

-- `ethernet_frame_t` and its data.
unfoldable pub ethernet_frame : ℕ → ℕ → List ℕ → ℕ → List ℕ
ethernet_frame dest_mac src_mac payload type =
    le_bytes 6 dest_mac ++ (le_bytes 6 src_mac ++ (bytes16 (htons type) ++ payload))

-- What a card is given to send: a frame of its own, or a request for an address.
pub data Sent : Type 0 where
  frame : List ℕ → Sent
  request : ℕ × ArpPacket → Sent

-- `ethernet_send_packet`: the frame goes to the outgoing queue.
unfoldable pub ethernet_send_packet : Netcard → ℕ → List ℕ → ℕ → List Sent
unfolding ethernet_frame
ethernet_send_packet card dest_mac payload type =
    frame (ethernet_frame dest_mac card.mac_addr payload type) ∷ []

-- The requests of one round, as `arp_send_packet` sends them.
unfoldable pub requests : List (ℕ × ArpPacket) → List Sent
requests [] = []
requests (r ∷ rs) = request r ∷ requests rs

-- `while (!arp_lookup(dest_mac, dest_ip) && --spin)`, with `spin` rounds left. Other threads fill the table: lookup
-- number `i` sees the table `tables i`.
pub resolve : ℕ → Netcard → ℕ → (ℕ → ArpTable) → ℕ → Option ℕ × List Sent
unfolding requests
resolve zero card dest_ip tables i = (none, [])
resolve (suc spin) card dest_ip tables i =
    let later = resolve spin card dest_ip tables (i + 1) in
    let asked = requests (arp_send_packet card 0 dest_ip) in
    elim (arp_lookup (tables i) dest_ip) [
      | some mac ↦ (some mac, [])
      | none ↦ if spin == 0 then (none, []) else (later.0, asked ++ later.1)
    ]

-- The end of `ipv4_send_packet`: an address that is not found is unreachable.
unfoldable pub transmit : Netcard → List ℕ → Option ℕ × List Sent → List Sent
unfolding ethernet_send_packet
transmit card packet (none, asked) = asked
transmit card packet (some dest_mac, asked) =
    asked ++ ethernet_send_packet card dest_mac packet ethernet_type_ipv4

unfoldable pub ipv4_send_packet : Netcard → ℕ → List ℕ → ℕ → (ℕ → ArpTable) → List Sent
unfolding resolve ipv4_packet transmit
ipv4_send_packet card dest_ip payload protocol tables =
    transmit card (ipv4_packet card.ipv4_addr dest_ip payload protocol)
      (resolve 10 card dest_ip tables 0)

unfoldable pub udp_send_packet : Netcard → ℕ → ℕ → ℕ → List ℕ → (ℕ → ArpTable) → List Sent
unfolding ipv4_send_packet udp_packet
udp_send_packet card dst_ip src_port dst_port payload tables =
    ipv4_send_packet card dst_ip (udp_packet src_port dst_port payload) ip_protocol_udp tables

-- Where a packet that has come in goes: to a handler, with the bytes that this is given, or nowhere.
pub data Handed : Type 0 where
  to_arp : List ℕ → Handed
  to_icmp : List ℕ → Handed
  to_tcp : List ℕ → Handed
  to_dhcp : List ℕ → Handed
  dropped : Handed

unfoldable pub udp_handle_packet : List ℕ → Handed
udp_handle_packet packet =
    if ntohs (le_value 2 packet 2) == 68 then to_dhcp (drop 8 packet) else dropped

-- The sender is learned; the header is taken to have 20 bytes.
unfoldable pub ipv4_handle_packet : ℕ → List ℕ → ArpTable → Handed × ArpTable
unfolding udp_handle_packet
ipv4_handle_packet src_mac packet table =
    let protocol = get_or packet 9 0 in
    let handed =
      if protocol == ip_protocol_udp
      then udp_handle_packet (drop 20 packet)
      else if protocol == 1
      then to_icmp (drop 20 packet)
      else if protocol == 6
      then to_tcp (drop 20 packet)
      else dropped in
    (handed, arp_lookup_add src_mac (le_value 4 packet 12) table)

-- `ethernet_dump` swaps the bytes of the sixteen words of the addresses where the data look like IPv6.
unfoldable pub swap_words : ℕ → List ℕ → List ℕ
swap_words zero bytes = bytes
swap_words (suc n) [] = []
swap_words (suc n) (a ∷ []) = a ∷ []
swap_words (suc n) (a ∷ (b ∷ bytes)) = b ∷ a ∷ swap_words n bytes

unfoldable pub ethernet_dump : List ℕ → List ℕ
unfolding swap_words
ethernet_dump bytes =
    if get_or bytes 0 0 == 0x60 then take 8 bytes ++ swap_words 16 (drop 8 bytes) else bytes

unfoldable pub ethernet_handle_packet : List ℕ → ArpTable → Handed × ArpTable
unfolding ethernet_dump ipv4_handle_packet
ethernet_handle_packet packet table =
    let payload = ethernet_dump (drop 14 packet) in
    let type = ntohs (le_value 2 packet 12) in
    if type == ethernet_type_arp
    then (to_arp payload, table)
    else if type == ethernet_type_ipv4
    then ipv4_handle_packet (le_value 6 packet 6) payload table
    else (dropped, table)
