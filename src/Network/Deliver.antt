-- ===== src/Network/Deliver.antt =====
-- What udp_send_packet sends is what ethernet_handle_packet of the receiver hands on.
use nocturne_os_base.Prelude.{
  ℕ, suc, ◌+◌, ◌*◌, ◌/◌, ◌%◌, ◌^◌, ◌<◌, ◌≡◌, refl, ap, ◌∙◌, ◌==◌, if◌then◌else◌, some, List, [],
  ◌∷◌, u16, arith,
}
use nocturne_os_base.Endian.{htons, ntohs}
use nocturne_os_base.Endian.Laws.{ntohs-htons, htons-lt}
use nocturne_os_base.Arp.{ArpTable, Netcard, arp_lookup, arp_lookup_add}
use nocturne_os_base.Network.{
  frame, to_dhcp, dropped, le_value, udp_packet, ipv4_packet, ethernet_frame, resolve, transmit,
  udp_send_packet, udp_handle_packet, ipv4_handle_packet, ethernet_dump, ethernet_handle_packet,
  ethernet_type_ipv4, ip_protocol_udp,
}

-- The first lookup finds the address.
resolve-found :
    (spin : ℕ) (card : Netcard) (ip mac : ℕ) (tables : ℕ → ArpTable) (i : ℕ)
    → arp_lookup (tables i) ip ≡ some mac
    → resolve (suc spin) card ip tables i ≡ (some mac, [])
unfolding resolve
resolve-found spin card ip mac tables i e = rw (e, resolve) refl

value16 : (x : ℕ) → x < 2 ^ 16 → x % 256 + 256 * (x / 256 % 256 + 256 * 0) ≡ x
value16 x l = omega arith

value32 :
    (x : ℕ)
    → x < 2 ^ 32
    → x % 256
        + 256
          * (x / 256 % 256
              + 256 * (x / 256 / 256 % 256 + 256 * (x / 256 / 256 / 256 % 256 + 256 * 0)))
      ≡ x
value32 x l = omega arith

value48 :
    (x : ℕ)
    → x < 2 ^ 48
    → x % 256
        + 256
          * (x / 256 % 256
              + 256
                * (x / 256 / 256 % 256
                    + 256
                      * (x / 256 / 256 / 256 % 256
                          + 256
                            * (x / 256 / 256 / 256 / 256 % 256
                                + 256 * (x / 256 / 256 / 256 / 256 / 256 % 256 + 256 * 0)))))
      ≡ x
value48 x l = omega arith

-- A packet of IPv4 is not taken for one of IPv6.
ethernet_dump_ipv4 :
    (source destination : ℕ) (payload : List ℕ)
    → ethernet_dump (ipv4_packet source destination payload ip_protocol_udp)
      ≡ ipv4_packet source destination payload ip_protocol_udp
unfolding ethernet_dump ipv4_packet
ethernet_dump_ipv4 source destination payload = refl

-- The fields that the receiver reads.
udp-handled :
    (src dst : ℕ) (payload : List ℕ)
    → dst < 2 ^ 16
    → udp_handle_packet (udp_packet src dst payload)
      ≡ (if dst == 68 then to_dhcp payload else dropped)
unfolding udp_handle_packet udp_packet
udp-handled src dst payload l =
    let small : u16 dst ≡ dst = omega arith in
    let e : ntohs (le_value 2 (udp_packet src dst payload) 2) ≡ dst =
      rw small (ap ntohs (value16 (htons dst) (htons-lt dst)) ∙ ntohs-htons dst l) in
    rw e refl

ipv4-handled :
    (src_mac source destination : ℕ) (payload : List ℕ) (table : ArpTable)
    → source < 2 ^ 32
    → ipv4_handle_packet src_mac (ipv4_packet source destination payload ip_protocol_udp) table
      ≡ (udp_handle_packet payload, arp_lookup_add src_mac source table)
unfolding ipv4_handle_packet ipv4_packet
ipv4-handled src_mac source destination payload table l =
    ap (λ a. (udp_handle_packet payload, arp_lookup_add src_mac a table)) (value32 source l)

ethernet-handled :
    (dest_mac src_mac source destination : ℕ) (payload : List ℕ) (table : ArpTable)
    → src_mac < 2 ^ 48
    → source < 2 ^ 32
    → ethernet_handle_packet
        (ethernet_frame dest_mac src_mac
          (ipv4_packet source destination payload ip_protocol_udp)
          ethernet_type_ipv4)
        table
      ≡ (udp_handle_packet payload, arp_lookup_add src_mac source table)
unfolding ethernet_handle_packet ethernet_frame
ethernet-handled dest_mac src_mac source destination payload table l k =
    let packet = ipv4_packet source destination payload ip_protocol_udp in
    let f = ethernet_frame dest_mac src_mac packet ethernet_type_ipv4 in
    let type : ntohs (le_value 2 f 12) ≡ ethernet_type_ipv4 =
      ap ntohs (value16 (htons ethernet_type_ipv4) (htons-lt ethernet_type_ipv4))
      ∙ ntohs-htons ethernet_type_ipv4 (omega arith) in
    let mac : le_value 6 f 6 ≡ src_mac = value48 src_mac l in
    let same : ethernet_dump packet ≡ packet = ethernet_dump_ipv4 source destination payload in
    rw (type, mac, same) (ipv4-handled src_mac source destination payload table k)

-- `udp_send_packet` to an address that is in the table of the sender sends one frame. The receiver hands its data to the handler
-- of DHCP, if they are for port 68, and drops them otherwise; in both cases it learns the addresses of the sender.
pub handle-udp_send_packet :
    (card : Netcard) (dst_ip dst_mac src_port dst_port : ℕ) (payload : List ℕ)
    (tables : ℕ → ArpTable) (table : ArpTable)
    → card.mac_addr < 2 ^ 48
    → card.ipv4_addr < 2 ^ 32
    → dst_port < 2 ^ 16
    → arp_lookup (tables 0) dst_ip ≡ some dst_mac
    → (f : List ℕ) × (udp_send_packet card dst_ip src_port dst_port payload tables ≡ frame f ∷ [])
      × (ethernet_handle_packet f table ≡ (
        (if dst_port == 68 then to_dhcp payload else dropped),
        arp_lookup_add card.mac_addr card.ipv4_addr table,
      ))
unfolding udp_send_packet
handle-udp_send_packet card dst_ip dst_mac src_port dst_port payload tables table mac ip port
      known =
    let u = udp_packet src_port dst_port payload in
    (
      ethernet_frame dst_mac card.mac_addr (ipv4_packet card.ipv4_addr dst_ip u ip_protocol_udp)
          ethernet_type_ipv4,
      ap (transmit card (ipv4_packet card.ipv4_addr dst_ip u ip_protocol_udp))
          (resolve-found 9 card dst_ip dst_mac tables 0 known),
      ethernet-handled dst_mac card.mac_addr card.ipv4_addr dst_ip u table mac ip
          ∙ ap (λ h. (h, arp_lookup_add card.mac_addr card.ipv4_addr table))
              (udp-handled src_port dst_port payload port),
    )
