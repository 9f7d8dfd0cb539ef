-- ===== src/Network/Dhcp.antt =====
-- The client of DHCP in kernel/src/net/dhcp.c.
use nocturne_os_base.Prelude.{
  ℕ, zero, suc, ◌≡◌, refl, ◌==◌, ◌&&◌, if◌then◌else◌, List, [], ◌∷◌, ◌++◌, length, get_or, take,
  drop, replicate,
}
use nocturne_os_base.Endian.{htons, htonl, ntohl}
use nocturne_os_base.Arp.{ArpTable, Netcard}
use nocturne_os_base.Network.{Sent, bytes16, le_bytes, le_value, udp_send_packet}

-- The fields of `dhcp_packet_t` in front of its options: 236 bytes.
unfoldable pub dhcp_header : Netcard → ℕ → List ℕ
dhcp_header card random =
    1
    ∷ 1
    ∷ 6
    ∷ 0
    ∷ (le_bytes 4 (ntohl random)
        ++ (bytes16 0
            ++ (bytes16 (htons 0x8000)
                ++ (replicate 16 0 ++ (le_bytes 6 card.mac_addr ++ replicate 202 0)))))

-- The options: the magic number, the kind of the message, an address, the name of the host, and the end.
unfoldable pub dhcp_options : ℕ → ℕ → List ℕ
dhcp_options kind ip =
    le_bytes 4 (htonl 0x63825363)
    ++ (53
        ∷ 1
        ∷ kind
        ∷ 50
        ∷ 4
        ∷ (le_bytes 4 ip ++ (12 ∷ 7 ∷ 83 ∷ 97 ∷ 121 ∷ 111 ∷ 114 ∷ 105 ∷ 0 ∷ 255 ∷ replicate 317 0)))

-- The random number for the transaction is an argument.
unfoldable pub dhcp_discover : Netcard → ℕ → (ℕ → ArpTable) → List Sent
unfolding dhcp_header dhcp_options udp_send_packet
dhcp_discover card random tables =
    udp_send_packet card 0xffffffff 68 67 (dhcp_header card random ++ dhcp_options 1 0) tables

unfoldable pub dhcp_request : Netcard → ℕ → ℕ → (ℕ → ArpTable) → List Sent
unfolding dhcp_header dhcp_options udp_send_packet
dhcp_request card req_ip random tables =
    udp_send_packet card 0xffffffff 68 67 (dhcp_header card random ++ dhcp_options 3 req_ip) tables

-- Only the first option is looked at: an acknowledgement gives the card its address.
unfoldable pub dhcp_handle_packet : Netcard → List ℕ → Netcard
dhcp_handle_packet card packet =
    if get_or packet 240 0 == 53 && get_or packet 242 0 == 5
    then record card { ipv4_addr = le_value 4 packet 16 }
    else card

-- The options of a message as their codes and data, up to the end mark, as RFC 2132 lays them out.
abbrev pub options : ℕ → List ℕ → List (ℕ × List ℕ)
options zero bytes = []
options (suc fuel) [] = []
options (suc fuel) (code ∷ []) = []
options (suc fuel) (code ∷ (size ∷ rest)) =
    let more = options fuel (drop size rest) in
    if code == 255
    then []
    else if code == 0
    then options fuel (size ∷ rest)
    else (code, take size rest) ∷ more

-- The message is 576 bytes long, and its options, read as the standard says, are its kind, the address and the name "Sayori" with
-- a zero behind it.
pub dhcp_options-Read :
    (card : Netcard) (random kind ip : ℕ)
    → (length (dhcp_header card random ++ dhcp_options kind ip) ≡ 576)
      × (options 4 (drop 240 (dhcp_header card random ++ dhcp_options kind ip))
          ≡ (53, kind ∷ [])
            ∷ (50, le_bytes 4 ip)
            ∷ (12, 83 ∷ 97 ∷ 121 ∷ 111 ∷ 114 ∷ 105 ∷ 0 ∷ [])
            ∷ [])
unfolding dhcp_header dhcp_options
dhcp_options-Read card random kind ip = (refl, refl)
