-- ===== src/Arp/Handle.antt =====
-- The answers of kernel/src/net/arp.c.
use nocturne_os_base.Prelude.{ℕ, List, [], ◌∷◌, ◌++◌, ◌==◌, if◌then◌else◌, ◌≡◌, refl, arith}
use nocturne_os_base.Endian.Laws.{ntohs-htons}
use nocturne_os_base.Arp.{
  Netcard, ArpPacket, ArpTable, arp_send_packet, arp_handle_packet, arp_lookup_add,
}

-- The packets of a list of frames, handled in order by a card.
abbrev pub handle_frames :
    Netcard → List (ℕ × ArpPacket) → ArpTable → List (ℕ × ArpPacket) × ArpTable
handle_frames card [] s = ([], s)
handle_frames card ((mac, packet) ∷ frames) s =
    let (sent, s') = arp_handle_packet card packet s in
    let (more, s'') = handle_frames card frames s' in (sent ++ more, s'')

-- A request of card `a` for an address, handled by card `b`, and the answer handled by `a`. Card `b` learns the
-- addresses of `a` in any case. It answers if the address asked for is not its own, and
-- then `a` learns the addresses of `b` and sends nothing; it does not answer a request for its own address.
pub send-handle :
    (a b : Netcard) (dest_mac ip : ℕ) (s t : ArpTable)
    → let (answer, s') = handle_frames b (arp_send_packet a dest_mac ip) s in
      (s' ≡ arp_lookup_add a.mac_addr a.ipv4_addr s)
      × (handle_frames a answer t
          ≡ (if ip == b.ipv4_addr then ([], t) else ([], arp_lookup_add b.mac_addr b.ipv4_addr t)))
unfolding arp_send_packet arp_handle_packet
send-handle a b dest_mac ip s t =
    (refl, ground (arith, ntohs-htons 1 (omega arith), ntohs-htons 2 (omega arith)))
