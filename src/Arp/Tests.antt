-- ===== src/Arp/Tests.antt =====
-- The address resolution at a small table.
use nocturne_os_base.Prelude.{[], ◌≡◌, refl, arith}
use nocturne_os_base.Arp.{Netcard, arp_send_packet, arp_lookup_add, empty_table}
use nocturne_os_base.Arp.Table.{IsValid}
use nocturne_os_base.Arp.Handle.{handle_frames, send-handle}

abbrev first_card : Netcard
first_card = record { ipv4_addr = 33685514; mac_addr = 1108152157446 }

abbrev second_card : Netcard
second_card = record { ipv4_addr = 50462730; mac_addr = 1108152157447 }

empty_table-IsValid : IsValid empty_table
empty_table-IsValid = record { full = refl; inside = omega arith }

send-handle_example :
    let (answer, s') =
      handle_frames second_card (arp_send_packet first_card 0 16908298) empty_table in
    (s' ≡ arp_lookup_add first_card.mac_addr first_card.ipv4_addr empty_table)
    × (handle_frames first_card answer empty_table
        ≡ ([], arp_lookup_add second_card.mac_addr second_card.ipv4_addr empty_table))
send-handle_example = send-handle first_card second_card 0 16908298 empty_table empty_table
