-- ===== src/Network/Resolve.antt =====
-- The tries of ipv4_send_packet to find an address.
use nocturne_os_base.Prelude.{
  ℕ, zero, suc, ◌+◌, ◌-◌, ◌<◌, ◌≡◌, refl, ap, ◌∙◌, ◌==◌, false, Option, none, some, List, [], ◌++◌,
  arith,
}
use nocturne_os_base.Arp.{ArpTable, Netcard, arp_lookup, arp_send_packet}
use nocturne_os_base.Network.{
  Sent, requests, resolve, transmit, ipv4_packet, ipv4_send_packet, ethernet_send_packet,
  ethernet_type_ipv4,
}

-- The same request a number of times.
abbrev pub asks : ℕ → Netcard → ℕ → List Sent
asks zero card ip = []
asks (suc n) card ip = requests (arp_send_packet card 0 ip) ++ asks n card ip

module _ (card : Netcard) (ip : ℕ) (tables : ℕ → ArpTable) where
  found_now :
      (spin mac i : ℕ)
      → arp_lookup (tables i) ip ≡ some mac
      → resolve (suc spin) card ip tables i ≡ (some mac, [])
  unfolding resolve
  found_now spin mac i e = rw (e, resolve) refl

  last_missed : (i : ℕ) → arp_lookup (tables i) ip ≡ none → resolve 1 card ip tables i ≡ (none, [])
  unfolding resolve
  last_missed i e = rw (e, resolve) refl

  missed_step :
      (spin i : ℕ)
      → arp_lookup (tables i) ip ≡ none
      → resolve (suc (suc spin)) card ip tables i ≡ (
        (resolve (suc spin) card ip tables (i + 1)).0,
        requests (arp_send_packet card 0 ip) ++ (resolve (suc spin) card ip tables (i + 1)).1,
      )
  unfolding resolve
  missed_step spin i e =
      let more : (suc spin == 0) ≡ false = ground arith in rw (e, resolve) (rw more refl)

  missed :
      (spin i : ℕ) (found : Option ℕ) (sent : List Sent)
      → arp_lookup (tables i) ip ≡ none
      → resolve (suc spin) card ip tables (i + 1) ≡ (found, sent)
      → resolve (suc (suc spin)) card ip tables i
        ≡ (found, requests (arp_send_packet card 0 ip) ++ sent)
  missed spin i found sent e later =
      missed_step spin i e
      ∙ ap (λ (r : Option ℕ × List Sent). (r.0, requests (arp_send_packet card 0 ip) ++ r.1)) later

  resolve-later :
      (k spare i mac : ℕ)
      → ((j : ℕ) → j < k → arp_lookup (tables (i + j)) ip ≡ none)
      → arp_lookup (tables (i + k)) ip ≡ some mac
      → resolve (suc (k + spare)) card ip tables i ≡ (some mac, asks k card ip)
  resolve-later zero spare i mac before at =
      found_now (zero + spare) mac i (ap (λ j. arp_lookup (tables j) ip) (omega arith) ∙ at)
  resolve-later (suc k) spare i mac before at =
      let e : suc k + spare ≡ suc (k + spare) = omega arith in
      ap (λ n. resolve (suc n) card ip tables i) e
      ∙ missed (k + spare) i (some mac) (asks k card ip)
          (ap (λ j. arp_lookup (tables j) ip) (omega arith) ∙ before 0 (omega arith))
          (resolve-later k spare (i + 1) mac
            (λ j l. ap (λ n. arp_lookup (tables n) ip) (omega arith) ∙ before (suc j) (omega arith))
            (ap (λ n. arp_lookup (tables n) ip) (omega arith) ∙ at))

  resolve-never :
      (spin i : ℕ)
      → ((j : ℕ) → j < suc spin → arp_lookup (tables (i + j)) ip ≡ none)
      → resolve (suc spin) card ip tables i ≡ (none, asks spin card ip)
  resolve-never zero i none_there =
      last_missed i (ap (λ j. arp_lookup (tables j) ip) (omega arith) ∙ none_there 0 (omega arith))
  resolve-never (suc spin) i none_there =
      missed spin i none (asks spin card ip)
        (ap (λ j. arp_lookup (tables j) ip) (omega arith) ∙ none_there 0 (omega arith))
        (resolve-never spin (i + 1) (λ j l.
          ap (λ n. arp_lookup (tables n) ip) (omega arith) ∙ none_there (suc j) (omega arith)))

  -- `ipv4_send_packet` to an address that lookup `k`, of the ten, is the first to find sends `k` requests and then one frame to it.
  pub ipv4_send_packet-Finds :
      (payload : List ℕ) (protocol k mac : ℕ)
      → k < 10
      → ((j : ℕ) → j < k → arp_lookup (tables j) ip ≡ none)
      → arp_lookup (tables k) ip ≡ some mac
      → ipv4_send_packet card ip payload protocol tables
        ≡ asks k card ip
          ++ ethernet_send_packet card mac
              (ipv4_packet card.ipv4_addr ip payload protocol)
              ethernet_type_ipv4
  unfolding ipv4_send_packet
  ipv4_send_packet-Finds payload protocol k mac l before at =
      let packet = ipv4_packet card.ipv4_addr ip payload protocol in
      let e : 10 ≡ suc (k + (9 - k)) = omega arith in
      ap (λ n. transmit card packet (resolve n card ip tables 0)) e
      ∙ ap (transmit card packet) (
          resolve-later k (9 - k) 0 mac
            (λ j m. ap (λ n. arp_lookup (tables n) ip) (omega arith) ∙ before j m)
            (ap (λ n. arp_lookup (tables n) ip) (omega arith) ∙ at))

  -- `ipv4_send_packet` to an address that none of its ten lookups finds sends nine requests and nothing else.
  pub ipv4_send_packet_unreachable :
      (payload : List ℕ) (protocol : ℕ)
      → ((j : ℕ) → j < 10 → arp_lookup (tables j) ip ≡ none)
      → ipv4_send_packet card ip payload protocol tables ≡ asks 9 card ip
  unfolding ipv4_send_packet
  ipv4_send_packet_unreachable payload protocol never =
      ap (transmit card (ipv4_packet card.ipv4_addr ip payload protocol))
        (resolve-never 9 0 (λ j m. ap (λ n. arp_lookup (tables n) ip) (omega arith) ∙ never j m))
