-- ===== src/Tcp/Tests.antt =====
-- Connections at small tables.
use nocturne_os_base.Prelude.{
  ℕ, true, false, none, some, List, [], ◌∷◌, replicate, ◌≡◌, ◌≢◌, refl, arith, hang,
}
use nocturne_os_base.Endian.{ntohs}
use nocturne_os_base.Endian.Laws.{ntohs-ntohs}
use nocturne_os_base.Tcp.{
  TcpConnection, no_connection, TcpPacket, Segment, empty_packet, tcp_established,
  tcp_find_connection, free_index, is_free, connects, is_none, tcp_handle_packet,
}
use nocturne_os_base.Tcp.Handshake.{Establishes, handshake-Establishes, established-hangs}

abbrev free_table : List TcpConnection
free_table = replicate 2 no_connection

abbrev asking : TcpPacket
asking = record empty_packet { source = 20480; destination = 36895; syn = true }

abbrev confirming : TcpPacket
confirming = record asking { syn = false; ack = true }

abbrev busy_table : List TcpConnection
busy_table =
    record no_connection { dest_ip_addr = 7; source_port = 20480; status = tcp_established } ∷ []

known_port : ntohs (ntohs 20480) ≡ 20480
known_port = ntohs-ntohs 20480 (omega arith)

free_table-find : (port : ℕ) → tcp_find_connection free_table 9 port 0 ≡ none
unfolding tcp_find_connection connects is_none
free_table-find port = refl

free_table-free : free_index free_table 0 ≢ none
unfolding free_index is_free is_none
free_table-free e = ground (arith, e)

handshake-Establishes_example :
    (i : ℕ) × (first : Segment) × (second : Segment) × (cs₁ : List TcpConnection) × (cs₂ : List
      TcpConnection)
    × Establishes 77 88 1 9 2 asking confirming free_table i first second cs₁ cs₂
handshake-Establishes_example =
    handshake-Establishes 77 88 1 9 2 asking confirming free_table (omega (arith, known_port))
      (free_table-find (ntohs (ntohs 20480))) free_table-free refl (refl, refl, refl, refl)
      (refl, refl, refl, refl)

busy_table-find : tcp_find_connection busy_table 7 (ntohs (ntohs 20480)) 0 ≡ some 0
unfolding tcp_find_connection connects is_none
busy_table-find = ground (arith, known_port)

established-hangs_example : tcp_handle_packet 77 1 7 2 asking busy_table ≡ hang
established-hangs_example = established-hangs 77 1 7 2 0 asking busy_table busy_table-find refl

busy_table-none : tcp_find_connection busy_table 8 (ntohs (ntohs 20480)) 0 ≡ none
unfolding tcp_find_connection connects is_none
busy_table-none = refl

busy_table-full : free_index busy_table 0 ≡ none
unfolding free_index is_free is_none
busy_table-full = refl
