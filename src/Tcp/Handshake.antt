-- ===== src/Tcp/Handshake.antt =====
-- The states of a connection in kernel/src/net/tcp.c as packets arrive.
use nocturne_os_base.Prelude.{
  ℕ, ◌+◌, ◌^◌, ◌<◌, Bool, true, none, some, List, get_or, set, length, u32, ◌≡◌, ◌≢◌, refl, arith,
  ap, ◌∙◌, sym, inl, inr, ret, hang, fault, get_or-set_self, get_or-set_ne, length-set,
}
use nocturne_os_base.Endian.{ntohs, ntohl}
use nocturne_os_base.Tcp.{
  tcp_created, tcp_established, TcpConnection, no_connection, TcpPacket, Segment, connects, is_none,
  tcp_find_connection, tcp_new_connection, host_order, answer, greeting, respond, tcp_handle_packet,
  free_index, open_connection, serve,
}
use nocturne_os_base.Tcp.Connect.{
  find-connects, find-set, tcp_new_connection_full, tcp_new_connection-find,
}
use nocturne_os_base.Tcp.Respond.{
  IsSyn, IsAck, accepted, established, respond-syn, respond-ack, respond-established,
}

-- A packet for which the search finds connection `i` of the table that `open_connection` leaves.
handle_at :
    (rand card source destination i : ℕ) (packet : TcpPacket) (cs cs' : List TcpConnection)
    (segment : Segment) (c : TcpConnection)
    → let port = ntohs (ntohs packet.source) in
      open_connection card source port (ntohl packet.seq) cs ≡ cs'
      → tcp_find_connection cs' source port 0 ≡ some i
      → respond rand source destination (host_order packet) (get_or cs' i no_connection)
        ≡ ret (segment, c)
      → tcp_handle_packet rand card source destination packet cs ≡ ret (segment, set cs' i c)
unfolding tcp_handle_packet serve
handle_at rand card source destination i packet cs cs' segment c opened found e =
    let port = ntohs (ntohs packet.source) in
    let served : serve rand source destination (host_order packet) port cs'
        ≡ ret (segment, set cs' i c) =
      rw (found, serve) (rw e refl) in
    ap (serve rand source destination (host_order packet) port) opened ∙ served

open_known :
    (card source port seq_nr i : ℕ) (cs : List TcpConnection)
    → tcp_find_connection cs source port 0 ≡ some i
    → open_connection card source port seq_nr cs ≡ cs
unfolding open_connection
open_known card source port seq_nr i cs found = rw (found, open_connection) refl

open_new :
    (card source port seq_nr : ℕ) (cs cs' : List TcpConnection)
    → tcp_find_connection cs source port 0 ≡ none
    → tcp_new_connection card source port seq_nr cs ≡ (true, cs')
    → open_connection card source port seq_nr cs ≡ cs'
unfolding open_connection
open_new card source port seq_nr cs cs' absent opened =
    rw (absent, open_connection) (ap (λ (r : Bool × List TcpConnection). r.1) opened)

found_after :
    (cs : List TcpConnection) (source port i : ℕ) (c : TcpConnection)
    → tcp_find_connection cs source port 0 ≡ some i
    → connects c source port ≡ true
    → tcp_find_connection (set cs i c) source port 0 ≡ some i
found_after cs source port i c found connected =
    let index : 0 + i ≡ i = omega arith in
    find-set cs source port 0 i c (found ∙ ap some (sym index)) connected ∙ ap some index

-- What two packets of one address and port leave: connection `i` is established and the others are untouched; both answers go to the
-- address, the second one with the greeting.
pub record Establishes (r r' card source destination : ℕ) (syn ack : TcpPacket)
    (cs : List TcpConnection) (i : ℕ) (first second : Segment) (cs₁ cs₂ : List TcpConnection)
    : Type 0 where
  pub first_runs : tcp_handle_packet r card source destination syn cs ≡ ret (first, cs₁)
  pub first_status : (get_or cs₁ i no_connection).status ≡ tcp_created
  pub first_to : first.to ≡ source
  pub first_answer :
      (k : ℕ) × (first.packet
        ≡ record (answer (host_order syn) r (u32 (ntohl syn.seq + 1))) { check = k })
  pub second_runs : tcp_handle_packet r' card source destination ack cs₁ ≡ ret (second, cs₂)
  pub second_status : (get_or cs₂ i no_connection).status ≡ tcp_established
  pub second_to : second.to ≡ source
  pub second_payload : second.payload ≡ greeting
  pub others : (j : ℕ) → j ≢ i → get_or cs₂ j no_connection ≡ get_or cs j no_connection

-- A packet that asks for a connection, from an address and a port that have none, and the confirmation after it, establish
-- a connection if an entry of the table is free.
pub handshake-Establishes :
    (r r' card source destination : ℕ) (syn ack : TcpPacket) (cs : List TcpConnection)
    → let port = ntohs (ntohs syn.source) in
      port < 2 ^ 16
      → tcp_find_connection cs source port 0 ≡ none
      → free_index cs 0 ≢ none
      → ack.source ≡ syn.source
      → IsSyn syn
      → IsAck ack
      → (i : ℕ) × (first : Segment) × (second : Segment) × (cs₁ : List TcpConnection) × (cs₂ : List
          TcpConnection)
        × Establishes r r' card source destination syn ack cs i first second cs₁ cs₂
unfolding connects is_none
handshake-Establishes r r' card source destination syn ack cs small absent free same is_syn is_ack =
    let port = ntohs (ntohs syn.source) in
    elim (tcp_new_connection-find card source port (ntohl syn.seq) cs small absent) [
      | inl (_, full) ↦ absurd (free full)
      | inr (i, cs', opened, inside, found, at, rest) ↦
          let c₀ = get_or cs' i no_connection in
          let c₁ : TcpConnection = accepted c₀ r syn in
          let cs₁ = set cs' i c₁ in
          let c₂ : TcpConnection = established (get_or cs₁ i no_connection) in
          let inside' : i < length cs' =
            (let (j, e, lt, _) = find-connects cs' source port 0 i found in omega (arith, e, lt)) in
          let (first, e₁, to₁, answer₁) =
            respond-syn r source destination syn c₀ is_syn
              (ap (λ (c : TcpConnection). c.status) at) in
          let connected : connects c₁ source port ≡ true = ground (
            arith,
            ap (λ (c : TcpConnection). c.dest_ip_addr) at,
            ap (λ (c : TcpConnection). c.source_port) at,
          ) in
          let get₁ : get_or cs₁ i no_connection ≡ c₁ =
            get_or-set_self cs' i c₁ no_connection inside' in
          let found₁ : tcp_find_connection cs₁ source port 0 ≡ some i =
            found_after cs' source port i c₁ found connected in
          let found₂ : tcp_find_connection cs₁ source (ntohs (ntohs ack.source)) 0 ≡ some i =
            ap (λ (a : ℕ). tcp_find_connection cs₁ source (ntohs (ntohs a)) 0) same ∙ found₁ in
          let (second, e₂, to₂, payload₂) =
            respond-ack r' source destination ack (get_or cs₁ i no_connection) is_ack
              (ap (λ (c : TcpConnection). c.status) get₁) in
          let to_source : (get_or cs₁ i no_connection).dest_ip_addr ≡ source =
            ap (λ (c : TcpConnection). c.dest_ip_addr) get₁
            ∙ ap (λ (c : TcpConnection). c.dest_ip_addr) at in
          (
            i,
            first,
            second,
            cs₁,
            set cs₁ i c₂,
            record {
              first_runs =
                  handle_at r card source destination i syn cs cs' first c₁
                    (open_new card source port (ntohl syn.seq) cs cs' absent opened) found e₁;
              first_status = ap (λ (c : TcpConnection). c.status) get₁;
              first_to = to₁;
              first_answer = answer₁;
              second_runs =
                  handle_at r' card source destination i ack cs₁ cs₁ second c₂
                    (open_known card source (ntohs (ntohs ack.source)) (ntohl ack.seq) i cs₁ found₂)
                    found₂ e₂;
              second_status =
                  ap (λ (c : TcpConnection). c.status)
                    (get_or-set_self cs₁ i c₂ no_connection
                      (omega (arith, length-set cs' i c₁, inside')));
              second_to = to₂ ∙ to_source;
              second_payload = payload₂;
              others = λ j ne.
                  get_or-set_ne cs₁ i j c₂ no_connection (λ e. ne (sym e))
                  ∙ get_or-set_ne cs' i j c₁ no_connection (λ e. ne (sym e))
                  ∙ rest j ne;
            },
          )
    ]

-- No packet for an established connection is handled to its end: the handler stops for ever.
pub established-hangs :
    (rand card source destination i : ℕ) (packet : TcpPacket) (cs : List TcpConnection)
    → tcp_find_connection cs source (ntohs (ntohs packet.source)) 0 ≡ some i
    → (get_or cs i no_connection).status ≡ tcp_established
    → tcp_handle_packet rand card source destination packet cs ≡ hang
unfolding tcp_handle_packet serve
established-hangs rand card source destination i packet cs found done =
    let port = ntohs (ntohs packet.source) in
    let served : serve rand source destination (host_order packet) port cs ≡ hang =
      rw (found, serve)
        (rw (respond-established rand source destination packet (get_or cs i no_connection) done)
          refl) in
    ap (serve rand source destination (host_order packet) port)
      (open_known card source port (ntohl packet.seq) i cs found)
    ∙ served

-- A packet from an unknown address or port, when no entry of the table is free, makes the handler leave the table.
pub full-faults :
    (rand card source destination : ℕ) (packet : TcpPacket) (cs : List TcpConnection)
    → tcp_find_connection cs source (ntohs (ntohs packet.source)) 0 ≡ none
    → free_index cs 0 ≡ none
    → tcp_handle_packet rand card source destination packet cs ≡ fault
unfolding tcp_handle_packet serve open_connection
full-faults rand card source destination packet cs absent full =
    let port = ntohs (ntohs packet.source) in
    let refused : open_connection card source port (ntohl packet.seq) cs ≡ cs =
      rw (absent, open_connection)
        (ap (λ (r : Bool × List TcpConnection). r.1)
          (tcp_new_connection_full card source port (ntohl packet.seq) cs full)) in
    let served : serve rand source destination (host_order packet) port cs ≡ fault =
      rw (absent, serve) refl in
    ap (serve rand source destination (host_order packet) port) refused ∙ served
