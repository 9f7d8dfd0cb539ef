-- ===== src/Tcp/Respond.antt =====
-- The answers of kernel/src/net/tcp.c to one packet of a connection.
use nocturne_os_base.Prelude.{ℕ, ◌+◌, true, false, [], All, u32, ◌≡◌, refl, arith, ret, hang}
use nocturne_os_base.Endian.{ntohs, ntohl}
use nocturne_os_base.Checksum.Fold.{IsByte}
use nocturne_os_base.Tcp.{
  tcp_created, tcp_established, TcpConnection, TcpPacket, Segment, is_created, host_order, answer,
  data_packet, greeting, stage_1, stage_2, tcp_send_packet, respond,
}
use nocturne_os_base.Tcp.Seal.{sealed-sums}

-- A packet asks for a connection, or confirms it.
abbrev pub IsSyn : TcpPacket → Type 0
IsSyn p = (p.syn ≡ true) × (p.ack ≡ false) × (p.psh ≡ false) × (p.fin ≡ false)

abbrev pub IsAck : TcpPacket → Type 0
IsAck p = (p.syn ≡ false) × (p.ack ≡ true) × (p.psh ≡ false) × (p.fin ≡ false)

-- The connection after its first packet.
abbrev pub accepted : TcpConnection → ℕ → TcpPacket → TcpConnection
accepted c rand packet = record c {
  seq = rand;
  ack = u32 (ntohl packet.seq + 1);
  dest_port = ntohs (ntohs packet.destination);
  status = tcp_created;
}

-- And after its second.
abbrev pub established : TcpConnection → TcpConnection
established c = record c { seq = u32 (c.seq + 1); status = tcp_established }

greeting-All : All IsByte greeting
greeting-All = (
  omega arith,
  (
    omega arith,
    (
      omega arith,
      (
        omega arith,
        (
          omega arith,
          (
            omega arith,
            (
              omega arith,
              (
                omega arith,
                (
                  omega arith,
                  (omega arith, (omega arith, (omega arith, (omega arith, (omega arith, tt))))),
                ),
              ),
            ),
          ),
        ),
      ),
    ),
  ),
)

module _ (rand source destination : ℕ) (packet : TcpPacket) (c : TcpConnection) where
  pub respond-syn :
      IsSyn packet
      → c.status ≡ tcp_created
      → (segment : Segment) × (respond rand source destination (host_order packet) c
          ≡ ret (segment, accepted c rand packet))
        × (segment.to ≡ source)
        × ((k : ℕ) × (segment.packet
              ≡ record (answer (host_order packet) rand (u32 (ntohl packet.seq + 1))) {
                check = k;
              }))
  unfolding respond stage_1 is_created
  respond-syn (syn, no_ack, no_psh, no_fin) created =
      let p = host_order packet in
      let (k, e, _, _) =
        sealed-sums destination source (answer p rand (u32 (p.seq + 1))) [] tt (omega arith) in
      let first : stage_1 c.status p ≡ true =
        rw (created, stage_1) (rw syn (rw no_ack (rw no_psh (rw no_fin refl)))) in
      (
        record {
          to = source;
          packet = record (answer p rand (u32 (p.seq + 1))) { check = k };
          payload = [];
        },
        rw first (rw e refl),
        refl,
        (k, refl),
      )

  pub respond-ack :
      IsAck packet
      → c.status ≡ tcp_created
      → (segment : Segment) × (respond rand source destination (host_order packet) c
          ≡ ret (segment, established c))
        × (segment.to ≡ c.dest_ip_addr)
        × (segment.payload ≡ greeting)
  unfolding respond stage_1 stage_2 is_created tcp_send_packet
  respond-ack (no_syn, ack, no_psh, no_fin) created =
      let p = host_order packet in
      let c' : TcpConnection = established c in
      let (k, e, _, _) =
        sealed-sums c'.card c'.dest_ip_addr (data_packet c') greeting greeting-All (omega arith) in
      let not_first : stage_1 c.status p ≡ false = rw (created, stage_1) (rw no_syn refl) in
      let second : stage_2 c.status p ≡ true =
        rw (created, stage_2) (rw no_syn (rw ack (rw no_psh (rw no_fin refl)))) in
      (
        record {
          to = c'.dest_ip_addr;
          packet = record (data_packet c') { check = k };
          payload = greeting;
        },
        rw not_first (rw second (rw e refl)),
        refl,
        refl,
      )

  -- Once established, no packet is handled to its end.
  pub respond-established :
      c.status ≡ tcp_established → respond rand source destination (host_order packet) c ≡ hang
  unfolding respond stage_1 stage_2 is_created
  respond-established done = rw (done, respond) refl
