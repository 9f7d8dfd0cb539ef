-- ===== src/Tcp.antt =====
-- The connections of kernel/src/net/tcp.c. The child modules prove what holds of them.
--
-- An address of four bytes is a number, a flag of a packet is a Boolean. The number that `rand` gives and the bytes of `tcp_packet_t`
-- before its checksum are read off the packet; what is sent is a list of packets with the address they go to.
-- An index of -1 into the table is `fault`, and the endless loop of the third branch `hang`. Log calls are left out.
mod Packet
unfoldable pub use Packet.*
pub mod Connect
pub mod Seal
pub mod Respond
pub mod Handshake
mod Tests
use nocturne_os_base.Prelude.{
  ℕ, zero, suc, ◌+◌, ◌*◌, ◌%◌, ◌/◌, ◌^◌, Bool, true, false, not, ◌&&◌, ◌||◌, Option, none, some,
  List, [], ◌∷◌, ◌++◌, ◌==◌, if◌then◌else◌, get_or, set, u16, u32, length, take, Outcome, ret, hang,
  fault, ◌>>=◌,
}
use nocturne_os_base.Endian.{htons, ntohs, htonl, ntohl}
use nocturne_os_base.Checksum.{checksum}

-- `tcp_connection_status_t`.
pub data Status : Type 0 where
  tcp_none : Status
  tcp_created : Status
  tcp_listening : Status
  tcp_established : Status

pub is_none : Status → Bool
is_none tcp_none = true
is_none tcp_created = false
is_none tcp_listening = false
is_none tcp_established = false

pub is_created : Status → Bool
is_created tcp_none = false
is_created tcp_created = true
is_created tcp_listening = false
is_created tcp_established = false

-- `tcp_connection_t`; a card is the address that it has.
pub record TcpConnection : Type 0 where
  pub card : ℕ
  pub dest_ip_addr : ℕ
  pub source_port : ℕ
  pub dest_port : ℕ
  pub seq : ℕ
  pub ack : ℕ
  pub status : Status

abbrev pub no_connection : TcpConnection
no_connection = record {
  card = 0;
  dest_ip_addr = 0;
  source_port = 0;
  dest_port = 0;
  seq = 0;
  ack = 0;
  status = tcp_none;
}

pub connects : TcpConnection → ℕ → ℕ → Bool
connects c address port =
    c.dest_ip_addr == address
    && (c.source_port == port || c.dest_port == port)
    && not (is_none c.status)

-- The loop from index `i` on; `none` is -1.
pub tcp_find_connection : List TcpConnection → ℕ → ℕ → ℕ → Option ℕ
tcp_find_connection [] address port i = none
tcp_find_connection (c ∷ cs) address port i =
    let rest = tcp_find_connection cs address port (i + 1) in
    if connects c address port then some i else rest

pub is_free : TcpConnection → Bool
is_free c = c.dest_ip_addr == 0 && c.source_port == 0 && is_none c.status

pub free_index : List TcpConnection → ℕ → Option ℕ
free_index [] i = none
free_index (c ∷ cs) i = let rest = free_index cs (i + 1) in if is_free c then some i else rest

pub tcp_new_connection : ℕ → ℕ → ℕ → ℕ → List TcpConnection → Bool × List TcpConnection
tcp_new_connection card address port seq_nr connections = elim (free_index connections 0) [
  | none ↦ (false, connections)
  | some index ↦ (
    true,
    set connections index (record (get_or connections index no_connection) {
      dest_ip_addr = address;
      source_port = u16 port;
      status = tcp_created;
      seq = seq_nr;
      card = card;
    }),
  )
]

-- The packet of `tcp_send_packet` for a connection whose `seq` has gone up by one.
abbrev pub data_packet : TcpConnection → TcpPacket
data_packet c = record empty_packet {
  source = c.dest_port;
  destination = c.source_port;
  window = 0xfffa;
  psh = true;
  ack = true;
  seq = htonl c.seq;
  ack_seq = htonl c.ack;
  doff = 5;
}

pub tcp_send_packet : TcpConnection → List ℕ → Outcome (Segment × TcpConnection)
tcp_send_packet connection payload =
    let c = record connection { seq = u32 (connection.seq + 1) } in
    sealed c.card c.dest_ip_addr (data_packet c) payload >>= λ segment. ret (segment, c)

-- The answer to a packet that asks for a connection, before its checksum. The fields of `p` are in the order of the host.
abbrev pub answer : TcpPacket → ℕ → ℕ → TcpPacket
answer p seq ack = record p {
  ack = true;
  syn = true;
  seq = htonl seq;
  ack_seq = htonl ack;
  source = ntohs p.destination;
  destination = ntohs p.source;
  doff = 5;
}

-- `"Hello, world!\n"`.
abbrev pub greeting : List ℕ
greeting = 72 ∷ 101 ∷ 108 ∷ 108 ∷ 111 ∷ 44 ∷ 32 ∷ 119 ∷ 111 ∷ 114 ∷ 108 ∷ 100 ∷ 33 ∷ 10 ∷ []

-- The swaps at the start of `tcp_handle_packet`.
abbrev pub host_order : TcpPacket → TcpPacket
host_order packet = record packet {
  source = ntohs packet.source;
  destination = ntohs packet.destination;
  ack_seq = ntohl packet.ack_seq;
  seq = ntohl packet.seq;
}

pub stage_1 : Status → TcpPacket → Bool
stage_1 status p = is_created status && p.syn && not p.ack && not p.psh && not p.fin

pub stage_2 : Status → TcpPacket → Bool
stage_2 status p = is_created status && not p.syn && p.ack && not p.psh && not p.fin

-- From the connection on: the answer of stage 1 or 2.
pub respond : ℕ → ℕ → ℕ → TcpPacket → TcpConnection → Outcome (Segment × TcpConnection)
respond rand source destination p c =
    let ack = u32 (p.seq + 1) in
    let accepted = sealed destination source (answer p rand ack) [] >>= λ segment. ret (
      segment,
      record c { seq = rand; ack = ack; dest_port = ntohs p.destination; status = tcp_created },
    ) in
    let established = tcp_send_packet (record c { status = tcp_established }) greeting in
    if stage_1 c.status p then accepted else if stage_2 c.status p then established else hang

-- The table once the connection is made, if there is none for the address and the port.
pub open_connection : ℕ → ℕ → ℕ → ℕ → List TcpConnection → List TcpConnection
open_connection card source port seq_nr connections =
    elim (tcp_find_connection connections source port 0) [
      | some index ↦ connections
      | none ↦ (tcp_new_connection card source port seq_nr connections).1
    ]

-- What follows: the second search, and the answer.
pub serve : ℕ → ℕ → ℕ → TcpPacket → ℕ → List TcpConnection → Outcome (Segment × List TcpConnection)
serve rand source destination p port connections =
    elim (tcp_find_connection connections source port 0) [
      | none ↦ fault
      | some idx ↦ respond rand source destination p (get_or connections idx no_connection) >>= λ r.
          ret (r.0, set connections idx r.1)
    ]

-- `source` and `destination` are the addresses of the IPv4 header.
pub tcp_handle_packet :
    ℕ → ℕ → ℕ → ℕ → TcpPacket → List TcpConnection → Outcome (Segment × List TcpConnection)
tcp_handle_packet rand card source destination packet connections =
    let p = host_order packet in
    let sp_port = ntohs p.source in
    serve rand source destination p sp_port (open_connection card source sp_port p.seq connections)
