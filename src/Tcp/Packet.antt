-- ===== src/Tcp/Packet.antt =====
-- The packets of kernel/src/net/tcp.c as bytes, and their checksums.
use nocturne_os_base.Prelude.{
  ℕ, ◌+◌, ◌*◌, ◌%◌, ◌/◌, Bool, false, List, [], ◌∷◌, ◌++◌, if◌then◌else◌, u16, length, take,
  Outcome, ret, ◌>>=◌,
}
use nocturne_os_base.Endian.{htons}
use nocturne_os_base.Checksum.{checksum}

-- `tcp_packet_t`.
pub record TcpPacket : Type 0 where
  pub source : ℕ
  pub destination : ℕ
  pub seq : ℕ
  pub ack_seq : ℕ
  pub res1 : ℕ
  pub doff : ℕ
  pub fin : Bool
  pub syn : Bool
  pub rst : Bool
  pub psh : Bool
  pub ack : Bool
  pub urg : Bool
  pub res2 : ℕ
  pub window : ℕ
  pub check : ℕ
  pub urg_ptr : ℕ

abbrev pub bytes16 : ℕ → List ℕ
bytes16 n = n % 256 ∷ n / 256 % 256 ∷ []

abbrev pub bytes32 : ℕ → List ℕ
bytes32 n = bytes16 (n % 65536) ++ bytes16 (n / 65536)

abbrev pub bit : Bool → ℕ
bit b = if b then 1 else 0

-- The packed structure, low bytes and low bits first.
unfoldable pub packet_bytes : TcpPacket → List ℕ
packet_bytes p =
    bytes16 p.source
    ++ (bytes16 p.destination
        ++ (bytes32 p.seq
            ++ (bytes32 p.ack_seq
                ++ (bytes16 (
                      p.res1 % 16
                      + p.doff % 16 * 16
                      + bit p.fin * 256
                      + bit p.syn * 512
                      + bit p.rst * 1024
                      + bit p.psh * 2048
                      + bit p.ack * 4096
                      + bit p.urg * 8192
                      + p.res2 % 4 * 16384)
                    ++ (bytes16 p.window ++ (bytes16 p.check ++ bytes16 p.urg_ptr))))))

-- The pseudo header, the packet and the data behind it. The buffer for them is taken to be granted.
unfoldable pub tcp_calculate_checksum : ℕ → ℕ → TcpPacket → List ℕ → Outcome ℕ
tcp_calculate_checksum src_addr dst_addr packet payload =
    let tcp_length = u16 (length (packet_bytes packet ++ payload)) in
    checksum (
      bytes32 src_addr
      ++ (bytes32 dst_addr
          ++ (0
              ∷ 6
              ∷ (bytes16 (htons tcp_length) ++ take tcp_length (packet_bytes packet ++ payload)))))

-- A packet and the data behind it, for an address.
pub record Segment : Type 0 where
  pub to : ℕ
  pub packet : TcpPacket
  pub payload : List ℕ

-- With its checksum, over the packet with a zero in its place.
unfoldable pub sealed : ℕ → ℕ → TcpPacket → List ℕ → Outcome Segment
sealed src_ip dst_ip packet payload =
    let cleared = record packet { check = 0 } in
    tcp_calculate_checksum src_ip dst_ip cleared payload >>= λ c.
    ret (record { to = dst_ip; packet = record packet { check = c }; payload = payload })

abbrev pub empty_packet : TcpPacket
empty_packet = record {
  source = 0;
  destination = 0;
  seq = 0;
  ack_seq = 0;
  res1 = 0;
  doff = 0;
  fin = false;
  syn = false;
  rst = false;
  psh = false;
  ack = false;
  urg = false;
  res2 = 0;
  window = 0;
  check = 0;
  urg_ptr = 0;
}
