-- ===== src/Tcp/Seal.antt =====
-- The checksums of the packets that kernel/src/net/tcp.c sends.
use nocturne_os_base.Prelude.{
  ℕ, zero, suc, ◌+◌, ◌%◌, ◌^◌, ◌≤◌, ◌<◌, List, [], ◌∷◌, ◌++◌, All, length, take, length-take, u16,
  ◌≡◌, refl, arith, ret,
}
use nocturne_os_base.Endian.{htons}
use nocturne_os_base.Checksum.Fold.{IsByte, total, checksum-sums}
use nocturne_os_base.Tcp.{TcpPacket, bytes16, bytes32, packet_bytes, tcp_calculate_checksum, sealed}

-- The pseudo header, the packet and the data.
abbrev pub covered : ℕ → ℕ → TcpPacket → List ℕ → List ℕ
covered src_addr dst_addr packet payload =
    let tcp_length = u16 (length (packet_bytes packet ++ payload)) in
    bytes32 src_addr
    ++ (bytes32 dst_addr
        ++ (0
            ∷ 6
            ∷ (bytes16 (htons tcp_length) ++ take tcp_length (packet_bytes packet ++ payload))))

take-All : (n : ℕ) (xs : List ℕ) → All IsByte xs → All IsByte (take n xs)
take-All zero xs h = tt
take-All (suc n) [] h = tt
take-All (suc n) (x ∷ xs) (b, h) = (b, take-All n xs h)

packet_bytes-All :
    (p : TcpPacket) (payload : List ℕ) → All IsByte payload → All IsByte (packet_bytes p ++ payload)
unfolding packet_bytes
packet_bytes-All p payload h = (
  omega arith,
  (
    omega arith,
    (
      omega arith,
      (
        omega arith,
        (
          omega arith,
          (
            omega arith,
            (
              omega arith,
              (
                omega arith,
                (
                  omega arith,
                  (
                    omega arith,
                    (
                      omega arith,
                      (
                        omega arith,
                        (
                          omega arith,
                          (
                            omega arith,
                            (
                              omega arith,
                              (
                                omega arith,
                                (omega arith, (omega arith, (omega arith, (omega arith, h)))),
                              ),
                            ),
                          ),
                        ),
                      ),
                    ),
                  ),
                ),
              ),
            ),
          ),
        ),
      ),
    ),
  ),
)

-- A packet with at most 60000 bytes of data gets a checksum: the header fields, the data and the checksum
-- add up to zero modulo 65535.
pub sealed-sums :
    (src dst : ℕ) (p : TcpPacket) (payload : List ℕ)
    → All IsByte payload
    → length payload ≤ 60000
    → (c : ℕ) × (sealed src dst p payload
        ≡ ret (record { to = dst; packet = record p { check = c }; payload = payload }))
      × (c < 2 ^ 16)
      × ((total (covered src dst (record p { check = 0 }) payload) + c) % 65535 ≡ 0)
unfolding sealed tcp_calculate_checksum packet_bytes
sealed-sums src dst p payload h short =
    let cleared : TcpPacket = record p { check = 0 } in
    let body = packet_bytes cleared ++ payload in
    let tcp_length = u16 (length body) in
    let bytes = covered src dst cleared payload in
    let all : All IsByte bytes = (
      omega arith,
      (
        omega arith,
        (
          omega arith,
          (
            omega arith,
            (
              omega arith,
              (
                omega arith,
                (
                  omega arith,
                  (
                    omega arith,
                    (
                      omega arith,
                      (
                        omega arith,
                        (
                          omega arith,
                          (
                            omega arith,
                            take-All tcp_length body (packet_bytes-All cleared payload h),
                          ),
                        ),
                      ),
                    ),
                  ),
                ),
              ),
            ),
          ),
        ),
      ),
    ) in
    let size : length bytes ≤ 65536 = omega (arith, length-take tcp_length body) in
    let (c, e, small, sums) = checksum-sums bytes all size in (c, rw e refl, small, sums)
