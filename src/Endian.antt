-- ===== src/Endian.antt =====
-- The byte order of kernel/src/net/endianess.c.
--
-- `bit_flip_int` reads the bytes of its argument in the order of a little-endian machine.
pub mod Laws
use nocturne_os_base.Prelude.{ℕ, ◌-◌, u8, u16, u32, ◌<<<◌, ◌>>>◌, bit_and, bit_or}

-- For 0 to 8 bits.
pub bit_flip_byte : ℕ → ℕ → ℕ
bit_flip_byte byte num_bits =
    let x = u8 (byte <<< (8 - num_bits)) in u8 (bit_or x (byte >>> num_bits))

pub bit_flip_short : ℕ → ℕ
bit_flip_short short_int =
    u16 (bit_or (bit_and short_int 0x00ff <<< 8) (bit_and short_int 0xff00 >>> 8))

pub bit_flip_int : ℕ → ℕ
bit_flip_int long_int =
    let first_byte = u8 long_int in
    let second_byte = u8 (long_int >>> 8) in
    let third_byte = u8 (long_int >>> 16) in
    let fourth_byte = u8 (long_int >>> 24) in
    bit_or (bit_or (bit_or (u32 (first_byte <<< 24)) (second_byte <<< 16)) (third_byte <<< 8))
      fourth_byte

pub htonb : ℕ → ℕ → ℕ
htonb byte num_bits = bit_flip_byte byte num_bits

pub ntohb : ℕ → ℕ → ℕ
ntohb byte num_bits = bit_flip_byte byte (8 - num_bits)

pub htons : ℕ → ℕ
htons hostshort = bit_flip_short hostshort

pub htonl : ℕ → ℕ
htonl hostlong = bit_flip_int hostlong

pub ntohs : ℕ → ℕ
ntohs netshort = bit_flip_short netshort

pub ntohl : ℕ → ℕ
ntohl netlong = bit_flip_int netlong
