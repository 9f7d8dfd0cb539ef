-- ===== src/Endian/Laws.antt =====
-- The conversions of kernel/src/net/endianess.c swap the bytes and undo each other.
use nocturne_os_base.Prelude.{
  ℕ, ◌+◌, ◌*◌, ◌/◌, ◌%◌, ◌^◌, ◌<◌, u16, u32, ◌<<<◌, ◌>>>◌, bit_and, bit_or, ◌≡◌, arith, ap, ◌∙◌,
}
use nocturne_os_base.Prelude.Bits.{bit_and_mask, bit_or_low, bit_and_step}
use nocturne_os_base.Endian.{bit_flip_short, bit_flip_int, htons, htonl, ntohs, ntohl}

halves : (x y : ℕ) → bit_and x y / 2 ≡ bit_and (x / 2) (y / 2)
halves x y = omega (arith, bit_and_step x y)

high_byte : (x : ℕ) → bit_and x 0xff00 / 256 ≡ x / 256 % 256
high_byte x = omega (
  arith,
  halves x 0xff00,
  halves (x / 2) 0x7f80,
  halves (x / 2 / 2) 0x3fc0,
  halves (x / 2 / 2 / 2) 0x1fe0,
  halves (x / 2 / 2 / 2 / 2) 0x0ff0,
  halves (x / 2 / 2 / 2 / 2 / 2) 0x07f8,
  halves (x / 2 / 2 / 2 / 2 / 2 / 2) 0x03fc,
  halves (x / 2 / 2 / 2 / 2 / 2 / 2 / 2) 0x01fe,
  bit_and_mask 8 (x / 2 / 2 / 2 / 2 / 2 / 2 / 2 / 2),
)

-- The two bytes of a 16-bit number change places.
pub bit_flip_short_lem : (x : ℕ) → x < 2 ^ 16 → bit_flip_short x ≡ x % 256 * 256 + x / 256
unfolding bit_flip_short
bit_flip_short_lem x small =
    let low : bit_and x 0x00ff ≡ x % 256 = bit_and_mask 8 x in
    let high : bit_and x 0xff00 / 256 ≡ x / 256 = omega (arith, high_byte x) in
    ap (λ (l : ℕ). u16 (bit_or (l <<< 8) (bit_and x 0xff00 >>> 8))) low
    ∙ ap (λ (h : ℕ). u16 (bit_or (x % 256 * 256) h)) high
    ∙ ap (λ (t : ℕ). u16 t) (bit_or_low 8 (x % 256) (x / 256) (omega arith))
    ∙ omega arith

-- The four bytes of a 32-bit number stand in the other order.
pub bit_flip_int_lem :
    (x : ℕ)
    → x < 2 ^ 32
    → bit_flip_int x
      ≡ x % 256 * 16777216 + x / 256 % 256 * 65536 + x / 65536 % 256 * 256 + x / 16777216
unfolding bit_flip_int
bit_flip_int_lem x small =
    let a = x % 256 in
    let b = x / 256 % 256 in
    let c = x / 65536 % 256 in
    let d = x / 16777216 % 256 in
    let first : u32 (a * 16777216) ≡ a * 16777216 = omega arith in
    let two : bit_or (a * 16777216) (b * 65536) ≡ (a * 256 + b) * 65536 =
      bit_or_low 24 a (b * 65536) (omega arith) ∙ omega arith in
    let three : bit_or ((a * 256 + b) * 65536) (c * 256) ≡ (a * 65536 + b * 256 + c) * 256 =
      bit_or_low 16 (a * 256 + b) (c * 256) (omega arith) ∙ omega arith in
    let four : bit_or ((a * 65536 + b * 256 + c) * 256) d ≡ (a * 65536 + b * 256 + c) * 256 + d =
      bit_or_low 8 (a * 65536 + b * 256 + c) d (omega arith) in
    ap (λ (t : ℕ). bit_or (bit_or (bit_or t (b * 65536)) (c * 256)) d) first
    ∙ ap (λ (t : ℕ). bit_or (bit_or t (c * 256)) d) two
    ∙ ap (λ (t : ℕ). bit_or t d) three
    ∙ four
    ∙ omega arith

-- `ntohs` undoes `htons` on 16-bit numbers, and `ntohl` undoes `htonl` on 32-bit numbers.
pub ntohs-htons : (x : ℕ) → x < 2 ^ 16 → ntohs (htons x) ≡ x
unfolding ntohs htons
ntohs-htons x small =
    bit_flip_short_lem (bit_flip_short x) (omega (arith, bit_flip_short_lem x small))
    ∙ omega (arith, bit_flip_short_lem x small)

pub ntohl-htonl : (x : ℕ) → x < 2 ^ 32 → ntohl (htonl x) ≡ x
unfolding ntohl htonl
ntohl-htonl x small =
    bit_flip_int_lem (bit_flip_int x) (omega (arith, bit_flip_int_lem x small))
    ∙ omega (arith, bit_flip_int_lem x small)

-- So does swapping twice in one direction.
pub ntohs-ntohs : (x : ℕ) → x < 2 ^ 16 → ntohs (ntohs x) ≡ x
unfolding ntohs htons
ntohs-ntohs x small = ntohs-htons x small

pub htons-lt : (x : ℕ) → htons x < 2 ^ 16
unfolding htons bit_flip_short
htons-lt x = omega arith
