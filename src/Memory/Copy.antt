-- ===== src/Memory/Copy.antt =====
-- `memcpy` and the loops of kernel/src/lib/string.c that copy upwards.
use nocturne_os_base.Prelude.{
  ℕ, zero, suc, ◌+◌, ◌-◌, ◌*◌, ◌/◌, ◌%◌, ◌≤◌, ◌<◌, if◌then◌else◌, bit_and, ◌≡◌, arith, ap, ◌⊎◌,
  dec_lt, dec_le,
}
use nocturne_os_base.Prelude.Bits.{bit_and_mask}
use nocturne_os_base.Memory.{Memory, write, load_word, store_word, copy_words, copy_bytes, memcpy}
use nocturne_os_base.Memory.Words.{IsBytes, inside, store_word-load_word}

-- The memory after `n` bytes from `s` have been copied to `d`, as they were before.
abbrev pub copied : Memory → ℕ → ℕ → ℕ → ℕ → ℕ
copied m d s n x = if inside d n x then m (s + (x - d)) else m x

-- The areas do not overlap.
abbrev pub Disjoint : ℕ → ℕ → ℕ → Type 0
Disjoint d s n = (d + n ≤ s) ⊎ (s + n ≤ d)

-- Copied upwards, byte by byte, to a place that is not in the part still to be read.
pub copy_bytes_lem :
    (m : Memory) (d s n x : ℕ) → (d ≤ s) ⊎ (s + n ≤ d) → copy_bytes m d s n x ≡ copied m d s n x
unfolding copy_bytes
copy_bytes_lem m d s zero x away = ground arith
copy_bytes_lem m d s (suc n) x away =
    let m' = write m d (m s) in
    elim (dec_lt d x) [
      | yes above ↦
          let src : s + 1 + (x - (d + 1)) ≡ s + (x - d) = omega arith in
          ground (arith, copy_bytes_lem m' (d + 1) (s + 1) n x, ap m src)
      | no below ↦ elim (dec_lt x d) [
        | yes before ↦ ground (arith, copy_bytes_lem m' (d + 1) (s + 1) n x)
        | no here ↦
            let src : s + (x - d) ≡ s = omega arith in
            ground (arith, copy_bytes_lem m' (d + 1) (s + 1) n x, ap m src)
      ]
    ]

write-IsBytes : (m : Memory) (d s x : ℕ) → IsBytes m → copied m d s 4 x < 256
write-IsBytes m d s x bytes = ground (arith, bytes x, bytes (s + (x - d)))

-- The words of an area, copied to one that does not overlap it.
copy_words_lem :
    (m : Memory) (d s n x : ℕ)
    → IsBytes m
    → Disjoint d s (4 * n)
    → copy_words m d s n x ≡ copied m d s (4 * n) x
unfolding copy_words
copy_words_lem m d s zero x bytes apart = ground arith
copy_words_lem m d s (suc n) x bytes apart =
    let m' = store_word m d (load_word m s) in
    let after : (y : ℕ) → m' y ≡ copied m d s 4 y = λ y. store_word-load_word m d s y bytes in
    let bytes' : IsBytes m' = λ y. ground (arith, after y, write-IsBytes m d s y bytes) in
    let ih : copy_words m' (d + 4) (s + 4) n x ≡ copied m' (d + 4) (s + 4) (4 * n) x =
      copy_words_lem m' (d + 4) (s + 4) n x bytes' (omega arith) in
    elim (dec_le (d + 4) x) [
      | yes above ↦
          let src : s + 4 + (x - (d + 4)) ≡ s + (x - d) = omega arith in
          ground (arith, ih, after x, after (s + (x - d)), ap m' src)
      | no below ↦ ground (arith, ih, after x)
    ]

-- On a memory of bytes, `memcpy` between areas that do not overlap copies each of the bytes, by words as by single bytes, and
-- leaves the rest of the memory.
pub memcpy_lem :
    (m : Memory) (d s n x : ℕ) → IsBytes m → Disjoint d s n → memcpy m d s n x ≡ copied m d s n x
unfolding memcpy
memcpy_lem m d s n x bytes apart =
    let tail : bit_and n 3 ≡ n % 4 = bit_and_mask 2 n in
    let start : n - bit_and n 3 ≡ 4 * (n / 4) = omega (arith, tail) in
    let m' = copy_words m d s (n / 4) in
    let words : (y : ℕ) → m' y ≡ copied m d s (4 * (n / 4)) y =
      λ y. copy_words_lem m d s (n / 4) y bytes (omega arith) in
    let rest : copy_bytes m' (d + (n - bit_and n 3)) (s + (n - bit_and n 3)) (bit_and n 3) x
        ≡ copied m' (d + (n - bit_and n 3)) (s + (n - bit_and n 3)) (bit_and n 3) x =
      copy_bytes_lem m' (d + (n - bit_and n 3)) (s + (n - bit_and n 3)) (bit_and n 3) x
        (omega (arith, start, tail)) in
    elim (dec_le (d + (n - bit_and n 3)) x) [
      | yes above ↦
          let src : s + (n - bit_and n 3) + (x - (d + (n - bit_and n 3))) ≡ s + (x - d) =
            omega arith in
          ground (arith, tail, start, rest, words x, words (s + (x - d)), ap m' src)
      | no below ↦ ground (arith, tail, start, rest, words x)
    ]
