-- ===== src/Memory/Fill.antt =====
-- `memset` of kernel/src/lib/string.c.
use nocturne_os_base.Prelude.{
  ℕ, zero, suc, ◌+◌, ◌-◌, ◌*◌, ◌/◌, ◌%◌, ◌≤◌, ◌<◌, ◌==◌, if◌then◌else◌, u8, bit_and, ◌≡◌, arith, ap,
  Bool-cases, inl, inr,
}
use nocturne_os_base.Memory.{
  Memory, write, store_word, fill_to_word, repeat_byte, fill_words, fill_bytes, fill_from_word,
  memset,
}
use nocturne_os_base.Memory.Words.{inside, repeat_byte_lem, store_word-repeat}

-- The memory after `n` bytes from `p` on have been set to `b`.
abbrev pub filled : Memory → ℕ → ℕ → ℕ → ℕ → ℕ
filled m p b n x = if inside p n x then b else m x

fill_bytes_lem : (m : Memory) (p b n x : ℕ) → fill_bytes m p b n x ≡ filled m p b n x
unfolding fill_bytes
fill_bytes_lem m p b zero x = ground arith
fill_bytes_lem m p b (suc n) x = ground (arith, fill_bytes_lem (write m p b) (p + 1) b n x)

fill_words_lem :
    (m : Memory) (p b n x : ℕ)
    → b < 256
    → fill_words m p (b * 16843009) n x ≡ filled m p b (4 * n) x
unfolding fill_words
fill_words_lem m p b zero x h = ground arith
fill_words_lem m p b (suc n) x h =
    let m' = store_word m p (b * 16843009) in
    let one : m' x ≡ (if inside p 4 x then b else m x) = store_word-repeat m p b x h in
    ground (arith, fill_words_lem m' (p + 4) b n x h, one)

fill_from_word_lem :
    (m : Memory) (p b n x : ℕ) → b < 256 → fill_from_word m p b n x ≡ filled m p b n x
unfolding fill_from_word
fill_from_word_lem m p b n x h =
    let word = if b == 0 then 0 else repeat_byte b 4 0 0 in
    let value : word ≡ b * 16843009 = ground (arith, repeat_byte_lem b h) in
    let m' = fill_words m p word (n / 4) in
    let words : m' x ≡ filled m p b (4 * (n / 4)) x =
      ground
        (arith, ap (λ w. fill_words m p w (n / 4) x) value, fill_words_lem m p b (n / 4) x h) in
    ground (arith, words, fill_bytes_lem m' (p + 4 * (n / 4)) b (n % 4) x, fill_bytes_lem m p b n x)

-- The first loop fills up to the address where it stops.
fill_to_word_lem :
    (m : Memory) (p b n x : ℕ)
    → let (m', mem, left) = fill_to_word m p b n in
      (mem + left ≡ p + n) × (p ≤ mem) × (m' x ≡ filled m p b (mem - p) x)
unfolding fill_to_word
fill_to_word_lem m p b zero x = (omega arith, omega arith, ground arith)
fill_to_word_lem m p b (suc n) x = elim (Bool-cases (bit_and p 3 == 0)) [
  | inl aligned ↦ rw aligned (omega arith, omega arith, ground arith)
  | inr odd ↦ rw odd (
      let ih = fill_to_word_lem (write m p b) (p + 1) b n x in
      (omega (arith, ih.0), omega (arith, ih.1), ground (arith, ih.1, ih.2)))
]

-- `memset` sets each of the bytes to the low byte of the value, at any address and for any number, and
-- leaves the rest of the memory.
pub memset_lem : (m : Memory) (p value n x : ℕ) → memset m p value n x ≡ filled m p (u8 value) n x
unfolding memset
memset_lem m p value n x =
    let b = u8 value in
    let start = fill_to_word m p b n in
    let first = fill_to_word_lem m p b n x in
    ground (
      arith,
      first.0,
      first.1,
      first.2,
      fill_from_word_lem start.0 start.1 b start.2 x (omega arith),
    )
