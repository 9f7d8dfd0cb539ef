-- ===== src/Memory.antt =====
-- The copying and filling of memory in kernel/src/lib/string.c: `memcpy`, `memset`, `memmove` and
-- `memcmp`, which work by machine words where they can. The child modules prove what holds of them.
--
-- A memory gives the byte at each address; a word is four bytes, the low one first. The pointers
-- do not leave the address space, so that they are added without wrap-around. Each function returns the
-- memory in place of the pointer that it was given.
pub mod Words
pub mod Copy
pub mod Fill
pub mod Move
mod Tests
use nocturne_os_base.Prelude.{
  ℕ, zero, suc, ◌+◌, ◌-◌, ◌*◌, ◌/◌, ◌%◌, ◌^◌, Bool, true, false, ◌||◌, ltb, leb, ◌==◌,
  if◌then◌else◌, u8, u32, sub32, ◌<<<◌, ◌>>>◌, bit_and, bit_or,
}

abbrev pub Memory : Type 0
Memory = ℕ → ℕ

-- `*p = v`.
abbrev pub write : Memory → ℕ → ℕ → Memory
write m p v = λ x. if x == p then v else m x

-- `*p` and `*p = w` on a `size_t *`.
abbrev pub load_word : Memory → ℕ → ℕ
load_word m p = m p + (m (p + 1) <<< 8) + (m (p + 2) <<< 16) + (m (p + 3) <<< 24)

abbrev pub store_word : Memory → ℕ → ℕ → Memory
store_word m p w =
    write (write (write (write m p (u8 w)) (p + 1) (u8 (w >>> 8))) (p + 2) (u8 (w >>> 16))) (p + 3)
      (u8 (w >>> 24))

pub copy_words : Memory → ℕ → ℕ → ℕ → Memory
copy_words m dest src zero = m
copy_words m dest src (suc n) =
    copy_words (store_word m dest (load_word m src)) (dest + 4) (src + 4) n

pub copy_bytes : Memory → ℕ → ℕ → ℕ → Memory
copy_bytes m dest src zero = m
copy_bytes m dest src (suc n) = copy_bytes (write m dest (m src)) (dest + 1) (src + 1) n

pub memcpy : Memory → ℕ → ℕ → ℕ → Memory
memcpy m destination source n =
    let tail = bit_and n 3 in
    let m' = copy_words m destination source (n / 4) in
    if tail == 0 then m' else copy_bytes m' (destination + (n - tail)) (source + (n - tail)) tail

-- The first loop of `memset`: what is left of the bytes at an aligned address.
pub fill_to_word : Memory → ℕ → ℕ → ℕ → Memory × ℕ × ℕ
fill_to_word m mem byte zero = (m, mem, 0)
fill_to_word m mem byte (suc num) =
    let rest = fill_to_word (write m mem byte) (mem + 1) byte num in
    if bit_and mem 3 == 0 then (m, mem, suc num) else rest

-- `word |= (size_t)byte << (i * 8)` for `n` rounds.
pub repeat_byte : ℕ → ℕ → ℕ → ℕ → ℕ
repeat_byte byte zero i word = word
repeat_byte byte (suc n) i word = repeat_byte byte n (i + 1) (bit_or word (u32 (byte <<< (i * 8))))

pub fill_words : Memory → ℕ → ℕ → ℕ → Memory
fill_words m p word zero = m
fill_words m p word (suc n) = fill_words (store_word m p word) (p + 4) word n

pub fill_bytes : Memory → ℕ → ℕ → ℕ → Memory
fill_bytes m mem byte zero = m
fill_bytes m mem byte (suc num) = fill_bytes (write m mem byte) (mem + 1) byte num

-- The words and the rest, from an aligned address on. The loop over the words makes `num / 4` rounds
-- and leaves `num % 4` bytes.
pub fill_from_word : Memory → ℕ → ℕ → ℕ → Memory
fill_from_word m mem byte num =
    let word = if byte == 0 then 0 else repeat_byte byte 4 0 0 in
    if leb 4 num
    then fill_bytes (fill_words m mem word (num / 4)) (mem + 4 * (num / 4)) byte (num % 4)
    else fill_bytes m mem byte num

pub memset : Memory → ℕ → ℕ → ℕ → Memory
memset m ptr value num =
    let byte = u8 value in
    let (m', mem, left) = fill_to_word m ptr byte num in fill_from_word m' mem byte left

pub copy_back : Memory → ℕ → ℕ → ℕ → Memory
copy_back m dest src zero = m
copy_back m dest src (suc n) = copy_back (write m dest (m src)) (dest - 1) (src - 1) n

pub memmove : Memory → ℕ → ℕ → ℕ → Memory
memmove m dest src count =
    if leb dest src || leb (src + count) dest
    then copy_bytes m dest src count
    else copy_back m (dest + count - 1) (src + count - 1) count

-- The result is an `int32_t`.
pub memcmp : Memory → ℕ → ℕ → ℕ → ℕ
memcmp m s1 s2 zero = 0
memcmp m s1 s2 (suc n) =
    let rest = memcmp m (s1 + 1) (s2 + 1) n in if m s1 == m s2 then rest else sub32 (m s1) (m s2)
