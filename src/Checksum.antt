-- ===== src/Checksum.antt =====
-- The checksums of kernel/src/net: `ipv4_checksum` of ipv4.c and `checksum` of tcp.c.
--
-- The data are bytes; a 16-bit word has its low byte first. `ipv4_checksum` swaps the bytes of each word
-- before it adds. The child modules prove what holds of them.
pub mod Fold
mod Tests
use nocturne_os_base.Prelude.{
  ℕ, zero, suc, ◌+◌, ◌-◌, ◌*◌, ◌/◌, ◌%◌, ◌^◌, List, [], ◌∷◌, ◌==◌, if◌then◌else◌, u16, u32, bit_and,
  ◌>>>◌, Outcome, ret, hang, ◌>>=◌,
}
use nocturne_os_base.Endian.{bit_flip_short}

-- `*(uint16_t *)ptr`.
abbrev pub word : ℕ → ℕ → ℕ
word a b = a + b * 256

-- The loop of `ipv4_checksum`: `sum += bit_flip_short(array[i])`.
pub sum_flipped : List ℕ → ℕ → ℕ
sum_flipped [] sum = sum
sum_flipped (a ∷ []) sum = sum
sum_flipped (a ∷ (b ∷ rest)) sum = sum_flipped rest (u32 (sum + bit_flip_short (word a b)))

pub ipv4_checksum : List ℕ → ℕ
ipv4_checksum packet =
    let sum = sum_flipped packet 0 in
    let carry = sum >>> 16 in let sum' = u32 (bit_and sum 0xffff + carry) in u16 (2 ^ 32 - 1 - sum')

-- The loop of `checksum`, and the odd byte.
pub sum_words : List ℕ → ℕ → ℕ
sum_words [] sum = sum
sum_words (a ∷ []) sum = u32 (sum + a)
sum_words (a ∷ (b ∷ rest)) sum = sum_words rest (u32 (sum + word a b))

-- `while (sum >> 16)`, on fuel.
pub fold_sum : ℕ → ℕ → Outcome ℕ
fold_sum zero sum = hang
fold_sum (suc fuel) sum =
    let rest = fold_sum fuel (u32 (bit_and sum 0xffff + (sum >>> 16))) in
    if sum >>> 16 == 0 then ret sum else rest

-- Three rounds are enough.
pub checksum : List ℕ → Outcome ℕ
checksum bytes = fold_sum 3 (sum_words bytes 0) >>= λ sum. ret (u16 (2 ^ 32 - 1 - sum))
