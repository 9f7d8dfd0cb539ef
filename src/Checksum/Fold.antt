-- ===== src/Checksum/Fold.antt =====
-- The checksums of kernel/src/net/ipv4.c and kernel/src/net/tcp.c against one's complement sums.
use nocturne_os_base.Prelude.{
  ℕ, suc, ◌+◌, ◌-◌, ◌*◌, ◌/◌, ◌%◌, ◌^◌, ◌≤◌, ◌<◌, List, [], ◌∷◌, length, All, if◌then◌else◌, u16,
  u32, bit_and, ◌>>>◌, ret, ◌>>=◌, >>=-ret, ◌≡◌, refl, arith, ap, ◌∙◌, ltb, dec_lt,
}
use nocturne_os_base.Prelude.Bits.{bit_and_mask}
use nocturne_os_base.Endian.{bit_flip_short}
use nocturne_os_base.Endian.Laws.{bit_flip_short_lem}
use nocturne_os_base.Checksum.{word, sum_flipped, ipv4_checksum, sum_words, fold_sum, checksum}

abbrev pub IsByte : ℕ → Type 0
IsByte b = b < 256

-- The sum of the words, low byte first; an odd byte counts as the low one of a word.
abbrev pub total : List ℕ → ℕ
total [] = 0
total (a ∷ []) = a
total (a ∷ (b ∷ rest)) = word a b + total rest

-- The sum of the words, high byte first.
abbrev pub network_total : List ℕ → ℕ
network_total [] = 0
network_total (a ∷ []) = 0
network_total (a ∷ (b ∷ rest)) = a * 256 + b + network_total rest

total-le : (bytes : List ℕ) → All IsByte bytes → total bytes ≤ 65535 * length bytes
total-le [] h = omega arith
total-le (a ∷ []) h = omega (arith, h.0)
total-le (a ∷ (b ∷ rest)) h = omega (arith, h.0, h.1.0, total-le rest h.1.1)

sum_words_lem :
    (bytes : List ℕ) (sum : ℕ)
    → sum + total bytes < 2 ^ 32
    → sum_words bytes sum ≡ sum + total bytes
unfolding sum_words
sum_words_lem [] sum small = omega arith
sum_words_lem (a ∷ []) sum small = omega arith
sum_words_lem (a ∷ (b ∷ rest)) sum small =
    omega (arith, sum_words_lem rest (u32 (sum + word a b)) (omega arith))

sum_flipped_lem :
    (bytes : List ℕ) (sum : ℕ)
    → All IsByte bytes
    → sum + network_total bytes < 2 ^ 32
    → sum_flipped bytes sum ≡ sum + network_total bytes
unfolding sum_flipped
sum_flipped_lem [] sum h small = omega arith
sum_flipped_lem (a ∷ []) sum h small = omega arith
sum_flipped_lem (a ∷ (b ∷ rest)) sum h small =
    let flipped : bit_flip_short (word a b) ≡ a * 256 + b =
      omega (arith, h.0, h.1.0, bit_flip_short_lem (word a b) (omega (arith, h.0, h.1.0))) in
    omega (
      arith,
      flipped,
      sum_flipped_lem rest (u32 (sum + bit_flip_short (word a b))) h.1.1 (omega (arith, flipped)),
    )

-- One round.
fold_sum-step :
    (n s : ℕ)
    → s < 2 ^ 32
    → fold_sum (suc n) s ≡ (if ltb s 65536 then ret s else fold_sum n (s % 65536 + s / 65536))
unfolding fold_sum
fold_sum-step n s small =
    let folded : u32 (bit_and s 0xffff + (s >>> 16)) ≡ s % 65536 + s / 65536 =
      omega (arith, bit_and_mask 16 s) in
    ground (arith, ap (fold_sum n) folded)

-- The loop ends within three rounds, at a 16-bit number that is the sum modulo 65535.
fold_sum-ends :
    (s : ℕ) → s < 2 ^ 32 → (r : ℕ) × (fold_sum 3 s ≡ ret r) × (r < 2 ^ 16) × (r % 65535 ≡ s % 65535)
fold_sum-ends s small =
    let s₁ = s % 65536 + s / 65536 in
    let s₂ = s₁ % 65536 + s₁ / 65536 in
    elim (dec_lt s 65536) [
      | yes short ↦ (s, ground (arith, fold_sum-step 2 s small), short, refl)
      | no long ↦
          let first : fold_sum 3 s ≡ fold_sum 2 s₁ = ground (arith, fold_sum-step 2 s small) in
          elim (dec_lt s₁ 65536) [
            | yes short ↦
                (s₁, first ∙ ground (arith, fold_sum-step 1 s₁ (omega arith)), short, omega arith)
            | no more ↦
                let second : fold_sum 2 s₁ ≡ fold_sum 1 s₂ =
                  ground (arith, fold_sum-step 1 s₁ (omega arith)) in
                (
                  s₂,
                  first ∙ second ∙ ground (arith, fold_sum-step 0 s₂ (omega arith)),
                  omega arith,
                  omega arith,
                )
          ]
    ]

-- `checksum` of at most 65536 bytes returns, three rounds of its second loop are enough, and the words with their
-- checksum add up to zero in one's complement arithmetic, that is modulo 65535.
pub checksum-sums :
    (bytes : List ℕ)
    → All IsByte bytes
    → length bytes ≤ 65536
    → (c : ℕ) × (checksum bytes ≡ ret c) × (c < 2 ^ 16) × ((total bytes + c) % 65535 ≡ 0)
unfolding checksum
checksum-sums bytes h short =
    let sum : sum_words bytes 0 ≡ total bytes =
      omega (arith, sum_words_lem bytes 0 (omega (arith, total-le bytes h))) in
    let (r, e, small, same) = fold_sum-ends (total bytes) (omega (arith, total-le bytes h)) in
    (
      u16 (2 ^ 32 - 1 - r),
      ap (λ (t : ℕ). fold_sum 3 t >>= λ v. ret (u16 (2 ^ 32 - 1 - v))) sum
          ∙ >>=-ret (fold_sum 3 (total bytes)) (λ v. ret (u16 (2 ^ 32 - 1 - v))) e refl,
      omega arith,
      omega arith,
    )

network_total-le :
    (bytes : List ℕ) → All IsByte bytes → 2 * network_total bytes ≤ 65535 * length bytes
network_total-le [] h = omega arith
network_total-le (a ∷ []) h = omega arith
network_total-le (a ∷ (b ∷ rest)) h = omega (arith, h.0, h.1.0, network_total-le rest h.1.1)

-- The words of a header of 20 bytes and `ipv4_checksum` of it add up to zero modulo 65535 if the low and the high half of the sum
-- add up to less than 65536. If they do not, the second carry is lost, and the total is one.
pub ipv4_checksum-sums :
    (header : List ℕ)
    → All IsByte header
    → length header ≡ 20
    → let t = network_total header in
      (t + ipv4_checksum header) % 65535 ≡ (if ltb (t % 65536 + t / 65536) 65536 then 0 else 1)
unfolding ipv4_checksum
ipv4_checksum-sums header h size =
    let t = network_total header in
    let le = network_total-le header h in
    let sum = sum_flipped_lem header 0 h (omega (arith, le, size)) in
    let folded : u32 (bit_and (sum_flipped header 0) 0xffff + (sum_flipped header 0 >>> 16))
        ≡ t % 65536 + t / 65536 =
      omega (arith, bit_and_mask 16 (sum_flipped header 0), sum, le, size) in
    ground (arith, folded, le, size)
