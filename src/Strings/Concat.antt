-- ===== src/Strings/Concat.antt =====
-- `strcpy`, `strncpy`, `strcat` and `substr` of kernel/src/lib/string.c.
use nocturne_os_base.Prelude.{
  ℕ, zero, suc, ◌+◌, ◌-◌, ◌≤◌, ◌<◌, min, max, some, ◌≡◌, arith, ap, ◌⊎◌, dec_lt, ℕ_discrete, ◌∙◌,
}
use nocturne_os_base.Memory.{Memory, write}
use nocturne_os_base.Memory.Copy.{copied}
use nocturne_os_base.Strings.{strcpy, strncpy, strcat, substr}
use nocturne_os_base.Strings.Length.{IsString, strlen_lem}

-- The `n` bytes at `d` and the `n` bytes at `s` have no byte in common.
abbrev pub Apart : ℕ → ℕ → ℕ → Type 0
Apart d s n = (d + n ≤ s) ⊎ (s + n ≤ d)

-- A write in front of what is still to be read leaves it.
write_keeps :
    (m : Memory) (d s n i j v : ℕ)
    → Apart d s n
    → i < n
    → j < n
    → write m (d + i) v (s + j) ≡ m (s + j)
write_keeps m d s n i j v apart hi hj = ground arith

strcpy_from :
    (m : Memory) (d s k fuel i : ℕ)
    → IsString m s k
    → Apart d s (k + 1)
    → i ≤ k
    → k < i + fuel
    → (m' : Memory) × (strcpy fuel m d s i ≡ some m')
      × ((x : ℕ) → m' x ≡ copied m (d + i) (s + i) (k + 1 - i) x)
unfolding strcpy
strcpy_from m d s k zero i str apart le enough = absurd (omega arith)
strcpy_from m d s k (suc fuel) i str apart le enough = elim (ℕ_discrete i k) [
  | yes last ↦
      let end : m (s + i) ≡ 0 = ground (arith, str.ends, ap (λ (t : ℕ). m (s + t)) last) in
      (
        write m (d + i) 0,
        ground (arith, end),
        λ x. elim (ℕ_discrete x (d + i)) [
          | yes here ↦
              let at : s + i + (x - (d + i)) ≡ s + i = omega arith in ground (arith, end, ap m at)
          | no other ↦ ground arith
        ],
      )
  | no more ↦
      let v = m (s + i) in
      let m1 = write m (d + i) v in
      let str' : IsString m1 s k = record {
        ends = write_keeps m d s (k + 1) i k v apart (omega arith) (omega arith) ∙ str.ends;
        inner = λ j hj. ground (
          arith,
          write_keeps m d s (k + 1) i j v apart (omega arith) (omega arith),
          str.inner j hj,
        );
      } in
      let (m', e, all) = strcpy_from m1 d s k fuel (i + 1) str' apart (omega arith) (omega arith) in
      (
        m',
        ground (arith, str.inner i (omega arith), e),
        λ x. elim (dec_lt (d + i) x) [
          | yes above ↦
              let at : s + (i + 1) + (x - (d + (i + 1))) ≡ s + i + (x - (d + i)) = omega arith in
              ground (arith, all x, ap m at)
          | no below ↦ elim (dec_lt x (d + i)) [
            | yes before ↦ ground (arith, all x)
            | no here ↦
                let at : s + i + (x - (d + i)) ≡ s + i = omega arith in
                ground (arith, all x, ap m at)
          ]
        ],
      )
]

-- `strcpy` to a place that does not overlap the string copies it with its NUL byte, and leaves the rest
-- of the memory, once it may make one round more than the string is long.
pub strcpy_lem :
    (m : Memory) (d s k fuel : ℕ)
    → IsString m s k
    → Apart d s (k + 1)
    → k < fuel
    → (m' : Memory) × (strcpy fuel m d s 0 ≡ some m') × ((x : ℕ) → m' x ≡ copied m d s (k + 1) x)
strcpy_lem m d s k fuel str apart enough =
    let (m', e, all) = strcpy_from m d s k fuel 0 str apart (omega arith) (omega arith) in
    (
      m',
      e,
      λ x.
          let at : s + 0 + (x - (d + 0)) ≡ s + (x - d) = omega arith in
          ground (arith, all x, ap m at),
    )

-- `strcat` of a string of `k` bytes behind one of `j` bytes, at a place that does not overlap it,
-- copies it with its NUL byte behind the first and leaves the rest; the result is a string of
-- `j + k` bytes. Its loops may make one round more than each string is long.
pub strcat_lem :
    (m : Memory) (d s j k fuel : ℕ)
    → IsString m d j
    → IsString m s k
    → Apart (d + j) s (k + 1)
    → j < fuel
    → k < fuel
    → (m' : Memory) × (strcat fuel m d s ≡ some m')
      × ((x : ℕ) → m' x ≡ copied m (d + j) s (k + 1) x)
      × IsString m' d (j + k)
unfolding strcat
strcat_lem m d s j k fuel dest src apart enough_j enough_k =
    let (m', e, all) = strcpy_lem m (d + j) s k fuel src apart enough_k in
    (
      m',
      ground (arith, strlen_lem m d j fuel dest enough_j, e),
      all,
      record {
        ends =
            let at : s + (d + (j + k) - (d + j)) ≡ s + k = omega arith in
            ground (arith, all (d + (j + k)), ap m at, src.ends);
        inner = λ i h. elim (dec_lt i j) [
          | yes first ↦ ground (arith, all (d + i), dest.inner i first)
          | no second ↦
              let at : s + (d + i - (d + j)) ≡ s + (i - j) = omega arith in
              ground (arith, all (d + i), ap m at, src.inner (i - j) (omega arith))
        ];
      },
    )

strncpy_from :
    (m : Memory) (d s k size n i x : ℕ)
    → IsString m s k
    → Apart d s size
    → k < size
    → i + n ≤ size
    → i ≤ k
    → strncpy m d s n i x ≡ copied m (d + i) (s + i) (min n (k - i)) x
unfolding strncpy
strncpy_from m d s k size zero i x str apart k_in n_in le = ground arith
strncpy_from m d s k size (suc n) i x str apart k_in n_in le = elim (ℕ_discrete i k) [
  | yes last ↦
      let end : m (s + i) ≡ 0 = ground (arith, str.ends, ap (λ (t : ℕ). m (s + t)) last) in
      ground (arith, end)
  | no more ↦
      let v = m (s + i) in
      let m1 = write m (d + i) v in
      let str' : IsString m1 s k = record {
        ends = write_keeps m d s size i k v apart (omega arith) (omega arith) ∙ str.ends;
        inner = λ j hj.
            ground (
              arith,
              write_keeps m d s size i j v apart (omega arith) (omega arith),
              str.inner j hj,
            );
      } in
      let ih = strncpy_from m1 d s k size n (i + 1) x str' apart k_in (omega arith) (omega arith) in
      elim (dec_lt (d + i) x) [
        | yes above ↦
            let at : s + (i + 1) + (x - (d + (i + 1))) ≡ s + i + (x - (d + i)) = omega arith in
            ground (arith, str.inner i (omega arith), ih, ap m at)
        | no below ↦
            let at : s + i + (x - (d + i)) ≡ s + i = omega arith in
            ground (arith, str.inner i (omega arith), ih, ap m at)
      ]
]

-- `strncpy` to a place apart from the string copies its bytes, at most `n` of them, and leaves the rest of
-- the memory: it writes no NUL byte.
pub strncpy_lem :
    (m : Memory) (d s k n x : ℕ)
    → IsString m s k
    → Apart d s (max n (k + 1))
    → strncpy m d s n 0 x ≡ copied m d s (min n k) x
strncpy_lem m d s k n x str apart =
    let at : s + 0 + (x - (d + 0)) ≡ s + (x - d) = omega arith in
    ground (
      arith,
      strncpy_from m d s k (max n (k + 1)) n 0 x str apart (omega arith) (omega arith)
          (omega arith),
      ap m at,
    )

-- `substr` of `n` bytes from index `i` of a string that has them leaves a string of `n` bytes at a
-- place apart from the source, and these are its bytes.
pub substr_lem :
    (m : Memory) (d s k i n : ℕ)
    → IsString m (s + i) k
    → n ≤ k
    → Apart d (s + i) (k + 1)
    → IsString (substr m d s i n) d n × ((j : ℕ) → j < n → substr m d s i n (d + j) ≡ m (s + i + j))
unfolding substr
substr_lem m d s k i n str le apart =
    let bytes : (j : ℕ) → j < n → substr m d s i n (d + j) ≡ m (s + i + j) = λ j h.
      let at : s + i + (d + j - d) ≡ s + i + j = omega arith in
      ground (arith, strncpy_lem m d (s + i) k n (d + j) str (omega arith), ap m at) in
    (
      record {
        ends = ground arith;
        inner = λ j h. ground (arith, bytes j h, str.inner j (omega arith));
      },
      bytes,
    )
