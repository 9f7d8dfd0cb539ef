-- ===== src/Memory/Move.antt =====
-- `memmove` and `memcmp` of kernel/src/lib/string.c.
use nocturne_os_base.Prelude.{
  ℕ, zero, suc, ◌+◌, ◌-◌, ◌≤◌, ◌<◌, ◌||◌, leb, sub32, ◌≡◌, ◌≢◌, refl, arith, ap, dec_lt, ℕ_discrete,
  Bool-cases, ◌⊎◌, inl, inr,
}
use nocturne_os_base.Memory.{Memory, write, copy_back, memmove, memcmp}
use nocturne_os_base.Memory.Words.{IsBytes}
use nocturne_os_base.Memory.Copy.{copied, copy_bytes_lem}

-- Copied downwards from the last byte, to a place above.
copy_back_lem :
    (m : Memory) (d s n x : ℕ) → s ≤ d → copy_back m (d + n - 1) (s + n - 1) n x ≡ copied m d s n x
unfolding copy_back
copy_back_lem m d s zero x le = ground arith
copy_back_lem m d s (suc n) x le =
    let m' = write m (d + suc n - 1) (m (s + suc n - 1)) in
    let from : (k : ℕ) → k + suc n - 1 - 1 ≡ k + n - 1 = λ k. omega arith in
    let ih = copy_back_lem m' d s n x le in
    let src : x ≡ d + suc n - 1 → s + suc n - 1 ≡ s + (x - d) = λ e. omega arith in
    let step : copy_back m' (d + suc n - 1 - 1) (s + suc n - 1 - 1) n x
        ≡ copy_back m' (d + n - 1) (s + n - 1) n x =
      rw (from d) (rw (from s) refl) in
    elim (dec_lt x (d + n)) [
      | yes before ↦ ground (arith, step, ih)
      | no behind ↦ elim (ℕ_discrete x (d + suc n - 1)) [
        | yes last ↦ ground (arith, step, ih, ap m (src last))
        | no past ↦ ground (arith, step, ih)
      ]
    ]

-- `memmove` copies each of the bytes as it was before the call, whether the areas overlap or not, and
-- leaves the rest of the memory.
pub memmove_lem : (m : Memory) (d s n x : ℕ) → memmove m d s n x ≡ copied m d s n x
unfolding memmove
memmove_lem m d s n x = elim (Bool-cases (leb d s || leb (s + n) d)) [
  | inl up ↦ rw up (copy_bytes_lem m d s n x (ground (arith, up)))
  | inr down ↦ rw down (copy_back_lem m d s n x (ground (arith, down)))
]

-- On a memory of bytes, `memcmp` is 0 when the areas agree, and otherwise the difference of the first two bytes that differ,
-- which is not 0.
pub memcmp_lem :
    (m : Memory) (a b n : ℕ)
    → IsBytes m
    → ((memcmp m a b n ≡ 0) × ((i : ℕ) → i < n → m (a + i) ≡ m (b + i)))
      ⊎ ((k : ℕ) × (k < n)
          × (m (a + k) ≢ m (b + k))
          × ((i : ℕ) → i < k → m (a + i) ≡ m (b + i))
          × (memcmp m a b n ≡ sub32 (m (a + k)) (m (b + k)))
          × (memcmp m a b n ≢ 0))
unfolding memcmp
memcmp_lem m a b zero bytes = inl (refl, λ i h. absurd (omega arith))
memcmp_lem m a b (suc n) bytes = elim (ℕ_discrete (m a) (m b)) [
  | no differ ↦ inr (
    0,
    omega arith,
    differ_at 0 (omega arith) (omega arith),
    λ i h. absurd (omega arith),
    ground (arith, ap m (zero_add a), ap m (zero_add b)),
    ground (arith, bytes a, bytes b),
  )
  | yes same ↦ elim (memcmp_lem m (a + 1) (b + 1) n bytes) [
    | inl (e, all) ↦
        inl (ground (arith, e), λ i h. before same i (λ pos. all (i - 1) (omega arith)))
    | inr (k, lt, differ, least, e, nonzero) ↦
        let at_a : a + 1 + k ≡ a + suc k = omega arith in
        let at_b : b + 1 + k ≡ b + suc k = omega arith in
        inr (
          suc k,
          omega arith,
          ground (arith, ap m at_a, ap m at_b),
          λ i h. before same i (λ pos. least (i - 1) (omega arith)),
          ground (arith, e, ap m at_a, ap m at_b),
          ground arith,
        )
  ]
]
  where
    zero_add : (x : ℕ) → x + 0 ≡ x
    zero_add x = omega arith

    differ_at : (k : ℕ) → k ≡ 0 → m a ≢ m b → m (a + k) ≢ m (b + k)
    differ_at k e differ =
        let at_a : a + k ≡ a = omega arith in
        let at_b : b + k ≡ b = omega arith in ground (arith, ap m at_a, ap m at_b)

    before :
        m a ≡ m b
        → (i : ℕ) → (0 < i → m (a + 1 + (i - 1)) ≡ m (b + 1 + (i - 1)))
        → m (a + i) ≡ m (b + i)
    before same i later = elim (dec_lt 0 i) [
      | yes pos ↦
          let at_a : a + 1 + (i - 1) ≡ a + i = omega arith in
          let at_b : b + 1 + (i - 1) ≡ b + i = omega arith in
          ground (arith, later pos, ap m at_a, ap m at_b)
      | no first ↦
          let at_a : a + i ≡ a = omega arith in
          let at_b : b + i ≡ b = omega arith in ground (arith, same, ap m at_a, ap m at_b)
    ]
