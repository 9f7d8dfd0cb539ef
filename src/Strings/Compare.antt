-- ===== src/Strings/Compare.antt =====
-- `strcmp` and `strncmp` of kernel/src/lib/string.c.
use nocturne_os_base.Prelude.{
  ℕ, zero, suc, ◌+◌, ◌≤◌, ◌<◌, some, sub32, ◌≡◌, ◌≢◌, refl, arith, ap, ◌⊎◌, inl, inr, dec_lt,
  ℕ_discrete,
}
use nocturne_os_base.Memory.{Memory}
use nocturne_os_base.Memory.Words.{IsBytes}
use nocturne_os_base.Strings.{sign_extend, strcmp, strncmp}
use nocturne_os_base.Strings.Length.{IsString}

-- The bytes at `a` and at `b` agree below index `k`.
abbrev pub Agree : Memory → ℕ → ℕ → ℕ → Type 0
Agree m a b k = (i : ℕ) → i < k → m (a + i) ≡ m (b + i)

-- What a comparison with result `r` has found: a first difference at `k`.
pub record Differs (m : Memory) (a b k r : ℕ) : Type 0 where
  pub agree : Agree m a b k
  pub differ : m (a + k) ≢ m (b + k)
  pub result : r ≡ sub32 (sign_extend (m (a + k))) (sign_extend (m (b + k)))
  pub nonzero : r ≢ 0

Agree-suc : (m : Memory) (a b k : ℕ) → m a ≡ m b → Agree m (a + 1) (b + 1) k → Agree m a b (suc k)
Agree-suc m a b k same later zero h =
    let at_a : a + 0 ≡ a = omega arith in
    let at_b : b + 0 ≡ b = omega arith in ground (arith, same, ap m at_a, ap m at_b)
Agree-suc m a b k same later (suc i) h =
    let at_a : a + suc i ≡ a + 1 + i = omega arith in
    let at_b : b + suc i ≡ b + 1 + i = omega arith in
    ground (arith, later i (omega arith), ap m at_a, ap m at_b)

Differs-here :
    (m : Memory) (a b : ℕ)
    → IsBytes m
    → m a ≢ m b
    → Differs m a b 0 (sub32 (sign_extend (m a)) (sign_extend (m b)))
Differs-here m a b bytes differ =
    let at_a : a + 0 ≡ a = omega arith in
    let at_b : b + 0 ≡ b = omega arith in
    record {
      agree = λ i h. absurd (omega arith);
      differ = ground (arith, ap m at_a, ap m at_b);
      result = ground (arith, ap m at_a, ap m at_b);
      nonzero = ground (arith, bytes a, bytes b);
    }

Differs-suc :
    (m : Memory) (a b k r : ℕ) → m a ≡ m b → Differs m (a + 1) (b + 1) k r → Differs m a b (suc k) r
Differs-suc m a b k r same d =
    let at_a : a + 1 + k ≡ a + suc k = omega arith in
    let at_b : b + 1 + k ≡ b + suc k = omega arith in
    record {
      agree = Agree-suc m a b k same d.agree;
      differ = ground (arith, d.differ, ap m at_a, ap m at_b);
      result = ground (arith, d.result, ap m at_a, ap m at_b);
      nonzero = d.nonzero;
    }

pub IsString-suc : (m : Memory) (a k : ℕ) → IsString m a (suc k) → IsString m (a + 1) k
IsString-suc m a k str =
    let at : a + 1 + k ≡ a + suc k = omega arith in
    record {
      ends = ground (arith, str.ends, ap m at);
      inner = λ i h.
          let next : a + 1 + i ≡ a + suc i = omega arith in
          ground (arith, str.inner (suc i), ap m next);
    }

-- On a memory of bytes, `strcmp` of a string of `k` bytes with another, once it may make `k + 1` rounds: 0 when they are
-- the same string, and otherwise the difference of the first two characters that differ, not 0.
pub strcmp_lem :
    (m : Memory) (a b k fuel : ℕ)
    → IsBytes m
    → IsString m a k
    → k < fuel
    → ((strcmp fuel m a b ≡ some 0) × Agree m a b (suc k))
      ⊎ ((j : ℕ) × (r : ℕ) × (j ≤ k) × (strcmp fuel m a b ≡ some r) × Differs m a b j r)
unfolding strcmp
strcmp_lem m a b k zero bytes str enough = absurd (omega arith)
strcmp_lem m a b zero (suc fuel) bytes str enough = elim (ℕ_discrete (m a) (m b)) [
  | no differ ↦ inr (
    0,
    sub32 (sign_extend (m a)) (sign_extend (m b)),
    omega arith,
    ground arith,
    Differs-here m a b bytes differ,
  )
  | yes same ↦
      let at : a + 0 ≡ a = omega arith in
      inl (ground (arith, str.ends, ap m at), Agree-suc m a b 0 same (λ i h. absurd (omega arith)))
]
strcmp_lem m a b (suc k) (suc fuel) bytes str enough = elim (ℕ_discrete (m a) (m b)) [
  | no differ ↦ inr (
    0,
    sub32 (sign_extend (m a)) (sign_extend (m b)),
    omega arith,
    ground arith,
    Differs-here m a b bytes differ,
  )
  | yes same ↦
      let at : a + 0 ≡ a = omega arith in
      let inside : m a ≢ 0 = ground (arith, str.inner 0 (omega arith), ap m at) in
      elim (strcmp_lem m (a + 1) (b + 1) k fuel bytes (IsString-suc m a k str) (omega arith)) [
        | inl (e, agree) ↦ inl (ground (arith, e, inside), Agree-suc m a b (suc k) same agree)
        | inr (j, r, le, e, d) ↦
            inr (suc j, r, omega arith, ground (arith, e, inside), Differs-suc m a b j r same d)
      ]
]

-- `strncmp` is 0 when the first `num` bytes agree and 1 when they do not, also behind a NUL byte.
pub strncmp_lem :
    (m : Memory) (a b num i : ℕ)
    → ((strncmp m a b num i ≡ 0) × ((j : ℕ) → i ≤ j → j < i + num → m (a + j) ≡ m (b + j)))
      ⊎ ((strncmp m a b num i ≡ 1) × ((j : ℕ) × (i ≤ j) × (j < i + num) × (m (a + j) ≢ m (b + j))))
unfolding strncmp
strncmp_lem m a b zero i = inl (refl, λ j lo hi. absurd (omega arith))
strncmp_lem m a b (suc num) i = elim (ℕ_discrete (m (a + i)) (m (b + i))) [
  | no differ ↦ inr (ground arith, (i, omega arith, omega arith, differ))
  | yes same ↦ elim (strncmp_lem m a b num (i + 1)) [
    | inl (e, all) ↦ inl (ground (arith, e), λ j lo hi. from j lo (λ p. all j p (omega arith)) same)
    | inr (e, (j, lo, hi, differ)) ↦ inr (ground (arith, e), (j, omega arith, omega arith, differ))
  ]
]
  where
    from :
        (j : ℕ)
        → i ≤ j
        → (i + 1 ≤ j → m (a + j) ≡ m (b + j))
        → m (a + i) ≡ m (b + i)
        → m (a + j) ≡ m (b + j)
    from j lo later same = elim (dec_lt i j) [
      | yes p ↦ later (omega arith)
      | no p ↦
          let at : j ≡ i = omega arith in
          ground (arith, same, ap (λ (t : ℕ). m (a + t)) at, ap (λ (t : ℕ). m (b + t)) at)
    ]
