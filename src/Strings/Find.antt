-- ===== src/Strings/Find.antt =====
-- `strchr` and `strspn` of kernel/src/lib/string.c.
use nocturne_os_base.Prelude.{
  ℕ, zero, suc, ◌+◌, ◌-◌, ◌≤◌, ◌<◌, true, false, some, ◌≡◌, ◌≢◌, refl, arith, ap, ◌⊎◌, inl, inr,
  dec_lt, ℕ_discrete, ◌∙◌,
}
use nocturne_os_base.Memory.{Memory}
use nocturne_os_base.Strings.{strchr, accepts, strspn}
use nocturne_os_base.Strings.Length.{IsString}
use nocturne_os_base.Strings.Compare.{IsString-suc}

-- The first place of `c` in the `k + 1` bytes at `p`, the NUL byte included.
abbrev pub IsFirst : Memory → ℕ → ℕ → ℕ → ℕ → Type 0
IsFirst m p k c j = (j ≤ k) × (m (p + j) ≡ c) × ((i : ℕ) → i < j → m (p + i) ≢ c)

-- Byte `0` and the bytes behind it differ from `c`.
differs_from :
    (m : Memory) (p c n : ℕ)
    → m p ≢ c
    → ((i : ℕ) → i < n → m (p + 1 + i) ≢ c)
    → (i : ℕ) → i < suc n
    → m (p + i) ≢ c
differs_from m p c n first later zero h =
    let at : p + 0 ≡ p = omega arith in ground (arith, ap m at)
differs_from m p c n first later (suc i) h =
    let at : p + suc i ≡ p + 1 + i = omega arith in ground (arith, later i (omega arith), ap m at)

-- `strchr` returns the first place of the character, which may be the NUL byte, and a null pointer when
-- the string does not have it, once it may make one round more than the string is long.
pub strchr_lem :
    (m : Memory) (p k c fuel : ℕ)
    → IsString m p k
    → k < fuel
    → ((strchr fuel m p c ≡ some 0) × ((i : ℕ) → i < suc k → m (p + i) ≢ c))
      ⊎ ((j : ℕ) × (strchr fuel m p c ≡ some (p + j)) × IsFirst m p k c j)
unfolding strchr
strchr_lem m p k c zero str enough = absurd (omega arith)
strchr_lem m p zero c (suc fuel) str enough =
    let at : p + 0 ≡ p = omega arith in
    elim (ℕ_discrete (m p) c) [
      | yes here ↦ inr (
        0,
        ground arith,
        (omega arith, ground (arith, here, ap m at), λ i h. absurd (omega arith)),
      )
      | no other ↦ inl (
        ground (arith, str.ends, ap m at),
        differs_from m p c 0 other (λ i h. absurd (omega arith)),
      )
    ]
strchr_lem m p (suc k) c (suc fuel) str enough =
    let at : p + 0 ≡ p = omega arith in
    elim (ℕ_discrete (m p) c) [
      | yes here ↦ inr (
        0,
        ground arith,
        (omega arith, ground (arith, here, ap m at), λ i h. absurd (omega arith)),
      )
      | no other ↦
          let inner : m p ≢ 0 = ground (arith, str.inner 0 (omega arith), ap m at) in
          elim (strchr_lem m (p + 1) k c fuel (IsString-suc m p k str) (omega arith)) [
            | inl (e, nowhere) ↦
                inl (ground (arith, e, inner), differs_from m p c (suc k) other nowhere)
            | inr (j, e, (le, found, least)) ↦
                let next : p + 1 + j ≡ p + suc j = omega arith in
                inr (
                  suc j,
                  ground (arith, e, inner, next),
                  (omega arith, ground (arith, found, ap m next), differs_from m p c j other least),
                )
          ]
    ]

-- Whether a character other than NUL is in the set.
abbrev pub IsIn : Memory → ℕ → ℕ → ℕ → Type 0
IsIn m a k c = (j : ℕ) × (j < k) × (m (a + j) ≡ c)

abbrev pub IsOut : Memory → ℕ → ℕ → ℕ → Type 0
IsOut m a k c = (j : ℕ) → j < k → m (a + j) ≢ c

accepts_lem :
    (m : Memory) (c a k fuel : ℕ)
    → IsString m a k
    → k < fuel
    → ((accepts fuel m c a ≡ some true) × IsIn m a k c)
      ⊎ ((accepts fuel m c a ≡ some false) × IsOut m a k c)
unfolding accepts
accepts_lem m c a k zero str enough = absurd (omega arith)
accepts_lem m c a zero (suc fuel) str enough =
    let at : a + 0 ≡ a = omega arith in
    inr (ground (arith, str.ends, ap m at), λ j h. absurd (omega arith))
accepts_lem m c a (suc k) (suc fuel) str enough =
    let at : a + 0 ≡ a = omega arith in
    let inner : m a ≢ 0 = ground (arith, str.inner 0 (omega arith), ap m at) in
    elim (ℕ_discrete c (m a)) [
      | yes here ↦
          inl (ground (arith, inner, here), (0, omega arith, ground (arith, here, ap m at)))
      | no other ↦ elim (accepts_lem m c (a + 1) k fuel (IsString-suc m a k str) (omega arith)) [
        | inl (e, (j, lt, found)) ↦
            let next : a + 1 + j ≡ a + suc j = omega arith in
            inl (ground (arith, e, inner), (suc j, omega arith, ground (arith, found, ap m next)))
        | inr (e, out) ↦
            inr
              (ground (arith, e, inner), differs_from m a c k (λ p. other (ground (arith, p))) out)
      ]
    ]

-- The length of a prefix made of the characters of the set `a`, and the character behind it is none.
pub record IsSpan (m : Memory) (p k a ka n : ℕ) : Type 0 where
  pub in_string : n ≤ k
  pub all_in : (i : ℕ) → i < n → IsIn m a ka (m (p + i))
  pub ends_out : (n ≡ k) ⊎ IsOut m a ka (m (p + n))

IsSpan-suc :
    (m : Memory) (p k a ka n : ℕ)
    → IsIn m a ka (m p)
    → IsSpan m (p + 1) k a ka n
    → IsSpan m p (suc k) a ka (suc n)
IsSpan-suc m p k a ka n (j, lt, found) span = record {
  in_string = omega (arith, span.in_string);
  all_in = λ i h. elim (dec_lt 0 i) [
    | yes pos ↦
        let at : p + i ≡ p + 1 + (i - 1) = omega arith in
        let (j', lt', found') = span.all_in (i - 1) (omega arith) in
        (j', lt', ground (arith, found', ap m at))
    | no first ↦ let at : p + i ≡ p = omega arith in (j, lt, ground (arith, found, ap m at))
  ];
  ends_out = elim span.ends_out [
    | inl all ↦ inl (omega arith)
    | inr out ↦
        inr (λ j' h.
          let at : p + suc n ≡ p + 1 + n = omega arith in ground (arith, out j' h, ap m at))
  ];
}

strspn_from :
    (m : Memory) (p k a ka fuel_a fuel count : ℕ)
    → IsString m p k
    → IsString m a ka
    → ka < fuel_a
    → k < fuel
    → (n : ℕ) × (strspn fuel_a fuel m p a count ≡ some (count + n)) × IsSpan m p k a ka n
unfolding strspn
strspn_from m p k a ka fuel_a zero count str set enough_a enough = absurd (omega arith)
strspn_from m p zero a ka fuel_a (suc fuel) count str set enough_a enough =
    let at : p + 0 ≡ p = omega arith in
    let same : count ≡ count + 0 = omega arith in
    (
      0,
      ground (arith, str.ends, ap m at, same),
      record { in_string = omega arith; all_in = λ i h. absurd (omega arith); ends_out = inl refl },
    )
strspn_from m p (suc k) a ka fuel_a (suc fuel) count str set enough_a enough =
    let at : p + 0 ≡ p = omega arith in
    let inner : m p ≢ 0 = ground (arith, str.inner 0 (omega arith), ap m at) in
    elim (accepts_lem m (m p) a ka fuel_a set enough_a) [
      | inl (e, is_in) ↦
          let (n, e', span) =
            strspn_from m (p + 1) k a ka fuel_a fuel (count + 1) (IsString-suc m p k str) set
              enough_a (omega arith) in
          let same : count + 1 + n ≡ count + suc n = omega arith in
          (suc n, ground (arith, e, e', inner, same), IsSpan-suc m p k a ka n is_in span)
      | inr (e, out) ↦
          let same : count ≡ count + 0 = omega arith in
          (
            0,
            ground (arith, e, inner, same),
            record {
              in_string = omega arith;
              all_in = λ i h. absurd (omega arith);
              ends_out = inr (λ j h. ground (arith, out j h, ap m at));
            },
          )
    ]

-- `strspn` returns the length of the longest prefix made of characters of the set, once its loops may
-- make one round more than the two strings are long.
pub strspn_lem :
    (m : Memory) (p k a ka fuel_a fuel : ℕ)
    → IsString m p k
    → IsString m a ka
    → ka < fuel_a
    → k < fuel
    → (n : ℕ) × (strspn fuel_a fuel m p a 0 ≡ some n) × IsSpan m p k a ka n
strspn_lem m p k a ka fuel_a fuel str set enough_a enough =
    let (n, e, span) = strspn_from m p k a ka fuel_a fuel 0 str set enough_a enough in
    let same : 0 + n ≡ n = omega arith in (n, e ∙ ap some same, span)
