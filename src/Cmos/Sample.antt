-- ===== src/Cmos/Sample.antt =====
-- The loop of kernel/src/drv/cmos.c that reads the clock until two readings agree.
use nocturne_os_base.Prelude.{
  ℕ, zero, suc, ◌+◌, ◌≤◌, ◌<◌, true, false, ◌≡◌, refl, arith, ap, ◌∙◌, Bool-cases, inl, inr, ret,
  subst, ◌-◌, false,
}
use nocturne_os_base.Cmos.{Reading, take_reading, same_reading, read_rounds, convert, read_rtc}

-- The reading that the code has after reading `i`.
abbrev pub taken : ℕ → (ℕ → Reading) → Reading → ℕ → Reading
taken century_register shown old zero = take_reading century_register old (shown 0)
taken century_register shown old (suc i) =
    take_reading century_register (taken century_register shown old i) (shown (suc i))

first_later :
    (at : ℕ → Reading) (i j : ℕ)
    → same_reading (at (i + j)) (at (suc (i + j))) ≡ true
    → same_reading (at i) (at (suc i)) ≡ false
    → 0 < j
first_later at i zero same later =
    let here : i + 0 ≡ i = omega arith in
    absurd (ground (arith, ap (λ (m : ℕ). same_reading (at m) (at (suc m))) here, same, later))
first_later at i (suc j) same later = omega arith

next_index : (i j : ℕ) → 0 < j → i + j ≡ suc i + (j - 1)
next_index i j more = omega arith

-- From reading `i` on, the loop stops at the first reading that equals the one before.
read_rounds-stops :
    (fuel century_register : ℕ) (shown : ℕ → Reading) (old : Reading) (i j : ℕ)
    → j < fuel
    → same_reading
        (taken century_register shown old (i + j))
        (taken century_register shown old (suc (i + j)))
      ≡ true
    → (n : ℕ) × (i ≤ n)
      × (n ≤ i + j)
      × (same_reading
            (taken century_register shown old n)
            (taken century_register shown old (suc n))
          ≡ true)
      × (read_rounds fuel century_register shown (suc i) (taken century_register shown old i)
          ≡ ret (taken century_register shown old (suc n)))
unfolding read_rounds
read_rounds-stops zero century_register shown old i j lt same = absurd (omega arith)
read_rounds-stops (suc fuel) century_register shown old i j lt same =
    let at : ℕ → Reading = taken century_register shown old in
    elim (Bool-cases (same_reading (at i) (at (suc i)))) [
      | inl now ↦ (i, omega arith, omega arith, now, rw now refl)
      | inr later ↦
          let more : 0 < j = first_later at i j same later in
          let (n, lo, hi, agree, e) =
            read_rounds-stops fuel century_register shown old (suc i) (j - 1) (omega arith) (
              subst (λ (m : ℕ). same_reading (at m) (at (suc m)) ≡ true) (next_index i j more)
                same) in
          let index : suc i + 1 ≡ suc (suc i) = omega arith in
          (
            n,
            omega arith,
            omega arith,
            agree,
            rw later
                (ap (λ (m : ℕ). read_rounds fuel century_register shown m (at (suc i))) index ∙ e),
          )
    ]

-- Equal readings are those that the code takes to be equal.
same_reading_sound : (a b : Reading) → same_reading a b ≡ true → a ≡ b
unfolding same_reading
same_reading_sound a b e = ground (arith, e)

same_reading_self : (a b : Reading) → a ≡ b → same_reading a b ≡ true
unfolding same_reading
same_reading_self a b e = rw e (ground arith)

-- `read_rtc` returns once the clock shows the same twice in a row, in every register, with enough rounds. The result is the
-- conversion of a reading that equals the one before it in every register.
pub read_rtc-stops :
    (fuel century_register register_b : ℕ) (shown : ℕ → Reading) (old : Reading) (j : ℕ)
    → j < fuel
    → let at : ℕ → Reading = taken century_register shown old in
      at j ≡ at (suc j)
      → (n : ℕ) × (n ≤ j)
        × (at n ≡ at (suc n))
        × (read_rtc fuel century_register register_b shown old
            ≡ ret (convert century_register register_b (at (suc n))))
unfolding read_rtc
read_rtc-stops fuel century_register register_b shown old j lt same =
    let at : ℕ → Reading = taken century_register shown old in
    let (n, _, hi, agree, e) = read_rounds-stops fuel century_register shown old 0 j lt (
      subst (λ (m : ℕ). same_reading (at m) (at (suc m)) ≡ true) (omega arith)
        (same_reading_self (at j) (at (suc j)) same)) in
    (n, omega arith, same_reading_sound (at n) (at (suc n)) agree, rw e refl)
