-- ===== src/Memory/Words.antt =====
-- One machine word of kernel/src/lib/string.c, byte by byte.
use nocturne_os_base.Prelude.{
  ℕ, ◌+◌, ◌-◌, ◌*◌, ◌<◌, Bool, true, ◌&&◌, ltb, leb, ◌==◌, if◌then◌else◌, ◌≡◌, refl, arith, ap,
  ℕ_discrete, ==_iff,
}
use nocturne_os_base.Prelude.Bytes.{each_under, each_under-lt}
use nocturne_os_base.Memory.{Memory, load_word, store_word, repeat_byte}

-- Every address holds a byte.
abbrev pub IsBytes : Memory → Type 0
IsBytes m = (x : ℕ) → m x < 256

-- `x` is one of the `n` addresses from `p` on.
abbrev pub inside : ℕ → ℕ → ℕ → Bool
inside p n x = leb p x && ltb x (p + n)

pub store_word-load_word :
    (m : Memory) (d s x : ℕ)
    → IsBytes m
    → store_word m d (load_word m s) x ≡ (if inside d 4 x then m (s + (x - d)) else m x)
store_word-load_word m d s x bytes = elim (ℕ_discrete x d) [
  | yes e ↦
      let at : s + (x - d) ≡ s = omega arith in
      ground (arith, ap m at, bytes s, bytes (s + 1), bytes (s + 2), bytes (s + 3))
  | no n0 ↦ elim (ℕ_discrete x (d + 1)) [
    | yes e ↦
        let at : s + (x - d) ≡ s + 1 = omega arith in
        ground (arith, ap m at, bytes s, bytes (s + 1), bytes (s + 2), bytes (s + 3))
    | no n1 ↦ elim (ℕ_discrete x (d + 2)) [
      | yes e ↦
          let at : s + (x - d) ≡ s + 2 = omega arith in
          ground (arith, ap m at, bytes s, bytes (s + 1), bytes (s + 2), bytes (s + 3))
      | no n2 ↦ elim (ℕ_discrete x (d + 3)) [
        | yes e ↦
            let at : s + (x - d) ≡ s + 3 = omega arith in
            ground (arith, ap m at, bytes s, bytes (s + 1), bytes (s + 2), bytes (s + 3))
        | no n3 ↦ ground arith
      ]
    ]
  ]
]

is_repeated : ℕ → Bool
unfolding repeat_byte
is_repeated b = repeat_byte b 4 0 0 == b * 16843009

every_byte : each_under is_repeated 256 ≡ true
unfolding each_under is_repeated
every_byte = refl

pub repeat_byte_lem : (b : ℕ) → b < 256 → repeat_byte b 4 0 0 ≡ b * 16843009
repeat_byte_lem b h =
    (==_iff (repeat_byte b 4 0 0) (b * 16843009)).0
      (unfold is_repeated in (each_under-lt is_repeated 256 b h every_byte))

pub store_word-repeat :
    (m : Memory) (p b x : ℕ)
    → b < 256
    → store_word m p (b * 16843009) x ≡ (if inside p 4 x then b else m x)
store_word-repeat m p b x h = ground arith
