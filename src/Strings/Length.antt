-- ===== src/Strings/Length.antt =====
-- `strlen` and `mb_strlen` of kernel/src/lib/string.c.
use nocturne_os_base.Prelude.{
  ℕ, zero, suc, ◌+◌, ◌/◌, ◌%◌, ◌≤◌, ◌<◌, true, some, List, [], ◌∷◌, length, All, ltb, if◌then◌else◌,
  ◌≡◌, ◌≢◌, arith, ap, ◌⊎◌, inl, inr, dec_lt, ◌∙◌, subst, sym,
}
use nocturne_os_base.Memory.{Memory}
use nocturne_os_base.Strings.{strlen, is_utf, count_characters, mb_strlen}

-- A string of `k` bytes stands at `p`.
pub record IsString (m : Memory) (p k : ℕ) : Type 0 where
  pub ends : m (p + k) ≡ 0
  pub inner : (i : ℕ) → i < k → m (p + i) ≢ 0

strlen_from :
    (m : Memory) (p k fuel i : ℕ)
    → IsString m p k
    → i ≤ k
    → k < i + fuel
    → strlen fuel m p i ≡ some k
unfolding strlen
strlen_from m p k zero i str le enough = absurd (omega arith)
strlen_from m p k (suc fuel) i str le enough = elim (dec_lt i k) [
  | yes lt ↦ ground (arith, str.inner i lt, strlen_from m p k fuel (i + 1) str)
  | no last ↦ let at : i ≡ k = omega arith in ground (arith, str.ends, ap (λ j. m (p + j)) at)
]

-- `strlen` returns the length of the string, once it may make one round more.
pub strlen_lem :
    (m : Memory) (p k fuel : ℕ) → IsString m p k → k < fuel → strlen fuel m p 0 ≡ some k
strlen_lem m p k fuel str enough = strlen_from m p k fuel 0 str (omega arith) (omega arith)

-- A character that the kernel prints: of ASCII or of the Cyrillic block.
abbrev pub IsCharacter : ℕ → Type 0
IsCharacter c = ((0 < c) × (c < 128)) ⊎ ((1024 ≤ c) × (c < 1152))

-- Its bytes in UTF-8, in front of others.
abbrev pub encode : ℕ → List ℕ → List ℕ
encode c rest = if ltb c 128 then c ∷ rest else (192 + c / 64) ∷ (128 + c % 64) ∷ rest

abbrev pub utf8 : List ℕ → List ℕ
utf8 [] = []
utf8 (c ∷ cs) = encode c (utf8 cs)

-- The bytes stand in the memory at `p`, in front of a NUL byte.
abbrev pub Holds : Memory → ℕ → List ℕ → Type 0
Holds m p [] = m p ≡ 0
Holds m p (b ∷ bs) = (m p ≡ b) × Holds m (p + 1) bs

-- One byte below 128, or two: 208 or 209, and one that is neither.
encode_cases :
    (c : ℕ) (rest : List ℕ)
    → IsCharacter c
    → ((encode c rest ≡ c ∷ rest) × (0 < c) × (c < 128))
      ⊎ ((encode c rest ≡ (192 + c / 64) ∷ (128 + c % 64) ∷ rest) × (is_utf (192 + c / 64) ≡ true))
unfolding is_utf
encode_cases c rest (inl (pos, ascii)) = inl (ground arith, pos, ascii)
encode_cases c rest (inr (lo, hi)) = inr (ground arith, ground arith)

utf8_nonzero : (cs : List ℕ) → All IsCharacter cs → All (λ b. 0 < b) (utf8 cs)
utf8_nonzero [] h = h
utf8_nonzero (c ∷ cs) h = elim (encode_cases c (utf8 cs) h.0) [
  | inl (e, pos, _) ↦ subst (All (λ b. 0 < b)) (sym e) (pos, utf8_nonzero cs h.1)
  | inr (e, _) ↦ subst (All (λ b. 0 < b)) (sym e) (omega arith, (omega arith, utf8_nonzero cs h.1))
]

-- Such bytes are a string.
pub Holds-IsString :
    (m : Memory) (p : ℕ) (bs : List ℕ)
    → Holds m p bs
    → All (λ b. 0 < b) bs
    → IsString m p (length bs)
Holds-IsString m p bs holds nonzero = record {
  ends = last m p bs holds;
  inner = each m p bs holds nonzero;
}
  where
    last : (m : Memory) (p : ℕ) (bs : List ℕ) → Holds m p bs → m (p + length bs) ≡ 0
    last m p [] h = let at : p + 0 ≡ p = omega arith in ap m at ∙ h
    last m p (b ∷ bs) h =
        let at : p + suc (length bs) ≡ p + 1 + length bs = omega arith in
        ap m at ∙ last m (p + 1) bs h.1

    each :
        (m : Memory) (p : ℕ) (bs : List ℕ)
        → Holds m p bs
        → All (λ b. 0 < b) bs
        → (i : ℕ) → i < length bs
        → m (p + i) ≢ 0
    each m p [] h nz i lt = absurd (omega arith)
    each m p (b ∷ bs) h nz zero lt =
        let at : p + 0 ≡ p = omega arith in ground (arith, ap m at, h.0, nz.0)
    each m p (b ∷ bs) h nz (suc i) lt =
        let at : p + suc i ≡ p + 1 + i = omega arith in
        ground (arith, ap m at, each m (p + 1) bs h.1 nz.1 i (omega arith))

count_from :
    (m : Memory) (str i n : ℕ) (cs : List ℕ)
    → All IsCharacter cs
    → Holds m (str + i) (utf8 cs)
    → count_characters m str (length (utf8 cs)) i n ≡ n + length cs
unfolding count_characters is_utf
count_from m str i n [] chars holds = omega arith
count_from m str i n (c ∷ cs) chars holds = elim (encode_cases c (utf8 cs) chars.0) [
  | inl (e, pos, ascii) ↦
      let at : str + (i + 1) ≡ str + i + 1 = omega arith in
      let h : Holds m (str + i) (c ∷ utf8 cs) = subst (Holds m (str + i)) e holds in
      let ih =
        count_from m str (i + 1) (n + 1) cs chars.1
          (subst (λ q. Holds m q (utf8 cs)) (sym at) h.1) in
      ap (λ bs. count_characters m str (length bs) i n) e ∙ ground (arith, h.0, ih)
  | inr (e, first) ↦
      let at : str + (i + 1 + 1) ≡ str + i + 1 + 1 = omega arith in
      let next : str + (i + 1) ≡ str + i + 1 = omega arith in
      let h : Holds m (str + i) ((192 + c / 64) ∷ (128 + c % 64) ∷ utf8 cs) =
        subst (Holds m (str + i)) e holds in
      let ih =
        count_from m str (i + 1 + 1) (n + 1) cs chars.1
          (subst (λ q. Holds m q (utf8 cs)) (sym at) h.1.1) in
      ap (λ bs. count_characters m str (length bs) i n) e
      ∙ ground (arith, h.0, first, h.1.0, ap m next, ih)
]

-- `mb_strlen` counts the characters of a text of ASCII and Cyrillic letters in UTF-8, once it may make
-- one round more than the text has bytes.
pub mb_strlen_lem :
    (m : Memory) (p fuel : ℕ) (cs : List ℕ)
    → All IsCharacter cs
    → Holds m p (utf8 cs)
    → length (utf8 cs) < fuel
    → mb_strlen fuel m p ≡ some (length cs)
unfolding mb_strlen
mb_strlen_lem m p fuel cs chars holds enough =
    let str = Holds-IsString m p (utf8 cs) holds (utf8_nonzero cs chars) in
    let at : p ≡ p + 0 = omega arith in
    ground (
      arith,
      strlen_lem m p (length (utf8 cs)) fuel str enough,
      count_from m p 0 0 cs chars (subst (λ q. Holds m q (utf8 cs)) at holds),
    )
