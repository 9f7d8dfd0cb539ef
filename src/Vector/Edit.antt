-- ===== src/Vector/Edit.antt =====
-- `vector_erase_nth`, `vector_insert`, `vector_swap` and `vector_get` of libvector on the elements.
use nocturne_os_base.Prelude.{
  ℕ, suc, ◌+◌, ◌-◌, ◌*◌, ◌^◌, ◌≤◌, ◌<◌, List, ◌∷◌, ◌++◌, some, ltb, ◌==◌, if◌then◌else◌, length,
  get_or, set, take, drop, u32, ◌≡◌, ◌⊎◌, inl, inr, arith, length-set, length-append, length-take,
  length-drop, get_or-set_self, get_or-set_ne, get_or-append_below, get_or-append_from,
  get_or-take_below, get_or-drop, ◌∙◌, ap, dec_lt, ℕ_discrete,
}
use nocturne_os_base.Vector.{
  Vector, vec_err, vec_ok, close_gap, open_gap, vector_erase_nth, vector_resize, write_at,
  vector_insert,
}
use nocturne_os_base.Vector.Inv.{
  Allocator, elements, IsValid, length-elements, elements_ext, get_or-elements, length-close_gap,
  length-open_gap, get_or-close_gap, get_or-open_gap,
}

-- `xs` without element `n`.
abbrev pub erase_nth : List ℕ → ℕ → List ℕ
erase_nth xs n = take n xs ++ drop (n + 1) xs

-- `xs` with `x` in front of element `n`.
abbrev pub insert_nth : List ℕ → ℕ → ℕ → List ℕ
insert_nth xs n x = take n xs ++ (x ∷ drop n xs)

get_or-erase_nth :
    (xs : List ℕ) (n i : ℕ)
    → n < length xs
    → get_or (erase_nth xs n) i 0 ≡ get_or xs (if ltb i n then i else i + 1) 0
get_or-erase_nth xs n i lt = elim (dec_lt i n) [
  | yes below ↦ ground (
    arith,
    get_or-append_below (take n xs) (drop (n + 1) xs) i 0,
    length-take n xs,
    get_or-take_below n xs i 0,
  )
  | no above ↦
      let at : n + 1 + (i - length (take n xs)) ≡ i + 1 = ground (arith, length-take n xs) in
      ground (
        arith,
        get_or-append_from (take n xs) (drop (n + 1) xs) i 0,
        length-take n xs,
        get_or-drop (n + 1) xs (i - length (take n xs)) 0,
        ap (λ k. get_or xs k 0) at,
      )
]

get_or-insert_nth :
    (xs : List ℕ) (n x i : ℕ)
    → n ≤ length xs
    → get_or (insert_nth xs n x) i 0
      ≡ (if ltb i n then get_or xs i 0 else if i == n then x else get_or xs (i - 1) 0)
get_or-insert_nth xs n x i le = elim (dec_lt i n) [
  | yes below ↦ ground (
    arith,
    get_or-append_below (take n xs) (x ∷ drop n xs) i 0,
    length-take n xs,
    get_or-take_below n xs i 0,
  )
  | no above ↦ elim (ℕ_discrete i n) [
    | yes here ↦
        let at : i - length (take n xs) ≡ 0 = omega (arith, length-take n xs) in
        ground (
          arith,
          get_or-append_from (take n xs) (x ∷ drop n xs) i 0,
          length-take n xs,
          ap (λ k. get_or (x ∷ drop n xs) k 0) at,
        )
    | no other ↦
        let at : i - length (take n xs) ≡ suc (i - 1 - n) = omega (arith, length-take n xs) in
        let back : n + (i - 1 - n) ≡ i - 1 = omega arith in
        ground (
          arith,
          get_or-append_from (take n xs) (x ∷ drop n xs) i 0,
          length-take n xs,
          ap (λ k. get_or (x ∷ drop n xs) k 0) at,
          get_or-drop n xs (i - 1 - n) 0,
          ap (λ k. get_or xs k 0) back,
        )
  ]
]

-- `vector_erase_nth` on a vector whose buffer has `capacity` words, in which the elements fit, returns the element at an index in
-- range and takes it out of the elements, which keep their order; out of range it is an error and changes nothing.
pub erase_nth_lem :
    (vec : Vector) (n : ℕ)
    → IsValid vec
    → ((vec.size ≤ n) × (vector_erase_nth (some vec) n ≡ (vec_err, some vec)))
      ⊎ ((vec' : Vector) × (vector_erase_nth (some vec) n
            ≡ (vec_ok (get_or (elements vec) n 0), some vec'))
          × (elements vec' ≡ erase_nth (elements vec) n)
          × (vec'.size + 1 ≡ vec.size)
          × IsValid vec')
unfolding vector_erase_nth
erase_nth_lem vec n valid = elim (dec_lt n vec.size) [
  | no past ↦ inl (omega arith, ground arith)
  | yes lt ↦
      let vec' : Vector = record vec {
        «data» = close_gap vec.«data» (vec.size - 1 - n) n;
        size = vec.size - 1;
      } in
      let valid' : IsValid vec' = record {
        holds = length-close_gap vec.«data» (vec.size - 1 - n) n ∙ valid.holds;
        fits = omega (arith, valid.fits);
      } in
      inr (
        vec',
        ground (arith, get_or-elements vec n lt),
        elements_ext vec' (erase_nth (elements vec) n) valid'
            (omega (
              arith,
              length-append (take n (elements vec)) (drop (n + 1) (elements vec)),
              length-take n (elements vec),
              length-drop (n + 1) (elements vec),
              length-elements vec valid,
            ))
            (λ i hi. ground (
              arith,
              get_or-close_gap vec.«data» (vec.size - 1 - n) n i,
              valid.holds,
              valid.fits,
              get_or-erase_nth (elements vec) n i,
              length-elements vec valid,
              get_or-elements vec i,
              get_or-elements vec (i + 1),
            )),
        omega arith,
        valid',
      )
]

module _ (m : Allocator) (vec : Vector) (index value : ℕ) (valid : IsValid vec)
    (lt : index < vec.size) (small : vec.size < 2 ^ 29) where
  in_words : u32 (4 * u32 (vec.size + 1)) ≡ 4 * (vec.size + 1)
  in_words = omega arith

  -- `vector_insert` in range, on a vector in order with fewer than 2^29 elements, when the allocator
  -- grants a buffer of one word more than the elements: it leaves a vector in order, the value stands in front of the element at that index, and there is one element more.
  pub insert-granted :
      (buf : List ℕ)
      → m.realloc vec.«data» (4 * (vec.size + 1)) ≡ some buf
      → (vec' : Vector) × (vector_insert m.realloc (some vec) index value ≡ some vec')
        × (elements vec' ≡ insert_nth (elements vec) index value)
        × (vec'.size ≡ vec.size + 1)
        × IsValid vec'
  unfolding vector_insert vector_resize write_at
  insert-granted buf got =
      let size' = u32 (vec.size + 1) in
      let len : length buf ≡ size' = omega (arith, m.realloc-length vec.«data» _ buf got) in
      let gap = open_gap buf (size' - 1 - index) (size' - 1) in
      let vec' : Vector = record { «data» = set gap index value; size = size'; capacity = size' } in
      let len_gap : length gap ≡ length buf = length-open_gap buf (size' - 1 - index) (size' - 1) in
      let valid' : IsValid vec' = record {
        holds = length-set gap index value ∙ len_gap ∙ len;
        fits = omega arith;
      } in
      (
        vec',
        ground (arith, in_words, got),
        elements_ext vec' (insert_nth (elements vec) index value) valid'
            (omega (
              arith,
              length-append (take index (elements vec)) (value ∷ drop index (elements vec)),
              length-take index (elements vec),
              length-drop index (elements vec),
              length-elements vec valid,
            ))
            (λ i hi. ground (
              arith,
              get_or-insert_nth (elements vec) index value i,
              length-elements vec valid,
              get_or-set_self gap index value 0,
              get_or-set_ne gap index i value 0,
              len_gap,
              len,
              get_or-open_gap buf (size' - 1 - index) (size' - 1) i,
              m.realloc-get_or vec.«data» _ buf got i,
              m.realloc-get_or vec.«data» _ buf got (i - 1),
              valid.holds,
              valid.fits,
              get_or-elements vec i,
              get_or-elements vec (i - 1),
            )),
        omega arith,
        valid',
      )
