-- ===== src/Vector/Resize.antt =====
-- The buffers of libvector: `vector_new`, `vector_clone`, `vector_swap`, and the calls that leave a
-- vector whose buffer does not hold its elements.
use nocturne_os_base.Prelude.{
  ℕ, ◌+◌, ◌-◌, ◌*◌, ◌/◌, ◌^◌, ◌≤◌, ◌<◌, List, [], ◌++◌, none, some, ltb, ◌==◌, if◌then◌else◌,
  length, get_or, set, take, drop, u32, ◌≡◌, ◌⊎◌, inl, inr, refl, arith, length-set, length-append,
  length-take, length-drop, length-replicate, get_or-set_self, get_or-set_ne, get_or-append_below,
  get_or-take_below, ◌∙◌, ap, dec_lt, ret, fault, Option-cases,
}
use nocturne_os_base.Vector.{
  Vector, vector_swap, vector_resize, write_at, vector_insert, vector_shrink_fit, vector_push_back,
  put_back, vector_new, vector_clone, open_gap,
}
use nocturne_os_base.Vector.Inv.{
  Allocator, elements, IsValid, length-elements, elements_ext, get_or-elements, length-open_gap,
  get_or-open_gap,
}

-- Which element stands at index `i` when two have changed places.
abbrev pub swapped : ℕ → ℕ → ℕ → ℕ
swapped a b i = if i == a then b else if i == b then a else i

-- `vector_swap` on a vector in order with both indices in range exchanges the two elements and leaves
-- the others; out of range it changes nothing.
pub swap_lem :
    (vec : Vector) (a b : ℕ)
    → IsValid vec
    → ((vec.size ≤ a) ⊎ (vec.size ≤ b)) × (vector_swap (some vec) a b ≡ some vec)
      ⊎ ((vec' : Vector) × (vector_swap (some vec) a b ≡ some vec')
          × (vec'.size ≡ vec.size)
          × ((i : ℕ)
              → i < vec.size
              → get_or (elements vec') i 0 ≡ get_or (elements vec) (swapped a b i) 0)
          × IsValid vec')
unfolding vector_swap
swap_lem vec a b valid = elim (dec_lt a vec.size) [
  | no past ↦ inl (inl (omega arith), ground arith)
  | yes a_in ↦ elim (dec_lt b vec.size) [
    | no past ↦ inl (inr (omega arith), ground arith)
    | yes b_in ↦
        let x = get_or vec.«data» a 0 in
        let y = get_or vec.«data» b 0 in
        let half = set vec.«data» b x in
        let vec' : Vector = record vec { «data» = set half a y } in
        inr (
          vec',
          ground arith,
          refl,
          λ i hi. ground (
            arith,
            valid.holds,
            valid.fits,
            get_or-elements vec' i hi,
            get_or-elements vec (swapped a b i),
            get_or-set_self half a y 0,
            get_or-set_ne half a i y 0,
            length-set vec.«data» b x,
            get_or-set_self vec.«data» b x 0,
            get_or-set_ne vec.«data» b i x 0,
          ),
          record {
            holds = length-set half a y ∙ length-set vec.«data» b x ∙ valid.holds;
            fits = valid.fits;
          },
        )
  ]
]

module _ (m : Allocator) (vec : Vector) (index value : ℕ) (valid : IsValid vec)
    (lt : index < vec.size) (small : vec.size < 2 ^ 29) where
  -- `vector_insert` in range, on a vector in order with fewer than 2^29 elements, when the allocator
  -- refuses: the value stands at its index all the same, the elements from there on move up by one,
  -- and the last one is lost, since the size stays.
  pub insert-refused :
      m.realloc vec.«data» (4 * (vec.size + 1)) ≡ none
      → (vec' : Vector) × (vector_insert m.realloc (some vec) index value ≡ some vec')
        × (vec'.size ≡ vec.size)
        × ((i : ℕ)
            → i < vec.size
            → get_or (elements vec') i 0 ≡ (
                if ltb i index
                then get_or (elements vec) i 0
                else if i == index
                then value
                else get_or (elements vec) (i - 1) 0))
        × IsValid vec'
  unfolding vector_insert vector_resize write_at
  insert-refused refused =
      let gap = open_gap vec.«data» (vec.size - 1 - index) (vec.size - 1) in
      let vec' : Vector = record vec { «data» = set gap index value } in
      let in_words : u32 (4 * u32 (vec.size + 1)) ≡ 4 * (vec.size + 1) = omega arith in
      let len : length gap ≡ length vec.«data» =
        length-open_gap vec.«data» (vec.size - 1 - index) (vec.size - 1) in
      (
        vec',
        ground (arith, in_words, refused),
        refl,
        λ i hi. ground (
          arith,
          valid.holds,
          valid.fits,
          len,
          get_or-elements vec' i hi,
          get_or-elements vec i,
          get_or-elements vec (i - 1),
          get_or-set_self gap index value 0,
          get_or-set_ne gap index i value 0,
          get_or-open_gap vec.«data» (vec.size - 1 - index) (vec.size - 1) i,
        ),
        record { holds = length-set gap index value ∙ len ∙ valid.holds; fits = valid.fits },
      )

-- `vector_shrink_fit` of a vector with elements, when the allocator grants the buffer, asks for as many
-- bytes as there are elements: the capacity becomes the number of
-- elements, but the buffer keeps a quarter of them, so the vector is no longer in order.
pub shrink_fit-short :
    (m : Allocator) (vec : Vector) (buf : List ℕ)
    → m.realloc vec.«data» vec.size ≡ some buf
    → 0 < vec.size
    → (vec' : Vector) × (vector_shrink_fit m.realloc (some vec) ≡ some vec')
      × (vec'.capacity ≡ vec.size)
      × (length vec'.«data» ≡ vec.size / 4)
      × ¬ IsValid vec'
unfolding vector_shrink_fit
shrink_fit-short m vec buf got pos =
    let len = m.realloc-length vec.«data» vec.size buf got in
    (
      record vec { «data» = buf; capacity = vec.size },
      ground (arith, got),
      refl,
      len,
      λ valid. omega (arith, len, valid.holds),
    )

-- After `vector_resize` to 0 elements, `vector_push_back` asks for a buffer of 0 bytes again and,
-- when both requests are granted, writes behind it.
pub push_back-resized_to_zero :
    (m : Allocator) (vec : Vector) (buf buf' : List ℕ) (x : ℕ)
    → m.realloc vec.«data» 0 ≡ some buf
    → m.realloc buf 0 ≡ some buf'
    → (vec' : Vector) × (vector_resize m.realloc (some vec) 0 ≡ some vec')
      × (vector_push_back m.realloc vec' x ≡ fault)
unfolding vector_resize vector_push_back put_back
push_back-resized_to_zero m vec buf buf' x got again = (
  record { «data» = buf; size = 0; capacity = 0 },
  ground (arith, got),
  ground (arith, again, m.realloc-length buf 0 buf' again),
)

-- A new vector is in order and empty, and has room for one element.
pub new_lem :
    (m : Allocator) (struct buf : List ℕ)
    → m.calloc 3 ≡ some struct
    → m.calloc 1 ≡ some buf
    → (vec : Vector) × (vector_new m.calloc ≡ some vec)
      × (elements vec ≡ [])
      × (vec.capacity ≡ 1)
      × IsValid vec
unfolding vector_new
new_lem m struct buf got_struct got =
    let zeros = m.calloc-replicate 1 buf got in
    (
      record { «data» = buf; size = 0; capacity = 1 },
      ground (arith, got_struct, got),
      refl,
      refl,
      record { holds = ap length zeros; fits = omega arith },
    )

-- `vector_clone` of a vector in order with a capacity below 2^30, when the allocator grants both
-- buffers, is a vector in order
-- with the same elements and capacity; when it refuses one, the code writes through a null pointer.
pub clone_lem :
    (m : Allocator) (vec : Vector)
    → IsValid vec
    → vec.capacity < 2 ^ 30
    → (((m.calloc 3 ≡ none) ⊎ (m.calloc vec.capacity ≡ none))
        × (vector_clone m.calloc (some vec) ≡ fault))
      ⊎ ((vec' : Vector) × (vector_clone m.calloc (some vec) ≡ ret (some vec'))
          × (elements vec' ≡ elements vec)
          × (vec'.capacity ≡ vec.capacity)
          × IsValid vec')
unfolding vector_clone
clone_lem m vec valid small = elim (Option-cases (m.calloc 3)) [
  | inl refused ↦ inl (inl refused, ground (arith, refused))
  | inr (struct, got_struct) ↦ elim (Option-cases (m.calloc vec.capacity)) [
    | inl refused ↦ inl (inr refused, ground (arith, got_struct, refused))
    | inr (buf, got) ↦
        let n = u32 (4 * vec.capacity) / 4 in
        let all : n ≡ vec.capacity = omega arith in
        let copy : List ℕ = take n vec.«data» ++ drop n buf in
        let vec' : Vector = record vec { «data» = copy } in
        let buf_length : length buf ≡ vec.capacity =
          ap length (m.calloc-replicate vec.capacity buf got) ∙ length-replicate vec.capacity 0 in
        let valid' : IsValid vec' = record {
          holds = omega (
            arith,
            length-append (take n vec.«data») (drop n buf),
            length-take n vec.«data»,
            length-drop n buf,
            buf_length,
            all,
            valid.holds,
          );
          fits = valid.fits;
        } in
        inr (
          vec',
          ground (arith, got_struct, got),
          elements_ext vec' (elements vec) valid' (length-elements vec valid) (λ i hi. ground (
            arith,
            all,
            get_or-append_below (take n vec.«data») (drop n buf) i 0,
            length-take n vec.«data»,
            valid.holds,
            valid.fits,
            get_or-take_below n vec.«data» i 0,
            get_or-elements vec i hi,
          )),
          refl,
          valid',
        )
  ]
]
