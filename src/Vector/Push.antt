-- ===== src/Vector/Push.antt =====
-- The end of a vector: `vector_push_back` and `vector_pop_back` of libvector.
use nocturne_os_base.Prelude.{
  ℕ, suc, ◌+◌, ◌-◌, ◌*◌, ◌/◌, ◌^◌, ◌<◌, List, [], ◌∷◌, ◌++◌, none, some, leb, ◌==◌, length, get_or,
  set, u32, ◌≡◌, ◌⊎◌, inl, inr, refl, arith, length-set, length-append, get_or-set_self,
  get_or-set_ne, get_or-append_below, get_or-append_from, ◌∙◌, ap, sym, dec_lt, ret, Bool-cases,
  Option-cases,
}
use nocturne_os_base.Vector.{Vector, vec_err, vec_ok, put_back, vector_push_back, vector_pop_back}
use nocturne_os_base.Vector.Inv.{
  Allocator, elements, IsValid, length-elements, elements_ext, get_or-elements,
}

-- `vec'` is `vec` with `x` behind the last element.
pub record Pushes (vec : Vector) (x : ℕ) (vec' : Vector) : Type 0 where
  pub pushed : elements vec' ≡ elements vec ++ (x ∷ [])
  pub sized : vec'.size ≡ vec.size + 1
  pub valid : IsValid vec'

-- The element that goes in last.
get_or-append_last : (xs : List ℕ) (x i : ℕ) → i ≡ length xs → get_or (xs ++ (x ∷ [])) i 0 ≡ x
get_or-append_last xs x i e =
    let first : i - length xs ≡ 0 = omega arith in
    get_or-append_from xs (x ∷ []) i 0 (omega arith) ∙ ap (λ k. get_or (x ∷ []) k 0) first

-- A write behind the last element of `old`, into a buffer `wide` with room that holds the same
-- elements.
put_back-Pushes :
    (old wide : Vector) (x : ℕ)
    → IsValid old
    → length wide.«data» ≡ wide.capacity
    → wide.size ≡ old.size
    → old.size < wide.capacity
    → wide.capacity < 2 ^ 32
    → ((i : ℕ) → i < old.size → get_or wide.«data» i 0 ≡ get_or old.«data» i 0)
    → (vec' : Vector) × (put_back wide x ≡ ret vec') × Pushes old x vec'
unfolding put_back
put_back-Pushes old wide x valid holds size lt small same =
    let vec' : Vector = record wide {
      «data» = set wide.«data» wide.size x;
      size = u32 (wide.size + 1);
    } in
    let valid' : IsValid vec' = record {
      holds = length-set wide.«data» wide.size x ∙ holds;
      fits = omega arith;
    } in
    (
      vec',
      ground arith,
      record {
        pushed =
            elements_ext vec' (elements old ++ (x ∷ [])) valid'
              (omega (arith, length-append (elements old) (x ∷ []), length-elements old valid))
              (λ i hi. elim (dec_lt i old.size) [
                | yes below ↦ ground (
                  arith,
                  get_or-set_ne wide.«data» wide.size i x 0,
                  get_or-append_below (elements old) (x ∷ []) i 0,
                  length-elements old valid,
                  get_or-elements old i,
                  same i,
                )
                | no last ↦ ground (
                  arith,
                  get_or-set_self wide.«data» wide.size x 0,
                  get_or-append_last (elements old) x i,
                  length-elements old valid,
                )
              ]);
        sized = omega arith;
        valid = valid';
      },
    )

module _ (m : Allocator) (vec : Vector) (x : ℕ) (valid : IsValid vec) (pos : 0 < vec.capacity)
    (small : vec.capacity < 2 ^ 29) where
  -- `vector_push_back` on a vector in order, whose buffer is not empty and is far from the end of the
  -- address space, puts the element behind the others and leaves the vector in order. It leaves it
  -- as it was only when it was full and the allocator refused.
  pub push_back-Pushes :
      ((vec.size ≡ vec.capacity)
        × (m.realloc vec.«data» (4 * (vec.capacity + (vec.capacity + 1) / 2)) ≡ none)
        × (vector_push_back m.realloc vec x ≡ ret vec))
      ⊎ ((vec' : Vector) × (vector_push_back m.realloc vec x ≡ ret vec') × Pushes vec x vec')
  unfolding vector_push_back
  push_back-Pushes = elim (Bool-cases (leb vec.capacity vec.size)) [
    | inr room ↦ rw room (
        inr (
          put_back-Pushes vec vec x valid valid.holds refl (ground arith) (omega arith)
            (λ i hi. refl)))
    | inl full ↦
        let bytes : u32 (4 * u32 (vec.capacity + u32 (vec.capacity + 1) / 2))
            ≡ 4 * (vec.capacity + (vec.capacity + 1) / 2) =
          omega arith in
        rw full
          (elim (Option-cases
            (m.realloc vec.«data» (4 * (vec.capacity + (vec.capacity + 1) / 2)))) [
              | inl refused ↦
                  inl (ground (arith, valid.fits, full), refused, rw bytes (rw refused refl))
              | inr (buf, got) ↦ inr (rw bytes (rw got (grown buf got)))
            ])
  ]
    where
      grown :
          (buf : List ℕ)
          → m.realloc vec.«data» (4 * (vec.capacity + (vec.capacity + 1) / 2)) ≡ some buf
          → (vec' : Vector) × (put_back
                (record vec {
                  «data» = buf;
                  capacity = u32 (vec.capacity + u32 (vec.capacity + 1) / 2);
                })
                x
              ≡ ret vec')
            × Pushes vec x vec'
      grown buf got =
          put_back-Pushes vec _ x valid (omega (arith, m.realloc-length vec.«data» _ buf got)) refl
            (omega (arith, valid.fits)) (omega arith)
            (λ i hi.
              m.realloc-get_or vec.«data» _ buf got i (omega (arith, valid.fits, valid.holds))
                (omega (arith, m.realloc-length vec.«data» _ buf got, valid.fits)))

-- `vector_pop_back` on a vector in order takes off the last element and returns it, and is an error on
-- an empty one.
pub pop_back_lem :
    (vec : Vector)
    → IsValid vec
    → ((vec.size ≡ 0) × (vector_pop_back (some vec) ≡ (vec_err, some vec)))
      ⊎ ((x : ℕ) × (vec' : Vector) × (vector_pop_back (some vec) ≡ (vec_ok x, some vec'))
          × Pushes vec' x vec
          × IsValid vec')
unfolding vector_pop_back
pop_back_lem vec valid = elim (Bool-cases (vec.size == 0)) [
  | inl empty ↦ inl (ground (arith, empty), rw empty refl)
  | inr some_left ↦
      let vec' : Vector = record vec { size = vec.size - 1 } in
      let valid' : IsValid vec' = record {
        holds = valid.holds;
        fits = omega (arith, valid.fits);
      } in
      let x = get_or vec.«data» (vec.size - 1) 0 in
      let back : suc (vec.size - 1) ≡ vec.size = ground (arith, some_left) in
      inr (
        x,
        vec',
        rw some_left refl,
        record {
          pushed =
              elements_ext vec (elements vec' ++ (x ∷ [])) valid
                (omega (arith, length-append (elements vec') (x ∷ []), length-elements vec' valid'))
                (λ i hi. elim (dec_lt i (vec.size - 1)) [
                  | yes below ↦ ground (
                    arith,
                    get_or-append_below (elements vec') (x ∷ []) i 0,
                    length-elements vec' valid',
                    get_or-elements vec' i below,
                  )
                  | no last ↦
                      let at_end : i ≡ vec.size - 1 = omega arith in
                      ap (λ k. get_or vec.«data» k 0) at_end
                      ∙ sym (
                          get_or-append_last (elements vec') x i
                            (at_end ∙ sym (length-elements vec' valid')))
                ]);
          sized = omega arith;
          valid = valid;
        },
        valid',
      )
]
