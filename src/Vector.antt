-- ===== src/Vector.antt =====
-- The growing arrays of kernel/src/lib/libvector/src/vector.c. The child modules prove what holds of
-- them.
--
-- `data` is the list of words of the buffer. The allocator is the parameter of the operations:
-- `realloc data bytes` and `calloc words` are `none` where the call returns a null pointer.
-- A vector that may be a null pointer is an `Option`. A write of `vector_push_back` behind the buffer
-- is a fault; `vector_destroy`, which only gives memory back, is left out.
pub mod Inv
pub mod Push
pub mod Edit
pub mod Resize
mod Tests
use nocturne_os_base.Prelude.{
  ℕ, zero, suc, ◌+◌, ◌-◌, ◌*◌, ◌/◌, ◌^◌, Bool, true, false, ◌||◌, Option, none, some, List, [], ltb,
  leb, ◌==◌, if◌then◌else◌, length, get_or, set, take, drop, u32, ◌++◌, Outcome, ret, hang, fault,
}

-- `vector_t`.
pub record Vector : Type 0 where
  pub «data» : List ℕ
  pub size : ℕ
  pub capacity : ℕ

-- `vector_result_t`, with the macros `VEC_ERR` and `VEC_OK`.
pub record VectorResult : Type 0 where
  pub error : Bool
  pub element : ℕ

abbrev pub vec_err : VectorResult
vec_err = record { error = true; element = 0 }

abbrev pub vec_ok : ℕ → VectorResult
vec_ok value = record { error = false; element = value }

-- `data[i] = data[i + 1]` for `n` rounds of rising `i`.
pub close_gap : List ℕ → ℕ → ℕ → List ℕ
close_gap buf zero i = buf
close_gap buf (suc n) i = close_gap (set buf i (get_or buf (i + 1) 0)) n (i + 1)

-- `data[i] = data[i - 1]` for `n` rounds of falling `i`.
pub open_gap : List ℕ → ℕ → ℕ → List ℕ
open_gap buf zero i = buf
open_gap buf (suc n) i = open_gap (set buf i (get_or buf (i - 1) 0)) n (i - 1)

-- `vec->data[vec->size++] = element`.
pub put_back : Vector → ℕ → Outcome Vector
put_back vec element =
    if ltb vec.size (length vec.«data»)
    then ret (record vec { «data» = set vec.«data» vec.size element; size = u32 (vec.size + 1) })
    else fault

pub vector_pop_back : Option Vector → VectorResult × Option Vector
vector_pop_back none = (vec_err, none)
vector_pop_back (some vec) =
    if vec.size == 0
    then (vec_err, some vec)
    else (vec_ok (get_or vec.«data» (vec.size - 1) 0), some (record vec { size = vec.size - 1 }))

pub vector_get : Option Vector → ℕ → VectorResult
vector_get none index = vec_err
vector_get (some vec) index =
    if leb vec.size index then vec_err else vec_ok (get_or vec.«data» index 0)

pub vector_erase_nth : Option Vector → ℕ → VectorResult × Option Vector
vector_erase_nth none n = (vec_err, none)
vector_erase_nth (some vec) n = if leb vec.size n then (vec_err, some vec) else (
  vec_ok (get_or vec.«data» n 0),
  some (record vec { «data» = close_gap vec.«data» (vec.size - 1 - n) n; size = vec.size - 1 }),
)

pub vector_swap : Option Vector → ℕ → ℕ → Option Vector
vector_swap none first second = none
vector_swap (some vec) first second =
    if leb vec.size first || leb vec.size second
    then some vec
    else let b = get_or vec.«data» second 0 in
      some (record vec { «data» = set (set vec.«data» second (get_or vec.«data» first 0)) first b })

module _ (realloc : List ℕ → ℕ → Option (List ℕ)) where
  pub vector_resize : Option Vector → ℕ → Option Vector
  vector_resize none size = none
  vector_resize (some vec) size = elim (realloc vec.«data» (u32 (4 * size))) [
    | none ↦ some vec
    | some new_buf ↦ some (record { «data» = new_buf; size = size; capacity = size })
  ]

  pub vector_push_back : Vector → ℕ → Outcome Vector
  vector_push_back vec element =
      let new_cap = u32 (vec.capacity + u32 (vec.capacity + 1) / 2) in
      if leb vec.capacity vec.size
      then elim (realloc vec.«data» (u32 (4 * new_cap))) [
        | none ↦ ret vec
        | some new_buf ↦ put_back (record vec { «data» = new_buf; capacity = new_cap }) element
      ]
      else put_back vec element

  pub vector_shrink_fit : Option Vector → Option Vector
  vector_shrink_fit none = none
  vector_shrink_fit (some vec) = elim (realloc vec.«data» vec.size) [
    | none ↦ some vec
    | some new_buf ↦ some (record vec { «data» = new_buf; capacity = vec.size })
  ]

  -- The end of `vector_insert`, on the vector that `vector_resize` has left.
  pub write_at : ℕ → ℕ → Option Vector → Option Vector
  write_at index value none = none
  write_at index value (some vec) = some (record vec {
    «data» = set (open_gap vec.«data» (vec.size - 1 - index) (vec.size - 1)) index value;
  })

  pub vector_insert : Option Vector → ℕ → ℕ → Option Vector
  vector_insert none index value = none
  vector_insert (some vec) index value =
      if leb vec.size index
      then some vec
      else write_at index value (vector_resize (some vec) (u32 (vec.size + 1)))

module _ (calloc : ℕ → Option (List ℕ)) where
  pub vector_new : Option Vector
  vector_new = elim (calloc 3) [
    | none ↦ none
    | some _ ↦ elim (calloc 1) [
      | none ↦ none
      | some buf ↦ some (record { «data» = buf; size = 0; capacity = 1 })
    ]
  ]

  -- A null pointer in `data` is an empty buffer.
  pub vector_erase_all : Option Vector → Option Vector
  vector_erase_all none = none
  vector_erase_all (some vec) = elim (calloc 1) [
    | none ↦ some (record { «data» = []; size = 0; capacity = 1 })
    | some buf ↦ some (record { «data» = buf; size = 0; capacity = 1 })
  ]

  -- The code does not test what `calloc` returns, and copies to it.
  pub vector_clone : Option Vector → Outcome (Option Vector)
  vector_clone none = ret none
  vector_clone (some original) = elim (calloc 3) [
    | none ↦ fault
    | some _ ↦ elim (calloc original.capacity) [
      | none ↦ fault
      | some buf ↦
          let copied = u32 (4 * original.capacity) / 4 in
          ret (
            some (record {
              «data» = take copied original.«data» ++ drop copied buf;
              size = original.size;
              capacity = original.capacity;
            }))
    ]
  ]
