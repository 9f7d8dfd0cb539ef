-- ===== src/Vector/Inv.antt =====
-- What the vectors of libvector hold, and what they ask of the allocator.
use nocturne_os_base.Prelude.{
  ℕ, zero, suc, ◌+◌, ◌-◌, ◌/◌, ◌≤◌, ◌<◌, ◌&&◌, List, Option, some, ltb, leb, if◌then◌else◌, length,
  get_or, set, take, replicate, ◌≡◌, refl, arith, length-set, length-take, get_or-set_self,
  get_or-set_ne, get_or-take_below, get_or_ext, get_or-past, ◌∙◌, dec_lt,
}
use nocturne_os_base.Vector.{Vector, close_gap, open_gap}

-- The calls `realloc` and `calloc`, which kernel/include/lib/portability.h takes from the heap, with a condition under which the
-- lemmas on growing vectors hold: a buffer of the size asked for, which keeps the words of the old one or is zero.
-- `krealloc_common` meets it where the block stays in place or moves to a block behind it, and does not where the
-- new block stands in front of the old one (Kmalloc/Move).
pub record Allocator : Type 0 where
  pub realloc : List ℕ → ℕ → Option (List ℕ)
  pub calloc : ℕ → Option (List ℕ)
  pub realloc-length :
      (old : List ℕ) (bytes : ℕ) (new : List ℕ)
      → realloc old bytes ≡ some new
      → length new ≡ bytes / 4
  pub realloc-get_or :
      (old : List ℕ) (bytes : ℕ) (new : List ℕ)
      → realloc old bytes ≡ some new
      → (i : ℕ) → i < length old
      → i < length new
      → get_or new i 0 ≡ get_or old i 0
  pub calloc-replicate : (n : ℕ) (new : List ℕ) → calloc n ≡ some new → new ≡ replicate n 0

-- The elements of a vector.
abbrev pub elements : Vector → List ℕ
elements vec = take vec.size vec.«data»

-- The buffer has `capacity` words, and the elements fit in it.
pub record IsValid (vec : Vector) : Type 0 where
  pub holds : length vec.«data» ≡ vec.capacity
  pub fits : vec.size ≤ vec.capacity

pub length-elements : (vec : Vector) → IsValid vec → length (elements vec) ≡ vec.size
length-elements vec valid = ground (arith, length-take vec.size vec.«data», valid.holds, valid.fits)

-- Equal element by element.
pub elements_ext :
    (vec : Vector) (xs : List ℕ)
    → IsValid vec
    → length xs ≡ vec.size
    → ((i : ℕ) → i < vec.size → get_or vec.«data» i 0 ≡ get_or xs i 0)
    → elements vec ≡ xs
elements_ext vec xs valid len same =
    get_or_ext 0 (elements vec) xs (length-elements vec valid ∙ (omega (arith, len))) (λ i.
      elim (dec_lt i vec.size) [
        | yes lt ↦ get_or-take_below vec.size vec.«data» i 0 lt ∙ same i lt
        | no ge ↦ ground (
          arith,
          get_or-past (elements vec) i 0 (omega (arith, length-elements vec valid)),
          get_or-past xs i 0,
        )
      ])

pub get_or-elements :
    (vec : Vector) (i : ℕ) → i < vec.size → get_or (elements vec) i 0 ≡ get_or vec.«data» i 0
get_or-elements vec i lt = get_or-take_below vec.size vec.«data» i 0 lt

pub length-close_gap : (buf : List ℕ) (n i : ℕ) → length (close_gap buf n i) ≡ length buf
unfolding close_gap
length-close_gap buf zero i = refl
length-close_gap buf (suc n) i =
    length-close_gap (set buf i (get_or buf (i + 1) 0)) n (i + 1) ∙ length-set buf i _

pub length-open_gap : (buf : List ℕ) (n i : ℕ) → length (open_gap buf n i) ≡ length buf
unfolding open_gap
length-open_gap buf zero i = refl
length-open_gap buf (suc n) i =
    length-open_gap (set buf i (get_or buf (i - 1) 0)) n (i - 1) ∙ length-set buf i _

pub get_or-close_gap :
    (buf : List ℕ) (n i k : ℕ)
    → i + n < length buf
    → get_or (close_gap buf n i) k 0
      ≡ (if leb i k && ltb k (i + n) then get_or buf (k + 1) 0 else get_or buf k 0)
unfolding close_gap
get_or-close_gap buf zero i k h = ground arith
get_or-close_gap buf (suc n) i k h =
    let v = get_or buf (i + 1) 0 in
    ground (
      arith,
      length-set buf i v,
      get_or-close_gap (set buf i v) n (i + 1) k,
      get_or-set_self buf i v 0,
      get_or-set_ne buf i k v 0,
      get_or-set_ne buf i (k + 1) v 0,
    )

pub get_or-open_gap :
    (buf : List ℕ) (n i k : ℕ)
    → n ≤ i
    → i < length buf
    → get_or (open_gap buf n i) k 0
      ≡ (if ltb (i - n) k && leb k i then get_or buf (k - 1) 0 else get_or buf k 0)
unfolding open_gap
get_or-open_gap buf zero i k le h = ground arith
get_or-open_gap buf (suc n) i k le h =
    let v = get_or buf (i - 1) 0 in
    ground (
      arith,
      length-set buf i v,
      get_or-open_gap (set buf i v) n (i - 1) k,
      get_or-set_self buf i v 0 h,
      get_or-set_ne buf i k v 0,
      get_or-set_ne buf i (k - 1) v 0,
    )
