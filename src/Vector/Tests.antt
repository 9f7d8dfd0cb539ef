-- ===== src/Vector/Tests.antt =====
-- The vectors of libvector with allocators that always and never grant a request.
use nocturne_os_base.Prelude.{
  ℕ, ◌/◌, ◌+◌, ◌≤◌, ◌<◌, List, [], ◌∷◌, ◌++◌, none, some, length, get_or, take, replicate, ◌≡◌, ◌⊎◌,
  refl, arith, length-append, length-take, length-replicate, get_or-append_below, get_or-take_below,
  ret, ◌∙◌, sym, ap,
}
use nocturne_os_base.Vector.{
  Vector, put_back, vector_push_back, vector_resize, write_at, vector_insert, open_gap,
  vector_erase_nth, vec_err, vec_ok,
}
use nocturne_os_base.Vector.Inv.{Allocator, elements, IsValid}
use nocturne_os_base.Vector.Edit.{erase_nth_lem}

abbrev grown : List ℕ → ℕ → List ℕ
grown old bytes = take (bytes / 4) (old ++ replicate (bytes / 4) 0)

some_injective : (xs ys : List ℕ) → some xs ≡ some ys → xs ≡ ys
some_injective xs ys e = cc

length-grown : (old : List ℕ) (bytes : ℕ) → length (grown old bytes) ≡ bytes / 4
length-grown old bytes = omega (
  arith,
  length-take (bytes / 4) (old ++ replicate (bytes / 4) 0),
  length-append old (replicate (bytes / 4) 0),
  length-replicate {A = ℕ} (bytes / 4) 0,
)

get_or-grown :
    (old : List ℕ) (bytes i : ℕ)
    → i < length old
    → i < length (grown old bytes)
    → get_or (grown old bytes) i 0 ≡ get_or old i 0
get_or-grown old bytes i hi hn =
    get_or-take_below (bytes / 4) (old ++ replicate (bytes / 4) 0) i 0
      (omega (arith, length-grown old bytes))
    ∙ get_or-append_below old (replicate (bytes / 4) 0) i 0 hi

abbrev generous : Allocator
generous = record {
  realloc = λ old bytes. some (grown old bytes);
  calloc = λ n. some (replicate n 0);
  realloc-length = λ old bytes new e.
      ap length (sym (some_injective (grown old bytes) new e)) ∙ length-grown old bytes;
  realloc-get_or =
      λ old bytes new e. subst_new old bytes new (some_injective (grown old bytes) new e);
  calloc-replicate = λ n new e. sym (some_injective (replicate n 0) new e);
}
  where
    subst_new :
        (old : List ℕ) (bytes : ℕ) (new : List ℕ)
        → grown old bytes ≡ new
        → (i : ℕ) → i < length old
        → i < length new
        → get_or new i 0 ≡ get_or old i 0
    subst_new old bytes new e i hi hn = ground (arith, e, get_or-grown old bytes i hi)

abbrev stingy : Allocator
stingy = record {
  realloc = λ old bytes. none;
  calloc = λ n. none;
  realloc-length = λ old bytes new e. absurd cc;
  realloc-get_or = λ old bytes new e. absurd cc;
  calloc-replicate = λ n new e. absurd cc;
}

-- Three elements in a full buffer.
abbrev three : Vector
three = record { «data» = 10 ∷ 20 ∷ 30 ∷ []; size = 3; capacity = 3 }

three-IsValid : IsValid three
three-IsValid = record { holds = refl; fits = omega arith }

push_back_grows :
    vector_push_back generous.realloc three 40
    ≡ ret (record { «data» = 10 ∷ 20 ∷ 30 ∷ 40 ∷ 0 ∷ []; size = 4; capacity = 5 })
unfolding vector_push_back put_back
push_back_grows = refl

insert_in_the_middle :
    vector_insert generous.realloc (some three) 1 15
    ≡ some (record { «data» = 10 ∷ 15 ∷ 20 ∷ 30 ∷ []; size = 4; capacity = 4 })
unfolding vector_insert vector_resize write_at open_gap
insert_in_the_middle = refl

insert_without_memory :
    vector_insert stingy.realloc (some three) 1 15
    ≡ some (record { «data» = 10 ∷ 15 ∷ 20 ∷ []; size = 3; capacity = 3 })
unfolding vector_insert vector_resize write_at open_gap
insert_without_memory = refl

erase_nth_lem_example :
    ((3 ≤ 1) × (vector_erase_nth (some three) 1 ≡ (vec_err, some three)))
    ⊎ ((vec' : Vector) × (vector_erase_nth (some three) 1 ≡ (vec_ok 20, some vec'))
        × (elements vec' ≡ 10 ∷ 30 ∷ [])
        × (vec'.size + 1 ≡ 3)
        × IsValid vec')
erase_nth_lem_example = erase_nth_lem three 1 three-IsValid
