-- ===== src/Descriptors/Table.antt =====
-- The table of kernel/src/sys/file_descriptors.c as descriptors are allocated and closed.
use nocturne_os_base.Prelude.{
  ℕ, ◌+◌, ◌^◌, ◌≤◌, ◌<◌, true, none, some, List, [], ◌∷◌, ◌++◌, ◌==◌, if◌then◌else◌, u32, ◌≡◌, ◌≢◌,
  refl, arith, ap, ◌∙◌, inl, inr, Bool-cases, ℕ_discrete, ret,
}
use nocturne_os_base.Fsm.{Name, FilesystemHandler, FsmMount}
use nocturne_os_base.Stdio.{File, fopen}
use nocturne_os_base.Descriptors.{
  FdInfo, Descriptors, find_fd, erase_fd, is_invalid, file_descriptor_get, file_descriptor_allocate,
  file_descriptor_close,
}

-- No descriptor is given twice.
abbrev pub IsDistinct : List FdInfo → Type 0
IsDistinct [] = Unit
IsDistinct (inf ∷ infos) = (find_fd infos inf.fd ≡ none) × IsDistinct infos

-- And each is below the next one to be given.
pub record IsValid (d : Descriptors) : Type 0 where
  pub distinct : IsDistinct d.infos
  pub below : (fd : ℕ) → d.last_descriptor_number ≤ fd → find_fd d.infos fd ≡ none
  pub fits : d.last_descriptor_number < 2 ^ 31

find_fd-append :
    (infos : List FdInfo) (inf : FdInfo) (fd : ℕ)
    → find_fd (infos ++ (inf ∷ [])) fd ≡ (elim (find_fd infos fd) [
      | some i ↦ some i
      | none ↦ if inf.fd == fd then some inf else none
    ])
unfolding find_fd
find_fd-append [] inf fd = refl
find_fd-append (i ∷ infos) inf fd = ground (arith, find_fd-append infos inf fd)

append-IsDistinct :
    (infos : List FdInfo) (inf : FdInfo)
    → find_fd infos inf.fd ≡ none
    → IsDistinct infos
    → IsDistinct (infos ++ (inf ∷ []))
unfolding find_fd
append-IsDistinct [] inf free h = (refl, tt)
append-IsDistinct (i ∷ infos) inf free (alone, h) = elim (Bool-cases (i.fd == inf.fd)) [
  | inl same ↦ absurd (ground (arith, free, same))
  | inr other ↦ (
    ground (arith, find_fd-append infos inf i.fd, alone, other),
    append-IsDistinct infos inf (ground (arith, free, other)) h,
  )
]

find_fd-erase_other :
    (infos : List FdInfo) (fd other : ℕ)
    → other ≢ fd
    → find_fd (erase_fd infos fd) other ≡ find_fd infos other
unfolding find_fd erase_fd
find_fd-erase_other [] fd other ne = refl
find_fd-erase_other (i ∷ infos) fd other ne =
    ground (arith, find_fd-erase_other infos fd other ne, ne)

find_fd-erase_same :
    (infos : List FdInfo) (fd : ℕ) → IsDistinct infos → find_fd (erase_fd infos fd) fd ≡ none
unfolding find_fd erase_fd
find_fd-erase_same [] fd h = refl
find_fd-erase_same (i ∷ infos) fd (alone, h) = elim (ℕ_discrete i.fd fd) [
  | yes here ↦ ground (arith, here, alone, ap (find_fd infos) here)
  | no other ↦ ground (arith, other, find_fd-erase_same infos fd h)
]

erase-IsDistinct :
    (infos : List FdInfo) (fd : ℕ) → IsDistinct infos → IsDistinct (erase_fd infos fd)
unfolding erase_fd
erase-IsDistinct [] fd h = h
erase-IsDistinct (i ∷ infos) fd (alone, h) = elim (Bool-cases (i.fd == fd)) [
  | inl here ↦ rw here h
  | inr other ↦ rw other (
    find_fd-erase_other infos fd i.fd (λ e. ground (arith, other, e)) ∙ alone,
    erase-IsDistinct infos fd h,
  )
]

is_invalid-le :
    (fd : ℕ) (d : Descriptors)
    → d.last_descriptor_number < 2 ^ 31
    → is_invalid fd d ≡ true
    → d.last_descriptor_number ≤ fd
unfolding is_invalid
is_invalid-le fd d fits invalid = ground (arith, invalid)

-- `file_descriptor_allocate` of a file that `fopen` opens gives the next descriptor. It leads to the file then, the other
-- descriptors lead where they led, and the table stays well-formed.
pub allocate-get :
    {W : Type 0} (filesystems : List (FilesystemHandler W)) (mounts : List FsmMount)
    (filename : Name) (mode : ℕ) (d : Descriptors) (file : File) (w w' : W)
    → IsValid d
    → d.last_descriptor_number + 1 < 2 ^ 31
    → fopen filesystems mounts filename mode w ≡ ret (some file, w')
    → let fd = d.last_descriptor_number in
      (d' : Descriptors) × (file_descriptor_allocate filesystems mounts filename mode d w
        ≡ ret (fd, d', w'))
      × (file_descriptor_get fd d' ≡ some (record { fd = fd; file = file }))
      × ((other : ℕ) → other ≢ fd → file_descriptor_get other d' ≡ file_descriptor_get other d)
      × IsValid d'
unfolding file_descriptor_allocate file_descriptor_get
allocate-get filesystems mounts filename mode d file w w' valid fits opened =
    let fd = d.last_descriptor_number in
    let inf : FdInfo = record { fd = fd; file = file } in
    let free = valid.below fd (omega arith) in
    (
      record { infos = d.infos ++ (inf ∷ []); last_descriptor_number = u32 (fd + 1) },
      rw opened refl,
      ground (arith, find_fd-append d.infos inf fd, free),
      (λ other ne. ground (arith, find_fd-append d.infos inf other, ne)),
      record {
        distinct = append-IsDistinct d.infos inf free valid.distinct;
        below = λ other le.
            ground (arith, find_fd-append d.infos inf other, valid.below other (omega arith));
        fits = omega arith;
      },
    )

-- After `file_descriptor_close` the descriptor leads nowhere, the others lead where they led, and the table stays well-formed.
pub close-get :
    (fd : ℕ) (d : Descriptors)
    → IsValid d
    → (file_descriptor_get fd (file_descriptor_close fd d) ≡ none)
      × ((other : ℕ)
          → other ≢ fd
          → file_descriptor_get other (file_descriptor_close fd d) ≡ file_descriptor_get other d)
      × IsValid (file_descriptor_close fd d)
unfolding file_descriptor_close file_descriptor_get
close-get fd d valid = elim (Bool-cases (is_invalid fd d)) [
  | inl invalid ↦
      rw invalid (valid.below fd (is_invalid-le fd d valid.fits invalid), (λ other ne. refl), valid)
  | inr fine ↦ rw fine (
    find_fd-erase_same d.infos fd valid.distinct,
    find_fd-erase_other d.infos fd,
    record {
      distinct = erase-IsDistinct d.infos fd valid.distinct;
      below = λ other le. elim (ℕ_discrete other fd) [
        | yes here ↦
            ap (find_fd (erase_fd d.infos fd)) here ∙ find_fd-erase_same d.infos fd valid.distinct
        | no ne ↦ find_fd-erase_other d.infos fd other ne ∙ valid.below other le
      ];
      fits = valid.fits;
    },
  )
]
