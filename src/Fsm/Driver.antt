-- ===== src/Fsm/Driver.antt =====
-- Looking a driver up by its name, in kernel/src/fs/fsm.c.
use nocturne_os_base.Prelude.{
  ℕ, suc, ◌+◌, ◌-◌, ◌^◌, ◌<◌, Option, none, some, List, [], ◌∷◌, if◌then◌else◌, length, get_elem?,
  ◌≡◌, refl, arith, inl, inr, ◌⊎◌, Bool-cases,
}
use nocturne_os_base.Fsm.{
  Name, same_name, FilesystemHandler, FsmMount, id_from, fsm_get_id_by_name,
  fsm_get_disk_filesystem,
}

-- The first driver with a name.
abbrev pub driver_named :
    {W : Type 0} → List (FilesystemHandler W) → Name → Option (FilesystemHandler W)
driver_named [] name = none
driver_named (f ∷ fs) name =
    let rest = driver_named fs name in if same_name f.name name then some f else rest

-- The driver of the file system on a disk.
abbrev pub driver_of :
    {W : Type 0} → List (FilesystemHandler W) → List FsmMount → Name → Option (FilesystemHandler W)
driver_of filesystems mounts disk_id = elim (fsm_get_disk_filesystem mounts disk_id) [
  | none ↦ none
  | some name ↦ driver_named filesystems name
]

module _ {W : Type 0} where
  -- The index of a name is that of its first driver, or the error value.
  id_from-driver :
      (fs : List (FilesystemHandler W)) (name : Name) (i : ℕ)
      → i + length fs < 2 ^ 32
      → ((driver_named fs name ≡ none) × (id_from fs name i ≡ 2 ^ 32 - 1))
        ⊎ ((k : ℕ) × (f : FilesystemHandler W) × (driver_named fs name ≡ some f)
            × (id_from fs name i ≡ i + k)
            × (get_elem? fs k ≡ some f)
            × (k < length fs))
  unfolding id_from
  id_from-driver [] name i small = inl (refl, refl)
  id_from-driver (f ∷ fs) name i small = elim (Bool-cases (same_name f.name name)) [
    | inl here ↦ inr (0, f, ground (arith, here), ground (arith, here), refl, omega arith)
    | inr other ↦ elim (id_from-driver fs name (i + 1) (omega arith)) [
      | inl (no_driver, error) ↦
          inl (ground (arith, other, no_driver), ground (arith, other, error))
      | inr (k, g, named, index, at, lt) ↦
          inr
            (suc k, g, ground (arith, other, named), ground (arith, other, index), at, omega arith)
    ]
  ]

  -- `fsm_getIDbyName` gives the index of the first driver with the name, or -1 if none has it.
  pub fsm_get_id_by_name_lem :
      (fs : List (FilesystemHandler W)) (name : Name)
      → length fs < 2 ^ 32
      → ((driver_named fs name ≡ none) × (fsm_get_id_by_name fs name ≡ 2 ^ 32 - 1))
        ⊎ ((k : ℕ) × (f : FilesystemHandler W) × (driver_named fs name ≡ some f)
            × (fsm_get_id_by_name fs name ≡ k)
            × (get_elem? fs k ≡ some f)
            × (k < length fs))
  unfolding fsm_get_id_by_name
  fsm_get_id_by_name_lem fs name small = elim (id_from-driver fs name 0 (omega arith)) [
    | inl (no_driver, error) ↦ inl (no_driver, error)
    | inr (k, f, named, index, at, lt) ↦ inr (k, f, named, omega (arith, index), at, lt)
  ]
