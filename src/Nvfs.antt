-- ===== src/Nvfs.antt =====
-- The virtual file system kernel/src/fs/nvfs.c over the file system manager of Fsm, with the decoding of names that
-- rust/noct-nvfs/src/lib.rs does for it. The child modules prove what holds of them.
--
-- A file name is a list of bytes that are UTF-8. A disk name that leaves no room for a final zero in the 32 bytes of `disk_id`
-- is `fault`: the copy panics, or the name is not ended. What is freed is left out.
pub mod Dispatch
pub mod Tests
use nocturne_os_base.Prelude.{
  ℕ, zero, suc, ◌+◌, ◌-◌, ◌^◌, Bool, true, false, ◌&&◌, Option, none, some, List, [], ◌∷◌, leb,
  ◌==◌, if◌then◌else◌, length, Outcome, ret, fault, ◌>>=◌,
}
use nocturne_os_base.Fsm.{
  Name, FsmFile, FsmDir, no_file, FilesystemHandler, FsmMount, fsm_get_id_by_name, fsm_read,
  fsm_create, fsm_delete, fsm_write, fsm_info, fsm_dir, fsm_get_disk_filesystem,
}

-- `NVFS_DECINFO`.
pub record DecInfo : Type 0 where
  pub ready : Bool
  pub disk_id : Name
  pub path : Name
  pub online : Bool
  pub driver_fs : ℕ

-- What stands in front of the first `:/`, and what stands behind it.
pub split_once : Name → Option (Name × Name)
split_once [] = none
split_once (c ∷ []) = none
split_once (c ∷ (d ∷ rest)) =
    let later : Option (Name × Name) = elim (split_once (d ∷ rest)) [
      | none ↦ none
      | some (front, back) ↦ some (c ∷ front, back)
    ] in
    if c == 58 && d == 47 then some ([], rest) else later

-- The next stem: what stands in front of the next `:/`, or all.
pub stem : Name → Name
stem rest = elim (split_once rest) [ none ↦ rest | some (front, back) ↦ front ]

abbrev pub no_info : DecInfo
no_info = record { ready = false; disk_id = []; path = []; online = false; driver_fs = 0 }

-- The result of `nvfs_decode` once the disk and the path are split: `fs` is the name of the file
-- system that is mounted there.
pub decoded : {W : Type 0} → List (FilesystemHandler W) → DecInfo → Option Name → DecInfo
decoded filesystems info fs = elim fs [
  | none ↦ info
  | some name ↦
      let index = fsm_get_id_by_name filesystems name in
      if index == 2 ^ 32 - 1
      then record info { driver_fs = index }
      else record info { driver_fs = index; online = true; ready = true }
]

pub nvfs_decode : {W : Type 0} → List (FilesystemHandler W) → List FsmMount → Name → Outcome DecInfo
nvfs_decode filesystems mounts name = elim (split_once name) [
  | none ↦ ret no_info
  | some (disk_id, rest) ↦
      let info = record no_info { disk_id = disk_id; path = 47 ∷ stem rest } in
      if leb 32 (length disk_id)
      then fault
      else ret (decoded filesystems info (fsm_get_disk_filesystem mounts disk_id))
]

module _ {W : Type 0} (filesystems : List (FilesystemHandler W)) (mounts : List FsmMount) where
  pub nvfs_read : Name → ℕ → ℕ → ℕ → W → Outcome (ℕ × W)
  nvfs_read name offset count buffer w = nvfs_decode filesystems mounts name >>= λ vinfo. ret (
      if vinfo.ready
      then fsm_read filesystems vinfo.driver_fs vinfo.disk_id vinfo.path offset count buffer w
      else (0, w))

  pub nvfs_create : Name → ℕ → W → Outcome (ℕ × W)
  nvfs_create name mode w = nvfs_decode filesystems mounts name >>= λ vinfo. ret (
      if vinfo.ready
      then fsm_create filesystems vinfo.driver_fs vinfo.disk_id vinfo.path mode w
      else (0, w))

  pub nvfs_delete : Name → ℕ → W → Outcome (ℕ × W)
  nvfs_delete name mode w = nvfs_decode filesystems mounts name >>= λ vinfo. ret (
      if vinfo.ready
      then fsm_delete filesystems vinfo.driver_fs vinfo.disk_id vinfo.path mode w
      else (0, w))

  pub nvfs_write : Name → ℕ → ℕ → ℕ → W → Outcome (ℕ × W)
  nvfs_write name offset count buffer w = nvfs_decode filesystems mounts name >>= λ vinfo. ret (
      if vinfo.ready
      then fsm_write filesystems vinfo.driver_fs vinfo.disk_id vinfo.path offset count buffer w
      else (0, w))

  pub nvfs_info : Name → W → Outcome (FsmFile × W)
  nvfs_info name w = nvfs_decode filesystems mounts name >>= λ vinfo. ret (
      if vinfo.ready
      then fsm_info filesystems vinfo.driver_fs vinfo.disk_id vinfo.path w
      else (no_file, w))

  pub nvfs_dir_v2 : Name → FsmDir → W → Outcome (FsmDir × W)
  nvfs_dir_v2 name dir w = nvfs_decode filesystems mounts name >>= λ vinfo.
      let listed = fsm_dir filesystems vinfo.driver_fs vinfo.disk_id vinfo.path dir w in
      if vinfo.ready then listed else ret (record dir { ready = false }, w)
