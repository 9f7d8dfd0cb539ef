-- ===== src/Nvfs/Tests.antt =====
-- Names through the virtual file system.
use nocturne_os_base.Prelude.{true, [], ◌∷◌, ◌≡◌, refl, ret}
use nocturne_os_base.Fsm.{
  Name, FsmFile, no_file, same_name, fsm_get_disk_filesystem, id_from, fsm_get_id_by_name, fsm_info,
  fsm_write,
}
use nocturne_os_base.Fsm.Tests.{drivers, mounts}
use nocturne_os_base.Nvfs.{split_once, stem, decoded, nvfs_decode, nvfs_info, nvfs_write}

-- `a0:/x`.
abbrev pub name : Name
name = 97 ∷ 48 ∷ 58 ∷ 47 ∷ 120 ∷ []

-- The driver of the disk knows a file of ten bytes, and writes.
abbrev pub ten_bytes : FsmFile
ten_bytes = record no_file { ready = true; size = 10 }

pub name_info : nvfs_info drivers mounts name 0 ≡ ret (ten_bytes, 0)
unfolding nvfs_info nvfs_decode decoded split_once stem same_name fsm_get_disk_filesystem id_from
    fsm_get_id_by_name fsm_info
name_info = refl

pub name_write : nvfs_write drivers mounts name 8 4 1 0 ≡ ret (4, 1)
unfolding nvfs_write nvfs_decode decoded split_once stem same_name fsm_get_disk_filesystem id_from
    fsm_get_id_by_name fsm_write
name_write = refl
