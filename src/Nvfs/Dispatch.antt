-- ===== src/Nvfs/Dispatch.antt =====
-- Which driver a name reaches through kernel/src/fs/nvfs.c.
use nocturne_os_base.Prelude.{ℕ, false, none, List, ◌≡◌, refl, ret}
use nocturne_os_base.Fsm.{Name, no_file, FsmDir, FilesystemHandler, FsmMount}
use nocturne_os_base.Nvfs.{
  DecInfo, no_info, split_once, nvfs_decode, nvfs_read, nvfs_create, nvfs_delete, nvfs_write,
  nvfs_info, nvfs_dir_v2,
}

-- A name that leads to a driver: each operation is that of the driver, with the name of the disk and the path.
pub record Reaches {W : Type 0} (filesystems : List (FilesystemHandler W)) (mounts : List FsmMount)
    (name disk path : Name) (f : FilesystemHandler W) : Type 0 where
  pub reads :
      (offset count buffer : ℕ) (w : W)
      → nvfs_read filesystems mounts name offset count buffer w
        ≡ ret (f.read disk path offset count buffer w)
  pub writes :
      (offset count buffer : ℕ) (w : W)
      → nvfs_write filesystems mounts name offset count buffer w
        ≡ ret (f.write disk path offset count buffer w)
  pub creates :
      (mode : ℕ) (w : W)
      → nvfs_create filesystems mounts name mode w ≡ ret (f.create disk path mode w)
  pub deletes :
      (mode : ℕ) (w : W)
      → nvfs_delete filesystems mounts name mode w ≡ ret (f.delete disk path mode w)
  pub infos : (w : W) → nvfs_info filesystems mounts name w ≡ ret (f.info disk path w)
  pub dirs :
      (out : FsmDir) (w : W)
      → nvfs_dir_v2 filesystems mounts name out w ≡ ret (f.dir disk path out w)

-- A name that leads to none: each operation fails and touches no disk.
pub record Refuses {W : Type 0} (filesystems : List (FilesystemHandler W)) (mounts : List FsmMount)
    (name : Name) : Type 0 where
  pub reads :
      (offset count buffer : ℕ) (w : W)
      → nvfs_read filesystems mounts name offset count buffer w ≡ ret (0, w)
  pub writes :
      (offset count buffer : ℕ) (w : W)
      → nvfs_write filesystems mounts name offset count buffer w ≡ ret (0, w)
  pub creates : (mode : ℕ) (w : W) → nvfs_create filesystems mounts name mode w ≡ ret (0, w)
  pub deletes : (mode : ℕ) (w : W) → nvfs_delete filesystems mounts name mode w ≡ ret (0, w)
  pub infos : (w : W) → nvfs_info filesystems mounts name w ≡ ret (no_file, w)
  pub dirs :
      (out : FsmDir) (w : W)
      → nvfs_dir_v2 filesystems mounts name out w ≡ ret (record out { ready = false }, w)

module _ {W : Type 0} (filesystems : List (FilesystemHandler W)) (mounts : List FsmMount)
    (name : Name) where
  refuse :
      (info : DecInfo)
      → nvfs_decode filesystems mounts name ≡ ret info
      → info.ready ≡ false
      → Refuses filesystems mounts name
  unfolding nvfs_read nvfs_write nvfs_create nvfs_delete nvfs_info nvfs_dir_v2
  refuse info decode ready = record {
    reads = λ offset count buffer w. rw decode (rw ready refl);
    writes = λ offset count buffer w. rw decode (rw ready refl);
    creates = λ mode w. rw decode (rw ready refl);
    deletes = λ mode w. rw decode (rw ready refl);
    infos = λ w. rw decode (rw ready refl);
    dirs = λ out w. rw decode (rw ready refl);
  }

  -- A name without `:/` leads nowhere.
  pub unsplit-Refuses : split_once name ≡ none → Refuses filesystems mounts name
  unfolding nvfs_decode
  unsplit-Refuses split = refuse no_info (rw (split, nvfs_decode) refl) refl
