-- ===== src/Fsm/Tests.antt =====
-- The file system manager with two drivers and two disks. The world counts the writes.
use nocturne_os_base.Prelude.{
  ℕ, ◌+◌, true, Option, some, List, [], ◌∷◌, ◌==◌, if◌then◌else◌, ◌≡◌, refl, ret,
}
use nocturne_os_base.Fsm.{
  Name, no_file, no_dir, FilesystemHandler, FsmMount, fsm_detach_fs, first_detecting,
  fsm_scan_for_filesystem,
}
use nocturne_os_base.Fsm.Detach.{others, fsm_detach_fs_lem}
use nocturne_os_base.Fsm.Scan.{Detects, Mounts, scan_for_filesystem-Mounts}

-- A driver that detects the disks whose name starts with a byte.
abbrev pub driver : Name → ℕ → FilesystemHandler ℕ
driver name first = record {
  ready = true;
  name = name;
  read = λ disk path offset count buffer w. (count, w);
  write = λ disk path offset count buffer w. (count, w + 1);
  info = λ disk path w. (record no_file { ready = true; size = 10 }, w);
  dir = λ disk path out w. (no_dir, w);
  create = λ disk path mode w. (1, w + 1);
  delete = λ disk path mode w. (1, w + 1);
  label = λ disk buffer w. w;
  detect = λ disk w. elim disk [ [] ↦ (0, w) | c ∷ rest ↦ (if c == first then 1 else 0, w) ];
}

-- `fat` on disks `a…`, `iso` on disks `b…`.
abbrev pub drivers : List (FilesystemHandler ℕ)
drivers = driver (102 ∷ 97 ∷ 116 ∷ []) 97 ∷ driver (105 ∷ 115 ∷ 111 ∷ []) 98 ∷ []

abbrev pub ata : Name
ata = 97 ∷ 48 ∷ []

abbrev pub mounts : List FsmMount
mounts =
    record { diskman_disk_id = ata; filesystem_name = 102 ∷ 97 ∷ 116 ∷ [] }
    ∷ record { diskman_disk_id = 98 ∷ 48 ∷ []; filesystem_name = 105 ∷ 115 ∷ 111 ∷ [] }
    ∷ []

fsm_detach_fs_lem_example : fsm_detach_fs mounts ata ≡ ret (others ata mounts)
fsm_detach_fs_lem_example = fsm_detach_fs_lem mounts ata

scan_for_filesystem-Mounts_example :
    (ms' : List FsmMount) × (found : Option Name) × (w' : ℕ) × (fsm_scan_for_filesystem drivers ata
        mounts 0
      ≡ ret (ms', w'))
    × Detects drivers ata 0 found w'
    × Mounts ata found mounts ms'
scan_for_filesystem-Mounts_example = scan_for_filesystem-Mounts drivers ata mounts 0

scan_detects : (first_detecting drivers ata 0).0 ≡ some (102 ∷ 97 ∷ 116 ∷ [])
unfolding first_detecting
scan_detects = refl
