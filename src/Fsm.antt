-- ===== src/Fsm.antt =====
-- The file system manager kernel/src/fs/fsm.c. The child modules prove what holds of it.
--
-- A string is the list of its bytes, and `strcmp` is read for equality. The two vectors are the lists of what
-- their elements point to. A driver is a record of functions on a world that holds the
-- disks and the buffers; nothing is assumed of it. Log calls are left out.
pub mod Detach
pub mod Scan
pub mod Driver
pub mod Tests
use nocturne_os_base.Prelude.{
  ℕ, zero, suc, ◌+◌, ◌-◌, ◌^◌, Bool, true, false, not, ◌&&◌, Option, none, some, List, [], ◌∷◌,
  ◌++◌, ltb, ◌==◌, if◌then◌else◌, length, get_elem?, take, drop, u32, Outcome, ret, hang, fault,
  ◌>>=◌,
}
use nocturne_os_base.Time.{FsmTime}

abbrev pub Name : Type 0
Name = List ℕ

-- `strcmp(a, b) == 0`.
unfoldable pub same_name : Name → Name → Bool
same_name [] [] = true
same_name [] (b ∷ ys) = false
same_name (a ∷ xs) [] = false
same_name (a ∷ xs) (b ∷ ys) = a == b && same_name xs ys

-- `FSM_FILE` and `FSM_DIR`.
pub record FsmFile : Type 0 where
  pub ready : Bool
  pub name : Name
  pub path : Name
  pub mode : ℕ
  pub size : ℕ
  pub last_time : FsmTime
  pub file_type : ℕ
  pub chmod : ℕ

pub record FsmDir : Type 0 where
  pub ready : Bool
  pub count_files : ℕ
  pub count_dir : ℕ
  pub count_other : ℕ
  pub files : List FsmFile

abbrev pub no_time : FsmTime
no_time = record { year = 0; month = 0; day = 0; hour = 0; minute = 0; second = 0 }

abbrev pub no_file : FsmFile
no_file = record {
  ready = false;
  name = [];
  path = [];
  mode = 0;
  size = 0;
  last_time = no_time;
  file_type = 0;
  chmod = 0;
}

abbrev pub no_dir : FsmDir
no_dir = record { ready = false; count_files = 0; count_dir = 0; count_other = 0; files = [] }

-- `FilesystemHandler`: the disk, the path, then offset, count and buffer, or mode.
pub record FilesystemHandler (W : Type 0) : Type 0 where
  pub ready : Bool
  pub name : Name
  pub read : Name → Name → ℕ → ℕ → ℕ → W → ℕ × W
  pub write : Name → Name → ℕ → ℕ → ℕ → W → ℕ × W
  pub info : Name → Name → W → FsmFile × W
  pub dir : Name → Name → FsmDir → W → FsmDir × W
  pub create : Name → Name → ℕ → W → ℕ × W
  pub delete : Name → Name → ℕ → W → ℕ × W
  pub label : Name → ℕ → W → W
  pub detect : Name → W → ℕ × W

-- `FSM_Mount`.
pub record FsmMount : Type 0 where
  pub diskman_disk_id : Name
  pub filesystem_name : Name

module _ {W : Type 0} where
  -- The rounds of `fsm_getIDbyName` from index `i` on; -1 as a `size_t`.
  unfoldable pub id_from : List (FilesystemHandler W) → Name → ℕ → ℕ
  id_from [] name i = 2 ^ 32 - 1
  id_from (f ∷ fs) name i =
      let rest = id_from fs name (i + 1) in if same_name f.name name then i else rest

  unfoldable pub fsm_get_id_by_name : List (FilesystemHandler W) → Name → ℕ
  fsm_get_id_by_name filesystems name = id_from filesystems name 0

  unfoldable pub fsm_read : List (FilesystemHandler W) → ℕ → Name → Name → ℕ → ℕ → ℕ → W → ℕ × W
  fsm_read filesystems index disk name offset count buffer w = elim (get_elem? filesystems index) [
    | none ↦ (0, w)
    | some f ↦ f.read disk name offset count buffer w
  ]

  unfoldable pub fsm_create : List (FilesystemHandler W) → ℕ → Name → Name → ℕ → W → ℕ × W
  fsm_create filesystems index disk name mode w = elim (get_elem? filesystems index) [
    | none ↦ (0, w)
    | some f ↦ f.create disk name mode w
  ]

  unfoldable pub fsm_delete : List (FilesystemHandler W) → ℕ → Name → Name → ℕ → W → ℕ × W
  fsm_delete filesystems index disk name mode w = elim (get_elem? filesystems index) [
    | none ↦ (0, w)
    | some f ↦ f.delete disk name mode w
  ]

  unfoldable pub fsm_write : List (FilesystemHandler W) → ℕ → Name → Name → ℕ → ℕ → ℕ → W → ℕ × W
  fsm_write filesystems index disk name offset count buffer w = elim (get_elem? filesystems index) [
    | none ↦ (0, w)
    | some f ↦ f.write disk name offset count buffer w
  ]

  unfoldable pub fsm_info : List (FilesystemHandler W) → ℕ → Name → Name → W → FsmFile × W
  fsm_info filesystems index disk name w = elim (get_elem? filesystems index) [
    | none ↦ (no_file, w)
    | some f ↦ f.info disk name w
  ]

  -- After the error the code goes on with the null element.
  unfoldable pub fsm_dir :
      List (FilesystemHandler W) → ℕ → Name → Name → FsmDir → W → Outcome (FsmDir × W)
  fsm_dir filesystems index disk name out w = elim (get_elem? filesystems index) [
    | none ↦ fault
    | some f ↦ ret (f.dir disk name out w)
  ]

  pub fsm_reg : FilesystemHandler W → List (FilesystemHandler W) → List (FilesystemHandler W)
  fsm_reg fsm filesystems = filesystems ++ (record fsm { ready = true } ∷ [])

unfoldable pub fsm_get_disk_filesystem : List FsmMount → Name → Option Name
fsm_get_disk_filesystem [] disk_id = none
fsm_get_disk_filesystem (mount ∷ mounts) disk_id =
    let rest = fsm_get_disk_filesystem mounts disk_id in
    if same_name mount.diskman_disk_id disk_id then some mount.filesystem_name else rest

-- The rounds of the loop that takes the mounts of a disk out, with `dx` as its variable, on
-- fuel. An entry is taken out by `vector_erase_nth`; then `dx--` and `dx++` cancel.
pub detach_rounds : ℕ → Name → ℕ → List FsmMount → Outcome (List FsmMount)
detach_rounds zero disk_id dx mounts = hang
detach_rounds (suc fuel) disk_id dx mounts =
    let erased = detach_rounds fuel disk_id dx (take dx mounts ++ drop (dx + 1) mounts) in
    let kept = detach_rounds fuel disk_id (dx + 1) mounts in
    elim (get_elem? mounts dx) [
      | none ↦ ret mounts
      | some mount ↦ if same_name mount.diskman_disk_id disk_id then erased else kept
    ]

-- One round for each mount, and one that ends the loop.
pub fsm_detach_fs : List FsmMount → Name → Outcome (List FsmMount)
fsm_detach_fs mounts disk_id = detach_rounds (suc (length mounts)) disk_id 0 mounts

module _ {W : Type 0} where
  -- The second loop of `fsm_scan_for_filesystem`: the name of the first driver that detects the disk.
  pub first_detecting : List (FilesystemHandler W) → Name → W → Option Name × W
  first_detecting [] disk_id w = (none, w)
  first_detecting (f ∷ fs) disk_id w =
      let (detect, w') = f.detect disk_id w in
      let rest = first_detecting fs disk_id w' in if detect == 1 then (some f.name, w') else rest

  pub fsm_scan_for_filesystem :
      List (FilesystemHandler W) → Name → List FsmMount → W → Outcome (List FsmMount × W)
  fsm_scan_for_filesystem filesystems disk_id mounts w = fsm_detach_fs mounts disk_id >>= λ left.
      let (found, w') = first_detecting filesystems disk_id w in
      ret (elim found [
        | none ↦ (left, w')
        | some name ↦
            (left ++ (record { diskman_disk_id = disk_id; filesystem_name = name } ∷ []), w')
      ])

  pub scan_disks :
      List (FilesystemHandler W) → List Name → List FsmMount → W → Outcome (List FsmMount × W)
  scan_disks filesystems [] mounts w = ret (mounts, w)
  scan_disks filesystems (disk_id ∷ ids) mounts w =
      fsm_scan_for_filesystem filesystems disk_id mounts w >>= λ r.
      scan_disks filesystems ids r.0 r.1

  -- `ids` are the disks of the disk manager, in its order.
  pub fsm_scan_all_disks :
      List (FilesystemHandler W) → List Name → List FsmMount → W → Outcome (List FsmMount × W)
  fsm_scan_all_disks filesystems ids mounts w = scan_disks filesystems ids [] w

  pub fsm_dpm_update :
      List (FilesystemHandler W)
      → List Name
      → Option Name
      → List FsmMount
      → W
      → Outcome (List FsmMount × W)
  fsm_dpm_update filesystems ids disk_id mounts w = elim disk_id [
    | none ↦ fsm_scan_all_disks filesystems ids mounts w
    | some name ↦ fsm_scan_for_filesystem filesystems name mounts w
  ]
