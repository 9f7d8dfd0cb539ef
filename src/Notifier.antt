-- ===== src/Notifier.antt =====
-- The watch over the media of kernel/src/drv/disk/media_notifier.c, over the file system manager.
--
-- The disk manager, rust/noct-diskman, is another crate: its calls are an argument, on the world that the drivers of
-- file systems share with it. The log calls are left out. The mounts are those of Fsm.
pub mod Watch
mod Tests
use nocturne_os_base.Prelude.{
  ℕ, zero, suc, ◌+◌, min, ◌==◌, if◌then◌else◌, Option, none, some, List, [], get_or, set, u8,
  Outcome, ret, ◌>>=◌,
}
use nocturne_os_base.Fsm.{Name, FilesystemHandler, FsmMount, fsm_dpm_update, fsm_detach_fs}

-- `diskman_get_registered_disk_count`, `diskman_get_disk_id_by_index` with `none` for a null pointer,
-- `diskman_control` with DISKMAN_COMMAND_GET_MEDIUM_STATUS and `none` for -1, and `diskman_reload_partitions_for`.
pub record Diskman (W : Type 0) : Type 0 where
  pub registered_disk_count : W → ℕ
  pub disk_id_by_index : ℕ → W → Option Name
  pub medium_status : Name → W → Option ℕ × W
  pub reload_partitions_for : Name → W → W

-- `DISKMAN_MEDIUM_ONLINE` and `DISKMAN_MEDIUM_OFFLINE`, as rust/noct-diskman/build.rs writes them into a header.
abbrev pub medium_online : ℕ
medium_online = 2

abbrev pub medium_offline : ℕ
medium_offline = 0

module _ {W : Type 0} (dm : Diskman W) where
  -- The answer for the disk of a name that may be null, for which `diskman_control` gives -1.
  unfoldable pub ask : Option Name → W → Option ℕ × W
  ask none w = (none, w)
  ask (some name) w = dm.medium_status name w

  -- The loop of `load_statuses`.
  unfoldable pub load_from : ℕ → ℕ → List ℕ → W → List ℕ × W
  unfolding ask
  load_from zero i statuses w = (statuses, w)
  load_from (suc n) i statuses w =
      let a = ask (dm.disk_id_by_index i w) w in
      let status : ℕ = elim (a.0) [ none ↦ 0 | some status ↦ u8 status ] in
      load_from n (i + 1) (set statuses i status) a.1

  unfoldable pub load_statuses : List ℕ → W → List ℕ × W
  unfolding load_from
  load_statuses statuses w = load_from (min (dm.registered_disk_count w) 1024) 0 statuses w

module _ {W : Type 0} (filesystems : List (FilesystemHandler W)) (dm : Diskman W) where
  -- What a new status of a medium does to the mounts and to the disks.
  unfoldable pub react : Name → ℕ → List FsmMount → W → Outcome (List FsmMount × W)
  react name status mounts w =
      let found =
        fsm_dpm_update filesystems [] (some name) mounts (dm.reload_partitions_for name w) in
      let detached =
        fsm_detach_fs mounts name >>= λ left. ret (left, dm.reload_partitions_for name w) in
      if status == medium_online
      then found
      else if status == medium_offline
      then detached
      else ret (mounts, w)

  -- The rest of the body of the loop, with the answer.
  unfoldable pub answered :
      ℕ → Option Name → Option ℕ → List ℕ → List FsmMount → W → Outcome (List ℕ × List FsmMount × W)
  unfolding react
  answered i none answer statuses mounts w = ret (set statuses i 0, mounts, w)
  answered i (some name) none statuses mounts w = ret (set statuses i 0, mounts, w)
  answered i (some name) (some status) statuses mounts w =
      let changed =
        react name status mounts w >>= λ r. ret (set statuses i (u8 status), r.0, r.1) in
      if get_or statuses i 0 == status then ret (statuses, mounts, w) else changed

  -- The body of the loop of `notifier_loop` at an index.
  unfoldable pub watch_disk : ℕ → List ℕ → List FsmMount → W → Outcome (List ℕ × List FsmMount × W)
  unfolding ask answered
  watch_disk i statuses mounts w =
      let id = dm.disk_id_by_index i w in
      let a = ask dm id w in answered i id a.0 statuses mounts a.1

  -- So many rounds of the loop, from an index on.
  pub watch_from : ℕ → ℕ → List ℕ → List FsmMount → W → Outcome (List ℕ × List FsmMount × W)
  unfolding watch_disk
  watch_from zero i statuses mounts w = ret (statuses, mounts, w)
  watch_from (suc n) i statuses mounts w =
      watch_disk i statuses mounts w >>= λ r. watch_from n (i + 1) r.0 r.1 r.2

  -- The number of disks is read once, before the loop.
  unfoldable pub notifier_loop : List ℕ → List FsmMount → W → Outcome (List ℕ × List FsmMount × W)
  unfolding watch_from
  notifier_loop statuses mounts w =
      watch_from (min (dm.registered_disk_count w) 1024) 0 statuses mounts w
