-- ===== src/Fsm/Scan.antt =====
-- What the scans of kernel/src/fs/fsm.c leave in the list of mounts.
use nocturne_os_base.Prelude.{
  true, false, Option, none, some, List, [], ◌∷◌, ◌++◌, if◌then◌else◌, ◌≡◌, ◌≢◌, ◌⊎◌, ◌==◌, ==_iff,
  refl, arith, ◌∙◌, sym, inl, inr, Bool-cases, Option-cases, ret,
}
use nocturne_os_base.Fsm.{
  Name, same_name, FilesystemHandler, FsmMount, fsm_get_disk_filesystem, first_detecting,
  fsm_scan_for_filesystem, scan_disks, fsm_scan_all_disks, fsm_dpm_update,
}
use nocturne_os_base.Fsm.Detach.{
  same_name_refl, same_name_sound, same_name_ne, same_name-false, others, fsm_detach_fs_lem,
}

abbrev mount_of : Name → Name → FsmMount
mount_of disk_id name = record { diskman_disk_id = disk_id; filesystem_name = name }

-- No disk is mounted twice.
abbrev pub IsDistinct : List FsmMount → Type 0
IsDistinct [] = Unit
IsDistinct (m ∷ ms) = (fsm_get_disk_filesystem ms m.diskman_disk_id ≡ none) × IsDistinct ms

pub others_same :
    (disk_id : Name) (ms : List FsmMount)
    → fsm_get_disk_filesystem (others disk_id ms) disk_id ≡ none
unfolding fsm_get_disk_filesystem
others_same disk_id [] = refl
others_same disk_id (m ∷ ms) = ground (arith, others_same disk_id ms)

pub others_other :
    (disk_id other : Name) (ms : List FsmMount)
    → other ≢ disk_id
    → fsm_get_disk_filesystem (others disk_id ms) other ≡ fsm_get_disk_filesystem ms other
unfolding fsm_get_disk_filesystem
others_other disk_id other [] ne = refl
others_other disk_id other (m ∷ ms) ne =
    let clash : same_name m.diskman_disk_id disk_id ≡ true
        → same_name m.diskman_disk_id other ≡ false =
      λ same. elim (Bool-cases (same_name m.diskman_disk_id other)) [
        | inr no_match ↦ no_match
        | inl too ↦ absurd (ne (sym (same_name_sound _ _ too) ∙ same_name_sound _ _ same))
      ] in
    ground (arith, others_other disk_id other ms ne, clash)

lookup-append :
    (ms : List FsmMount) (disk_id name other : Name)
    → fsm_get_disk_filesystem (ms ++ (mount_of disk_id name ∷ [])) other
      ≡ (elim (fsm_get_disk_filesystem ms other) [
        | some n ↦ some n
        | none ↦ if same_name disk_id other then some name else none
      ])
unfolding fsm_get_disk_filesystem
lookup-append [] disk_id name other = refl
lookup-append (m ∷ ms) disk_id name other = ground (arith, lookup-append ms disk_id name other)

others-IsDistinct :
    (disk_id : Name) (ms : List FsmMount) → IsDistinct ms → IsDistinct (others disk_id ms)
others-IsDistinct disk_id [] h = h
others-IsDistinct disk_id (m ∷ ms) (alone, h) =
    elim (Bool-cases (same_name m.diskman_disk_id disk_id)) [
      | inl same ↦ rw same (others-IsDistinct disk_id ms h)
      | inr other ↦ rw other (
        others_other disk_id m.diskman_disk_id ms (same_name_ne _ _ other) ∙ alone,
        others-IsDistinct disk_id ms h,
      )
    ]

append-IsDistinct :
    (ms : List FsmMount) (disk_id name : Name)
    → fsm_get_disk_filesystem ms disk_id ≡ none
    → IsDistinct ms
    → IsDistinct (ms ++ (mount_of disk_id name ∷ []))
unfolding fsm_get_disk_filesystem
append-IsDistinct [] disk_id name free h = (refl, tt)
append-IsDistinct (m ∷ ms) disk_id name free (alone, h) =
    elim (Bool-cases (same_name m.diskman_disk_id disk_id)) [
      | inl same ↦ absurd (ground (arith, free, same))
      | inr other ↦
          let turned : same_name disk_id m.diskman_disk_id ≡ false =
            same_name-false _ _ (λ e. same_name_ne _ _ other (sym e)) in
          (
            ground (arith, lookup-append ms disk_id name m.diskman_disk_id, alone, turned),
            append-IsDistinct ms disk_id name (ground (arith, free, other)) h,
          )
    ]

-- What a scan for one disk leaves: the disk has the driver that the search found, the other disks have
-- what they had, and no disk is mounted twice if none was.
pub record Mounts (disk_id : Name) (found : Option Name) (ms ms' : List FsmMount) : Type 0 where
  pub this : fsm_get_disk_filesystem ms' disk_id ≡ found
  pub other_disks :
      (other : Name)
      → other ≢ disk_id
      → fsm_get_disk_filesystem ms' other ≡ fsm_get_disk_filesystem ms other
  pub distinct : IsDistinct ms → IsDistinct ms'

-- What the search among drivers finds, with the worlds between: the first driver that answers 1, or none when
-- every driver has given another answer.
abbrev pub Detects : {W : Type 0} → List (FilesystemHandler W) → Name → W → Option Name → W → Type 0
Detects [] disk_id w found w' = (found ≡ none) × (w' ≡ w)
Detects (f ∷ fs) disk_id w found w' =
    ((f.detect disk_id w).0 ≡ 1) × (found ≡ some f.name) × (w' ≡ (f.detect disk_id w).1)
    ⊎ ((f.detect disk_id w).0 ≢ 1) × Detects fs disk_id (f.detect disk_id w).1 found w'

first_detecting-Detects :
    {W : Type 0} (fs : List (FilesystemHandler W)) (disk_id : Name) (w : W)
    → Detects fs disk_id w (first_detecting fs disk_id w).0 (first_detecting fs disk_id w).1
unfolding first_detecting
first_detecting-Detects [] disk_id w = (refl, refl)
first_detecting-Detects (f ∷ fs) disk_id w = elim (Bool-cases ((f.detect disk_id w).0 == 1)) [
  | inl yes_it ↦ rw yes_it (inl ((==_iff _ 1).0 yes_it, refl, refl))
  | inr other ↦ rw other (
      inr (
        (λ e. absurd (ground (arith, other, e))),
        first_detecting-Detects fs disk_id (f.detect disk_id w).1,
      ))
]

module _ {W : Type 0} (filesystems : List (FilesystemHandler W)) where
  -- What the scan leaves, with the search of the code.
  pub scan-first_detecting :
      (disk_id : Name) (ms : List FsmMount) (w : W)
      → (ms' : List FsmMount) × (fsm_scan_for_filesystem filesystems disk_id ms w
          ≡ ret (ms', (first_detecting filesystems disk_id w).1))
        × Mounts disk_id (first_detecting filesystems disk_id w).0 ms ms'
  unfolding fsm_scan_for_filesystem
  scan-first_detecting disk_id ms w =
      let left = others disk_id ms in
      let gone = others_same disk_id ms in
      elim (Option-cases (first_detecting filesystems disk_id w).0) [
        | inl none_found ↦ (
          left,
          rw (fsm_detach_fs_lem ms disk_id) (rw none_found refl),
          record {
            this = gone ∙ sym none_found;
            other_disks = λ other ne. others_other disk_id other ms ne;
            distinct = others-IsDistinct disk_id ms;
          },
        )
        | inr (name, found) ↦ (
          left ++ (mount_of disk_id name ∷ []),
          rw (fsm_detach_fs_lem ms disk_id) (rw found refl),
          record {
            this =
                ground
                  (arith, lookup-append left disk_id name disk_id, gone, same_name_refl disk_id)
                ∙ sym found;
            other_disks = λ other ne. ground (
              arith,
              lookup-append left disk_id name other,
              others_other disk_id other ms ne,
              same_name-false disk_id other (λ e. ne (sym e)),
            );
            distinct =
                λ h. append-IsDistinct left disk_id name gone (others-IsDistinct disk_id ms h);
          },
        )
      ]

  -- `fsm_scan_for_filesystem` returns. The disk is mounted then with the first driver, in the order of registration, whose `detect`
  -- answers 1, the ones before it having answered otherwise, or not at all if no driver does; the other disks are mounted as before,
  -- and no disk is mounted twice if none was.
  pub scan_for_filesystem-Mounts :
      (disk_id : Name) (ms : List FsmMount) (w : W)
      → (ms' : List FsmMount) × (found : Option Name) × (w' : W) × (fsm_scan_for_filesystem
            filesystems disk_id ms w
          ≡ ret (ms', w'))
        × Detects filesystems disk_id w found w'
        × Mounts disk_id found ms ms'
  scan_for_filesystem-Mounts disk_id ms w =
      let (ms', e, mounts) = scan-first_detecting disk_id ms w in
      (
        ms',
        (first_detecting filesystems disk_id w).0,
        (first_detecting filesystems disk_id w).1,
        e,
        first_detecting-Detects filesystems disk_id w,
        mounts,
      )

  scan_disks-IsDistinct :
      (ids : List Name) (ms : List FsmMount) (w : W)
      → IsDistinct ms
      → (ms' : List FsmMount) × (w' : W) × (scan_disks filesystems ids ms w ≡ ret (ms', w'))
        × IsDistinct ms'
  unfolding scan_disks
  scan_disks-IsDistinct [] ms w h = (ms, w, refl, h)
  scan_disks-IsDistinct (disk_id ∷ ids) ms w h =
      let (ms', e, mounts) = scan-first_detecting disk_id ms w in
      let (ms'', w'', e', h') =
        scan_disks-IsDistinct ids ms' (first_detecting filesystems disk_id w).1
          (mounts.distinct h) in
      (ms'', w'', rw e e', h')

  -- `fsm_scan_all_disks` returns for every list of disks, and mounts none of them twice.
  pub scan_all_disks-IsDistinct :
      (ids : List Name) (ms : List FsmMount) (w : W)
      → (ms' : List FsmMount) × (w' : W) × (fsm_scan_all_disks filesystems ids ms w ≡ ret (ms', w'))
        × IsDistinct ms'
  unfolding fsm_scan_all_disks
  scan_all_disks-IsDistinct ids ms w = scan_disks-IsDistinct ids [] w tt

  -- `fsm_dpm_update` of a disk is the scan for it.
  pub fsm_dpm_update-some :
      (ids : List Name) (disk_id : Name) (ms : List FsmMount) (w : W)
      → fsm_dpm_update filesystems ids (some disk_id) ms w
        ≡ fsm_scan_for_filesystem filesystems disk_id ms w
  unfolding fsm_dpm_update
  fsm_dpm_update-some ids disk_id ms w = refl
