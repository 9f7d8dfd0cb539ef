-- ===== src/Notifier/Tests.antt =====
-- Rounds over four disks: `a0`, which loses its medium, its partition `a0.1`, `c0`, and `b0`, which loses its medium as well. When
-- the partitions of `a0` are read again, `a0.1` goes out of the registry. The world is 0 before that and 1 behind it.
use nocturne_os_base.Prelude.{
  ℕ, zero, suc, ◌≡◌, ◌⊎◌, refl, Option, none, some, List, [], ◌∷◌, if◌then◌else◌, ◌==◌, ret, ◌>>=◌,
  arith,
}
use nocturne_os_base.Fsm.{Name, same_name, fsm_get_disk_filesystem}
use nocturne_os_base.Fsm.Detach.{fsm_detach_fs_lem}
use nocturne_os_base.Fsm.Tests.{drivers, ata, mounts}
use nocturne_os_base.Notifier.{Diskman, notifier_loop, load_statuses}
use nocturne_os_base.Notifier.Watch.{Round, begun, Meets, notifier_loop-Ejects}

abbrev disc : Name
disc = 98 ∷ 48 ∷ []

abbrev name_at : List Name → ℕ → Option Name
name_at [] i = none
name_at (id ∷ ids) zero = some id
name_at (id ∷ ids) (suc i) = name_at ids i

abbrev registry : ℕ → List Name
registry w =
    if w == 0
    then ata ∷ (97 ∷ 48 ∷ 46 ∷ 49 ∷ []) ∷ (99 ∷ 48 ∷ []) ∷ disc ∷ []
    else ata ∷ (99 ∷ 48 ∷ []) ∷ disc ∷ []

abbrev disks : Diskman ℕ
disks = record {
  registered_disk_count = λ w. if w == 0 then 4 else 3;
  disk_id_by_index = λ i w. name_at (registry w) i;
  medium_status = λ id w.
      (if same_name id ata then some 0 else if same_name id disc then some 0 else some 2, w);
  reload_partitions_for = λ id w. if same_name id ata then 1 else w;
}

first_statuses : load_statuses disks (7 ∷ 7 ∷ 7 ∷ 7 ∷ 7 ∷ []) 0 ≡ (0 ∷ 2 ∷ 2 ∷ 0 ∷ 7 ∷ [], 0)
unfolding load_statuses same_name
first_statuses = refl

abbrev start : Round ℕ
start = (2 ∷ 2 ∷ 0 ∷ 2 ∷ [], mounts, 0)

notifier_loop-Ejects_example :
    (r : Round ℕ) × (notifier_loop drivers disks (2 ∷ 2 ∷ 0 ∷ 2 ∷ []) mounts 0 ≡ ret r)
    × ((fsm_get_disk_filesystem r.1 ata ≡ none) ⊎ Meets drivers disks start ata 1 4)
unfolding same_name
notifier_loop-Ejects_example =
    notifier_loop-Ejects drivers disks start 0 start ata (omega arith) begun refl refl (omega arith)

-- The disk `b0` has moved to the index of a disk that was offline, and stays mounted.
shifted :
    notifier_loop drivers disks (2 ∷ 2 ∷ 0 ∷ 2 ∷ []) mounts 0
    ≡ ret (
      0 ∷ 2 ∷ 0 ∷ 0 ∷ [],
      record { diskman_disk_id = disc; filesystem_name = 105 ∷ 115 ∷ 111 ∷ [] } ∷ [],
      1,
    )
unfolding notifier_loop same_name
shifted = rw (fsm_detach_fs_lem mounts ata) refl

-- A disk that gives no answer at first and is offline then.
abbrev silent_disk : Diskman ℕ
silent_disk = record {
  registered_disk_count = λ w. 1;
  disk_id_by_index = λ i w. some ata;
  medium_status = λ id w. (if w == 0 then none else some 0, 1);
  reload_partitions_for = λ id w. w;
}

missed :
    (notifier_loop drivers silent_disk (2 ∷ []) mounts 0 >>= λ r.
    notifier_loop drivers silent_disk r.0 r.1 r.2)
    ≡ ret (0 ∷ [], mounts, 1)
unfolding notifier_loop
missed = refl
