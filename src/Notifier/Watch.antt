-- ===== src/Notifier/Watch.antt =====
-- What a round over the disks does to the mounts.
use nocturne_os_base.Prelude.{
  ℕ, zero, suc, ◌+◌, ◌-◌, ◌≤◌, ◌<◌, min, ◌≡◌, ◌≢◌, ◌⊎◌, refl, sym, ap, ◌∙◌, subst, inl, inr,
  Bool-cases, false, ◌==◌, none, some, Option, List, [], get_or, set, u8, ret, >>=-ret, arith,
}
use nocturne_os_base.Fsm.{Name, same_name, FilesystemHandler, FsmMount, fsm_get_disk_filesystem}
use nocturne_os_base.Fsm.Detach.{others, fsm_detach_fs_lem, same_name_sound, same_name_ne}
use nocturne_os_base.Fsm.Scan.{
  scan_for_filesystem-Mounts, fsm_dpm_update-some, others_same, others_other,
}
use nocturne_os_base.Notifier.{
  Diskman, medium_online, medium_offline, react, ask, answered, watch_disk, watch_from,
  notifier_loop,
}

abbrev pub Round : Type 0 → Type 0
Round W = List ℕ × List FsmMount × W

module _ {W : Type 0} (filesystems : List (FilesystemHandler W)) (dm : Diskman W) where
  react-detach :
      (name : Name) (ms : List FsmMount) (w : W)
      → react filesystems dm name medium_offline ms w
        ≡ ret (others name ms, dm.reload_partitions_for name w)
  unfolding react
  react-detach name ms w = rw (fsm_detach_fs_lem ms name) refl

  -- The reaction keeps the file systems of the other disks.
  react-keeps :
      (name : Name) (status : ℕ) (ms : List FsmMount) (w : W)
      → (r : List FsmMount × W) × (react filesystems dm name status ms w ≡ ret r)
        × ((other : Name)
            → other ≢ name
            → fsm_get_disk_filesystem r.0 other ≡ fsm_get_disk_filesystem ms other)
  unfolding react
  react-keeps name status ms w = elim (Bool-cases (status == medium_online)) [
    | inl on ↦
        let (ms', _, w', e, _, m) =
          scan_for_filesystem-Mounts filesystems name ms (dm.reload_partitions_for name w) in
        (
          (ms', w'),
          rw on (fsm_dpm_update-some filesystems [] name ms (dm.reload_partitions_for name w) ∙ e),
          m.other_disks,
        )
    | inr on ↦ elim (Bool-cases (status == medium_offline)) [
      | inl off ↦ (
        (others name ms, dm.reload_partitions_for name w),
        rw (on, off) (rw (fsm_detach_fs_lem ms name) refl),
        λ other ne. others_other name other ms ne,
      )
      | inr off ↦ ((ms, w), rw (on, off) refl, λ other ne. refl)
    ]
  ]

  answered-keeps :
      (i : ℕ) (id : Option Name) (answer : Option ℕ) (st : List ℕ) (ms : List FsmMount) (w : W)
      → (r : Round W) × (answered filesystems dm i id answer st ms w ≡ ret r)
        × ((other : Name)
            → id ≢ some other
            → fsm_get_disk_filesystem r.1 other ≡ fsm_get_disk_filesystem ms other)
  unfolding answered
  answered-keeps i none answer st ms w = ((set st i 0, ms, w), refl, λ other ne. refl)
  answered-keeps i (some name) none st ms w = ((set st i 0, ms, w), refl, λ other ne. refl)
  answered-keeps i (some name) (some status) st ms w = elim (Bool-cases (get_or st i 0 == status)) [
    | inl same ↦ ((st, ms, w), rw same refl, λ other ne. refl)
    | inr changed ↦
        let (r, done, keeps) = react-keeps name status ms w in
        (
          (set st i (u8 status), r.0, r.1),
          rw changed (>>=-ret _ _ done refl),
          λ other ne. keeps other (λ e. ne (ap some (sym e))),
        )
  ]

  -- A visit of the loop returns, and keeps the file systems of the disks other than the one at the index.
  watch_disk-keeps :
      (i : ℕ) (st : List ℕ) (ms : List FsmMount) (w : W)
      → (r : Round W) × (watch_disk filesystems dm i st ms w ≡ ret r)
        × ((other : Name)
            → dm.disk_id_by_index i w ≢ some other
            → fsm_get_disk_filesystem r.1 other ≡ fsm_get_disk_filesystem ms other)
  unfolding watch_disk
  watch_disk-keeps i st ms w =
      let id = dm.disk_id_by_index i w in let a = ask dm id w in answered-keeps i id a.0 st ms a.1

  -- The points that the loop of a round comes to: an index that comes next, and the statuses, mounts and world then.
  pub data Visited (start : Round W) : ℕ → Round W → Type 0 where
    begun : Visited start 0 start
    visit :
        {i : ℕ} {q r : Round W}
        → Visited start i q
        → watch_disk filesystems dm i q.0 q.1 q.2 ≡ ret r
        → Visited start (suc i) r

  -- What a round does from a point on that it comes to.
  Visited-watch_from :
      (start : Round W) (i : ℕ) (q : Round W) (n : ℕ)
      → Visited start i q
      → watch_from filesystems dm (i + n) 0 start.0 start.1 start.2
        ≡ watch_from filesystems dm n i q.0 q.1 q.2
  unfolding watch_from
  Visited-watch_from start _ _ n begun =
      ap (λ m. watch_from filesystems dm m 0 start.0 start.1 start.2) (omega arith)
  Visited-watch_from start _ r n (visit {i} {q} v e) =
      let shift : suc i + n ≡ i + suc n = omega arith in
      let next : i + 1 ≡ suc i = omega arith in
      ap (λ m. watch_from filesystems dm m 0 start.0 start.1 start.2) shift
      ∙ (Visited-watch_from start i q (suc n) v
          ∙ (>>=-ret _ _ e refl ∙ ap (λ j. watch_from filesystems dm n j r.0 r.1 r.2) next))

  -- The loop comes to a disk of this name at an index from `lo` on, before `hi`.
  abbrev pub Meets : Round W → Name → ℕ → ℕ → Type 0
  Meets start name lo hi =
      (k : ℕ) × (q : Round W) × (lo ≤ k)
      × (k < hi)
      × Visited start k q
      × (dm.disk_id_by_index k q.2 ≡ some name)

  is_disk : (id : Option Name) (name : Name) → (id ≡ some name) ⊎ (id ≢ some name)
  is_disk none name = inr (λ e. absurd (ground (arith, e)))
  is_disk (some id) name = elim (Bool-cases (same_name id name)) [
    | inl same ↦ inl (ap some (same_name_sound id name same))
    | inr other ↦ inr (λ e. same_name_ne id name other (cc e))
  ]

  watch_from-keeps :
      (start : Round W) (name : Name) (n i : ℕ) (q : Round W)
      → Visited start i q
      → (r : Round W) × (watch_from filesystems dm n i q.0 q.1 q.2 ≡ ret r)
        × ((fsm_get_disk_filesystem r.1 name ≡ fsm_get_disk_filesystem q.1 name)
            ⊎ Meets start name i (i + n))
  unfolding watch_from
  watch_from-keeps start name zero i q v = (q, refl, inl refl)
  watch_from-keeps start name (suc n) i q v =
      let (q', done, keeps) = watch_disk-keeps i q.0 q.1 q.2 in
      let next : suc i ≡ i + 1 = omega arith in
      let (r, rest, what) = watch_from-keeps start name n (suc i) q' (visit v done) in
      let e : watch_from filesystems dm (suc n) i q.0 q.1 q.2 ≡ ret r =
        >>=-ret _ _ done
          (subst (λ j. watch_from filesystems dm n j q'.0 q'.1 q'.2 ≡ ret r) next rest) in
      (
        r,
        e,
        elim (is_disk (dm.disk_id_by_index i q.2) name) [
          | inl here ↦ inr (i, q, omega arith, omega arith, v, here)
          | inr other ↦ elim what [
            | inl same ↦ inl (same ∙ keeps name other)
            | inr (k, p, lo, hi, w, at) ↦ inr (k, p, omega arith, omega arith, w, at)
          ]
        ],
      )

  watch_disk-detach :
      (i : ℕ) (name : Name) (q : Round W)
      → dm.disk_id_by_index i q.2 ≡ some name
      → (dm.medium_status name q.2).0 ≡ some 0
      → get_or q.0 i 0 ≢ 0
      → (r : Round W) × (watch_disk filesystems dm i q.0 q.1 q.2 ≡ ret r)
        × (fsm_get_disk_filesystem r.1 name ≡ none)
  unfolding watch_disk
  watch_disk-detach i name q at offline changed =
      let w' = (dm.medium_status name q.2).1 in
      let t : (get_or q.0 i 0 == medium_offline) ≡ false = ground arith in
      (
        (set q.0 i (u8 medium_offline), others name q.1, dm.reload_partitions_for name w'),
        rw at (rw offline (rw t (>>=-ret _ _ (react-detach name q.1 w') refl))),
        others_same name q.1,
      )

  -- A round of `notifier_loop` returns. When it comes to an index whose disk, by the registry at that point, is offline and whose
  -- status there is not 0, that disk has no file system behind the round, or the round has come to its name again at a later index.
  pub notifier_loop-Ejects :
      (start : Round W) (i : ℕ) (q : Round W) (name : Name)
      → let count = min (dm.registered_disk_count start.2) 1024 in
        i < count
        → Visited start i q
        → dm.disk_id_by_index i q.2 ≡ some name
        → (dm.medium_status name q.2).0 ≡ some 0
        → get_or q.0 i 0 ≢ 0
        → (r : Round W) × (notifier_loop filesystems dm start.0 start.1 start.2 ≡ ret r)
          × ((fsm_get_disk_filesystem r.1 name ≡ none) ⊎ Meets start name (i + 1) count)
  unfolding notifier_loop
  notifier_loop-Ejects start i q name in_range v at offline changed =
      let count = min (dm.registered_disk_count start.2) 1024 in
      let (q', done, gone) = watch_disk-detach i name q at offline changed in
      let n = count - suc i in
      let size : count ≡ suc i + n = omega arith in
      let (r, rest, what) = watch_from-keeps start name n (suc i) q' (visit v done) in
      (
        r,
        ap (λ m. watch_from filesystems dm m 0 start.0 start.1 start.2) size
            ∙ (Visited-watch_from start (suc i) q' n (visit v done) ∙ rest),
        elim what [
          | inl same ↦ inl (same ∙ gone)
          | inr (k, p, lo, hi, w, b) ↦ inr (k, p, omega arith, omega arith, w, b)
        ],
      )
