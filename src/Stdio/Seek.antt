-- ===== src/Stdio/Seek.antt =====
-- Positions in the files of kernel/src/lib/stdio.c.
use nocturne_os_base.Prelude.{
  ℕ, ◌+◌, ◌*◌, ◌^◌, ◌≤◌, ◌<◌, true, false, not, ◌&&◌, ◌||◌, List, ltb, leb, ◌==◌, if◌then◌else◌,
  u32, ◌≡◌, ◌≢◌, refl, arith, ret, ℕ_discrete,
}
use nocturne_os_base.Fsm.{FilesystemHandler, FsmMount}
use nocturne_os_base.Nvfs.{nvfs_write}
use nocturne_os_base.Stdio.{File, minus_one, fseek, ftell, fwrite}

-- A file that is open in some mode and not empty.
abbrev pub IsOpen : File → Type 0
IsOpen f = (f.«open» ≡ true) × (0 < f.size) × (f.fmode ≢ 0)

module _ {W : Type 0} (filesystems : List (FilesystemHandler W)) (mounts : List FsmMount) where
  -- `fseek` from the start, the position or the end of an open file that is not empty returns 0 and touches no disk. It moves
  -- to the place asked for if that is in the file or at its end, and stays otherwise. The place 0 is
  -- reached from the start only. The position stays within the file, and `ftell` gives it.
  pub fseek-ftell :
      (f : File) (offset whence : ℕ) (w : W)
      → IsOpen f
      → f.size < 2 ^ 31
      → f.pos ≤ f.size
      → offset < 2 ^ 32
      → whence ≤ 2
      → let base = if whence == 1 then f.pos else if whence == 2 then f.size else 0 in
        let target = u32 (base + offset) in
        let moves = leb target f.size && (whence == 0 || ltb 0 target) in
        let f' : File = record f { pos = if moves then target else f.pos } in
        (fseek filesystems mounts f offset whence w ≡ ret (0, f', w))
        × (ftell filesystems mounts f' w ≡ ret (f'.pos, f', w))
        × (f'.pos ≤ f'.size)
  unfolding fseek ftell
  fseek-ftell f offset whence w (is_open, full, mode) small inside word kind =
      let opened : (not f.«open» || f.size == 0 || f.fmode == 0) ≡ false =
        ground (arith, is_open, mode) in
      let opened' : (not f.«open» || f.fmode == 0) ≡ false = ground (arith, is_open, mode) in
      elim (ℕ_discrete whence 0) [
        | yes start ↦ (rw opened (ground (arith, start)), rw opened' refl, ground (arith, start))
        | no further ↦ elim (ℕ_discrete whence 1) [
          | yes current ↦
              (rw opened (ground (arith, current)), rw opened' refl, ground (arith, current))
          | no more ↦
              let last : whence ≡ 2 = omega arith in
              (rw opened (ground (arith, last)), rw opened' refl, ground (arith, last))
        ]
      ]

  -- `fwrite` answers -1 whatever the driver has written. Where the driver wrote something, the position moves by the whole size
  -- asked for, and else it stays; the size of the stream does not shrink and covers the position.
  pub fwrite-answers :
      (f : File) (size count ptr : ℕ) (w w' : W) (written : ℕ)
      → f.pos + size * count < 2 ^ 32
      → nvfs_write filesystems mounts f.path f.pos (size * count) ptr w ≡ ret (written, w')
      → (f' : File) × (fwrite filesystems mounts f size count ptr w ≡ ret (minus_one, f', w'))
        × (f'.pos ≡ (if ltb 0 written then f.pos + size * count else f.pos))
        × (f.size ≤ f'.size)
        × (f'.pos ≤ f'.size)
  unfolding fwrite
  fwrite-answers f size count ptr w w' written small e =
      let n : u32 (size * count) ≡ size * count = omega arith in
      let end : u32 (f.pos + size * count) ≡ f.pos + size * count = omega arith in
      let grown : File =
        if ltb f.size (f.pos + size * count) then record f { size = f.pos + size * count } else f in
      (
        (if ltb 0 written then record grown { pos = f.pos + size * count } else grown),
        rw n (rw end (rw e refl)),
        ground arith,
        ground arith,
        ground arith,
      )
