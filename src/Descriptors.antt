-- ===== src/Descriptors.antt =====
-- The file descriptors of kernel/src/sys/file_descriptors.c, over the streams of Stdio. The child modules prove what holds of them.
--
-- The vector of descriptors is the list of what its elements point to. A descriptor is a `size_t` here, so that the negative
-- ones stand from `2 ^ 31` on. Every call returns 0; what it has done is its result. Log calls are left out.
pub mod Table
mod Tests
use nocturne_os_base.Prelude.{
  ℕ, zero, suc, ◌+◌, ◌-◌, ◌^◌, Bool, true, false, ◌||◌, Option, none, some, List, [], ◌∷◌, ◌++◌,
  leb, ◌==◌, if◌then◌else◌, u32, Outcome, ret, ◌>>=◌,
}
use nocturne_os_base.Fsm.{Name, FilesystemHandler, FsmMount}
use nocturne_os_base.Stdio.{File, minus_one, fopen, fread, fwrite, fseek, ftell}

-- `struct fd_info`.
pub record FdInfo : Type 0 where
  pub fd : ℕ
  pub file : File

-- `descriptors` and `last_descriptor_number`.
pub record Descriptors : Type 0 where
  pub infos : List FdInfo
  pub last_descriptor_number : ℕ

-- The loop of `file_descriptor_get`.
pub find_fd : List FdInfo → ℕ → Option FdInfo
find_fd [] fd = none
find_fd (inf ∷ infos) fd = let rest = find_fd infos fd in if inf.fd == fd then some inf else rest

-- The stream of the first entry with a descriptor, changed in its place.
pub set_file : List FdInfo → ℕ → File → List FdInfo
set_file [] fd file = []
set_file (inf ∷ infos) fd file =
    let rest = set_file infos fd file in
    if inf.fd == fd then record inf { file = file } ∷ infos else inf ∷ rest

-- The loop of `file_descriptor_close`: `vector_erase_nth` at the first entry with the descriptor.
pub erase_fd : List FdInfo → ℕ → List FdInfo
erase_fd [] fd = []
erase_fd (inf ∷ infos) fd =
    let rest = erase_fd infos fd in if inf.fd == fd then infos else inf ∷ rest

pub is_invalid : ℕ → Descriptors → Bool
is_invalid fd d = leb (2 ^ 31) fd || leb d.last_descriptor_number fd

pub file_descriptor_get : ℕ → Descriptors → Option FdInfo
file_descriptor_get fd d = find_fd d.infos fd

module _ {W : Type 0} (filesystems : List (FilesystemHandler W)) (mounts : List FsmMount) where
  -- What is written to `out`, the table and the world.
  pub file_descriptor_allocate : Name → ℕ → Descriptors → W → Outcome (ℕ × Descriptors × W)
  file_descriptor_allocate filename mode d w = fopen filesystems mounts filename mode w >>= λ r.
      ret (elim r.0 [
        | none ↦ (minus_one, d, r.1)
        | some file ↦
            let fd = d.last_descriptor_number in
            (
              fd,
              record {
                infos = d.infos ++ (record { fd = fd; file = file } ∷ []);
                last_descriptor_number = u32 (fd + 1);
              },
              r.1,
            )
      ])

  -- A call on the stream of a descriptor, if it has one.
  pub with_file :
      ℕ
      → (File → W → Outcome (ℕ × File × W))
      → Descriptors
      → W
      → Outcome (Option ℕ × Descriptors × W)
  with_file fd call d w =
      if is_invalid fd d then ret (none, d, w) else elim (file_descriptor_get fd d) [
        | none ↦ ret (none, d, w)
        | some inf ↦ call inf.file w >>= λ r.
            ret (some r.0, record d { infos = set_file d.infos fd r.1 }, r.2)
      ]

  pub file_descriptor_read : ℕ → ℕ → ℕ → Descriptors → W → Outcome (Option ℕ × Descriptors × W)
  file_descriptor_read fd count buffer =
      with_file fd (λ file. fread filesystems mounts file count 1 buffer)

  pub file_descriptor_write : ℕ → ℕ → ℕ → Descriptors → W → Outcome (Option ℕ × Descriptors × W)
  file_descriptor_write fd count buffer =
      with_file fd (λ file. fwrite filesystems mounts file count 1 buffer)

  pub file_descriptor_seek : ℕ → ℕ → ℕ → Descriptors → W → Outcome (Option ℕ × Descriptors × W)
  file_descriptor_seek fd value whence =
      with_file fd (λ file. fseek filesystems mounts file value whence)

  -- The result is what is written to `out`.
  pub file_descriptor_tell : ℕ → Descriptors → W → Outcome (Option ℕ × Descriptors × W)
  file_descriptor_tell fd = with_file fd (ftell filesystems mounts)

pub file_descriptor_close : ℕ → Descriptors → Descriptors
file_descriptor_close fd d = if is_invalid fd d then d else record d { infos = erase_fd d.infos fd }
