-- ===== src/Stdio.antt =====
-- Files by name, kernel/src/lib/stdio.c, over the virtual file system of Nvfs. The child modules prove what holds of them.
--
-- A stream is a record that the calls take and give back; null pointers are left out, but for the buffer of
-- `fread`. A `size_t` and an `int` have 32 bits; -1 is `2 ^ 32 - 1`. What is allocated is granted. Log calls are left out.
pub mod Seek
pub mod Tests
use nocturne_os_base.Prelude.{
  ℕ, zero, suc, ◌+◌, ◌-◌, ◌*◌, ◌^◌, Bool, true, false, not, ◌&&◌, ◌||◌, Option, none, some, List,
  ltb, leb, ◌==◌, if◌then◌else◌, u32, bit_and, Outcome, ret, ◌>>=◌,
}
use nocturne_os_base.Fsm.{Name, FsmFile, FilesystemHandler, FsmMount}
use nocturne_os_base.Nvfs.{nvfs_info, nvfs_create, nvfs_read, nvfs_write}

-- `FILE`.
pub record File : Type 0 where
  pub path : Name
  pub size : ℕ
  pub fmode : ℕ
  pub «open» : Bool
  pub pos : ℕ
  pub err : ℕ

abbrev pub minus_one : ℕ
minus_one = 2 ^ 32 - 1

-- Seeking from the position `lsk`.
abbrev pub seek_from : ℕ → ℕ → File → File
seek_from lsk offset stream =
    let target = u32 (lsk + offset) in
    if ltb 0 target && leb target stream.size then record stream { pos = target } else stream

module _ {W : Type 0} (filesystems : List (FilesystemHandler W)) (mounts : List FsmMount) where
  pub fcheckerror : File → W → Outcome (File × W)
  fcheckerror stream w = nvfs_info filesystems mounts stream.path w >>= λ finfo.
      let err =
        if not finfo.0.ready
        then 1
        else if stream.fmode == 0
        then 2
        else if stream.size == 0
        then 3
        else if not stream.«open»
        then 4
        else stream.err in
      ret (record stream { err = err }, finfo.1)

  -- The second look at a file that was not there and is to be created.
  pub info_or_create : Name → ℕ → W → Outcome (FsmFile × W)
  info_or_create filename mode w = nvfs_info filesystems mounts filename w >>= λ finfo.
      let created = nvfs_create filesystems mounts filename 0 finfo.1 >>= λ r.
      nvfs_info filesystems mounts filename r.1 in
      if not finfo.0.ready && not (bit_and mode 4 == 0) then created else ret finfo

  pub fopen : Name → ℕ → W → Outcome (Option File × W)
  fopen filename mode w = info_or_create filename mode w >>= λ finfo.
      let file : File = record {
        path = filename;
        size = finfo.0.size;
        fmode = mode;
        «open» = true;
        pos = 0;
        err = 0;
      } in
      ret (if not finfo.0.ready || mode == 0 then none else some file, finfo.1)

  -- The result, the stream and the world.
  pub fsize : File → W → Outcome (ℕ × File × W)
  fsize stream w =
      let failed = fcheckerror stream w >>= λ r. ret (minus_one, r.0, r.1) in
      if not stream.«open» || stream.size == 0 || stream.fmode == 0
      then failed
      else ret (stream.size, stream, w)

  pub fread : File → ℕ → ℕ → ℕ → W → Outcome (ℕ × File × W)
  fread stream count size buffer w =
      let n = u32 (size * count) in
      let reads = nvfs_info filesystems mounts stream.path w >>= λ finfo.
      let failed = fcheckerror stream finfo.1 >>= λ r. ret (minus_one, r.0, r.1) in
      let done = nvfs_read filesystems mounts stream.path stream.pos n buffer finfo.1 >>= λ r.
      ret (r.0, if ltb 0 r.0 then record stream { pos = u32 (stream.pos + n) } else stream, r.1) in
      if not stream.«open» || not finfo.0.ready || stream.size == 0 || stream.fmode == 0
      then failed
      else done in
      if buffer == 0 then ret (minus_one, stream, w) else reads

  pub ftell : File → W → Outcome (ℕ × File × W)
  ftell stream w =
      let failed = fcheckerror stream w >>= λ r. ret (minus_one, r.0, r.1) in
      if not stream.«open» || stream.fmode == 0 then failed else ret (stream.pos, stream, w)

  -- `offset` is an `ssize_t`: negative from `2 ^ 31` on.
  pub fseek : File → ℕ → ℕ → W → Outcome (ℕ × File × W)
  fseek stream offset whence w =
      let failed = fcheckerror stream w >>= λ r. ret (minus_one, r.0, r.1) in
      let from_start =
        if ltb offset (2 ^ 31) && leb offset stream.size
        then record stream { pos = offset }
        else seek_from 0 offset stream in
      if not stream.«open» || stream.size == 0 || stream.fmode == 0
      then failed
      else if whence == 1
      then ret (0, seek_from stream.pos offset stream, w)
      else if whence == 2
      then ret (0, seek_from stream.size offset stream, w)
      else if whence == 0
      then ret (0, from_start, w)
      else ret (minus_one, stream, w)

  pub rewind : File → W → Outcome (File × W)
  rewind stream w =
      let checked = fcheckerror stream w >>= λ r. ret (record r.0 { pos = 0 }, r.1) in
      if not stream.«open» || stream.size == 0 || stream.fmode == 0
      then checked
      else ret (record stream { pos = 0 }, w)

  pub fwrite : File → ℕ → ℕ → ℕ → W → Outcome (ℕ × File × W)
  fwrite stream size count ptr w =
      let n = u32 (size * count) in
      let end = u32 (stream.pos + n) in
      let grown = if ltb stream.size end then record stream { size = end } else stream in
      nvfs_write filesystems mounts stream.path stream.pos n ptr w >>= λ r.
      ret (minus_one, if ltb 0 r.0 then record grown { pos = end } else grown, r.1)
