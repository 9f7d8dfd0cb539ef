-- ===== src/Stdio/Tests.antt =====
-- A file of ten bytes.
use nocturne_os_base.Prelude.{true, some, ◌≡◌, refl, ret}
use nocturne_os_base.Fsm.Tests.{drivers, mounts}
use nocturne_os_base.Nvfs.Tests.{name, name_info}
use nocturne_os_base.Stdio.{File, info_or_create, fopen}

abbrev pub file : File
file = record { path = name; size = 10; fmode = 1; «open» = true; pos = 0; err = 0 }

pub name_opens : fopen drivers mounts name 1 0 ≡ ret (some file, 0)
unfolding fopen info_or_create
name_opens = rw name_info refl

abbrev later : File
later = record file { pos = 8 }
