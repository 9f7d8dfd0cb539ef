-- ===== src/Descriptors/Tests.antt =====
-- One descriptor, for the file of ten bytes.
use nocturne_os_base.Prelude.{[], ◌∷◌, refl, arith}
use nocturne_os_base.Stdio.Tests.{file}
use nocturne_os_base.Descriptors.{Descriptors, find_fd}
use nocturne_os_base.Descriptors.Table.{IsValid}

abbrev no_descriptors : Descriptors
no_descriptors = record { infos = []; last_descriptor_number = 0 }

no_descriptors-IsValid : IsValid no_descriptors
unfolding find_fd
no_descriptors-IsValid = record { distinct = tt; below = λ fd le. refl; fits = omega arith }

abbrev one_descriptor : Descriptors
one_descriptor = record { infos = record { fd = 0; file = file } ∷ []; last_descriptor_number = 1 }

one_descriptor-IsValid : IsValid one_descriptor
unfolding find_fd
one_descriptor-IsValid = record {
  distinct = (refl, tt);
  below = λ fd le. ground arith;
  fits = omega arith;
}
