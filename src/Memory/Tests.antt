-- ===== src/Memory/Tests.antt =====
-- The routines on memory at a memory whose bytes count up.
use nocturne_os_base.Prelude.{◌%◌, ◌≡◌, refl, arith, inl}
use nocturne_os_base.Memory.{
  Memory, memcpy, memset, memmove, copy_words, copy_bytes, fill_to_word, fill_from_word, fill_words,
  fill_bytes, repeat_byte, copy_back,
}
use nocturne_os_base.Memory.Words.{IsBytes}
use nocturne_os_base.Memory.Copy.{copied, memcpy_lem}

abbrev counting : Memory
counting = λ x. x % 256

counting-IsBytes : IsBytes counting
counting-IsBytes x = omega arith

memcpy_seven_bytes : memcpy counting 100 200 7 106 ≡ 206
unfolding memcpy copy_words copy_bytes
memcpy_seven_bytes = refl

memset_unaligned : memset counting 101 511 9 109 ≡ 255
unfolding memset fill_to_word fill_from_word fill_words fill_bytes repeat_byte
memset_unaligned = refl

memmove_overlapping : memmove counting 103 101 5 107 ≡ 105
unfolding memmove copy_back copy_bytes
memmove_overlapping = refl

memcpy_lem_example : memcpy counting 100 200 7 106 ≡ copied counting 100 200 7 106
memcpy_lem_example = memcpy_lem counting 100 200 7 106 counting-IsBytes (inl (omega arith))
