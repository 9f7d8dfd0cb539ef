-- ===== src/Heap/Shift.antt =====
-- The two shifting loops of kernel/src/mem/vmm.c, entry by entry.
use nocturne_os_base.Prelude.{
  ℕ, zero, suc, ◌+◌, ◌-◌, ◌≤◌, ◌<◌, ◌&&◌, List, ltb, leb, if◌then◌else◌, length, set, ◌≡◌, refl,
  arith, length-set, get_or-set_self, get_or-set_ne, ◌∙◌,
}
use nocturne_os_base.Heap.{HeapEntry, no_entry, entry_at, shift_up, shift_down}

pub length-shift_up : (mem : List HeapEntry) (n j : ℕ) → length (shift_up mem n j) ≡ length mem
unfolding shift_up
length-shift_up mem zero j = refl
length-shift_up mem (suc n) j =
    length-shift_up (set mem j (entry_at mem (j - 1))) n (j - 1) ∙ length-set mem j _

pub entry_at-shift_up :
    (mem : List HeapEntry) (n j k : ℕ)
    → n ≤ j
    → j < length mem
    → entry_at (shift_up mem n j) k
      ≡ (if ltb (j - n) k && leb k j then entry_at mem (k - 1) else entry_at mem k)
unfolding shift_up
entry_at-shift_up mem zero j k le hj = ground arith
entry_at-shift_up mem (suc n) j k le hj =
    let v = entry_at mem (j - 1) in
    ground (
      arith,
      length-set mem j v,
      entry_at-shift_up (set mem j v) n (j - 1) k,
      get_or-set_self mem j v no_entry hj,
      get_or-set_ne mem j k v no_entry,
      get_or-set_ne mem j (k - 1) v no_entry,
    )

pub length-shift_down : (mem : List HeapEntry) (n i : ℕ) → length (shift_down mem n i) ≡ length mem
unfolding shift_down
length-shift_down mem zero i = refl
length-shift_down mem (suc n) i =
    length-shift_down (set mem i (entry_at mem (i + 1))) n (i + 1) ∙ length-set mem i _

pub entry_at-shift_down :
    (mem : List HeapEntry) (n i k : ℕ)
    → i + n < length mem
    → entry_at (shift_down mem n i) k
      ≡ (if leb i k && ltb k (i + n) then entry_at mem (k + 1) else entry_at mem k)
unfolding shift_down
entry_at-shift_down mem zero i k h = ground arith
entry_at-shift_down mem (suc n) i k h =
    let v = entry_at mem (i + 1) in
    ground (
      arith,
      length-set mem i v,
      entry_at-shift_down (set mem i v) n (i + 1) k,
      get_or-set_self mem i v no_entry,
      get_or-set_ne mem i k v no_entry,
      get_or-set_ne mem i (k + 1) v no_entry,
    )
