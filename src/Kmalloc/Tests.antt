-- ===== src/Kmalloc/Tests.antt =====
-- The kernel heap at small states.
use nocturne_os_base.Prelude.{
  ℕ, zero, suc, ◌+◌, ◌/◌, ◌%◌, ◌^◌, ◌≤◌, ◌<◌, ◌≡◌, ◌≢◌, refl, arith, ret, ◌⊎◌, inr, page_size,
}
use nocturne_os_base.Pmm.Tests.{half_used, two_taken, alloc_two_runs}
use nocturne_os_base.Heap.{Heap, entry_at}
use nocturne_os_base.Heap.Insert.{IsValid, end_of}
use nocturne_os_base.Heap.Search.{four-IsAlignment}
use nocturne_os_base.Heap.Free.{IsBlockAt}
use nocturne_os_base.Heap.Cover.{IsBelowTop}
use nocturne_os_base.Heap.Tests.{two_blocks, two_blocks-ends, two_blocks-IsValid}
use nocturne_os_base.Paging.Tests.{unmapped, all_mapped}
use nocturne_os_base.Kmalloc.{
  page_writeable, vmm_init, Kernel, kmalloc_common, kfree, krealloc_common,
}
use nocturne_os_base.Paging.{Mapping}
use nocturne_os_base.Paging.Range.{MapsRange}
use nocturne_os_base.Kmalloc.Init.{arena_start, vmm_init-IsValid}
use nocturne_os_base.Kmalloc.Alloc.{Provides, kmalloc-Provides}
use nocturne_os_base.Kmalloc.Ensure.{HasFrames}
use nocturne_os_base.Kmalloc.Free.{Releases, kfree-Releases}
use nocturne_os_base.Kmalloc.Resize.{Resizes, krealloc-Resizes}
use nocturne_os_base.Kmalloc.Move.{Moves, krealloc-Moves}

abbrev kernel : Kernel
kernel = record { heap = two_blocks; mapping = unmapped; memory = λ x. x % 256 }

abbrev mapped_kernel : Kernel
mapped_kernel = record kernel { mapping = all_mapped }

space : (i : ℕ) → i < 2 → end_of (entry_at two_blocks.memory i) + 4 + 16400 + 8192 ≤ 2 ^ 32
space zero hi = omega arith
space (suc zero) hi = omega arith
space (suc (suc i)) hi = absurd (omega arith)

below_top : IsBelowTop two_blocks
below_top j hj = omega (arith, two_blocks-ends j hj)

frames : HasFrames all_mapped
frames q = omega arith

first_block : IsBlockAt two_blocks.memory 16777216 0 2 0
first_block = (omega arith, omega arith, refl, λ j lo hi. absurd (omega arith))

kmalloc-Provides_example :
    (i : ℕ) × (a : ℕ) × (k' : Kernel) × (kmalloc_common 16400 4 kernel ≡ ret (a, k'))
    × Provides kernel 16400 4 i a k'
kmalloc-Provides_example =
    kmalloc-Provides kernel 16400 4 two_blocks-IsValid (omega arith) four-IsAlignment (omega arith)
      (omega arith) (omega arith, space) (omega arith)

kfree-Releases_example :
    ((kfree 16777216 mapped_kernel ≡ ret mapped_kernel)
      × ((j : ℕ) → j < 2 → (entry_at two_blocks.memory j).address ≢ 16777216))
    ⊎ ((i : ℕ) × (k' : Kernel) × IsBlockAt two_blocks.memory 16777216 0 2 i
        × (kfree 16777216 mapped_kernel ≡ ret k')
        × Releases mapped_kernel 16777216 i k')
kfree-Releases_example =
    kfree-Releases mapped_kernel 16777216 two_blocks-IsValid (λ e. absurd (omega arith)) below_top
      frames

krealloc-Resizes_example :
    (k' : Kernel) × (krealloc_common 16777216 200 4 kernel ≡ ret (16777216, k'))
    × Resizes kernel 0 200 k'
krealloc-Resizes_example =
    krealloc-Resizes kernel 16777216 200 4 0 two_blocks-IsValid (λ e. absurd (omega arith))
      first_block (omega arith) (omega arith) (inr (inr (omega arith)))

krealloc-Moves_example :
    (j : ℕ) × (a : ℕ) × (i' : ℕ) × (k₁ : Kernel) × (k₂ : Kernel) × (krealloc_common 16777216 16400 4
        mapped_kernel
      ≡ ret (a, k₂))
    × Moves mapped_kernel 16777216 16400 4 0 j a i' k₁ k₂
krealloc-Moves_example =
    krealloc-Moves mapped_kernel 16777216 16400 4 0 two_blocks-IsValid (omega arith)
      four-IsAlignment (omega arith) (omega arith) (omega arith, space) (omega arith) frames
      (λ x. omega arith) (λ e. absurd (omega arith)) first_block (omega arith) (omega arith)
      (omega arith)

abbrev booted : Mapping
booted = record unmapped { pmm = half_used }

vmm_init-IsValid_example :
    (h : Heap) × (m : Mapping) × (vmm_init 17000000 booted ≡ ret (h, m))
    × IsValid h
    × (h.allocated_count ≡ 0)
    × (h.capacity ≡ 1024)
    × (h.start ≡ arena_start 17000000 + 12288)
    × MapsRange
        (record booted { pmm = two_taken })
        (arena_start 17000000 / page_size)
        (arena_start 17000000 / page_size + 2)
        16384
        page_writeable
        m
vmm_init-IsValid_example =
    vmm_init-IsValid 17000000 16384 booted two_taken (omega arith) alloc_two_runs (omega arith)
      (omega arith)
