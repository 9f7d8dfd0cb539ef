-- ===== src/Scheduler/Blocks.antt =====
-- The blocks and frames that a process gives back at its end in remove_thread, written with indices.
use nocturne_os_base.Prelude.{
  ℕ, zero, suc, ◌+◌, ◌*◌, ◌/◌, ◌%◌, max, align_up, page_size, if◌then◌else◌, Option, none, some,
  ◌^◌, ◌≡◌, refl, ap, ◌∙◌, List, [], ◌∷◌, ◌++◌, ◌==◌, inl, inr, Bool-cases, arith,
}
use mathlib.Core.List.{append_assoc}
use nocturne_os_base.Scheduler.{
  Process, Program, ProgramHeader, Call, freed, freed_page, unloaded, free_pages, free_segments,
  free_program, free_tables, process_calls,
}

-- What a process gives back but for its own block, written with indices: the frames behind the pages of each segment that is
-- loaded, the program, the page tables in use, the page directory, the name and the current directory.
abbrev pub frames_at : ℕ → ℕ → ℕ → ℕ → List Call
frames_at dir vaddr i zero = []
frames_at dir vaddr i (suc n) =
    freed_page dir ((vaddr + i * 4096) % 2 ^ 32) ∷ frames_at dir vaddr (i + 1) n

abbrev pub segment_frames : ℕ → ProgramHeader → List Call
segment_frames dir h =
    if h.p_type == 1 then frames_at dir h.p_vaddr 0 (max (align_up h.p_memsz 4096 / 4096) 1) else []

abbrev pub program_frames : ℕ → List ProgramHeader → List Call
program_frames dir [] = []
program_frames dir (h ∷ hs) = segment_frames dir h ++ program_frames dir hs

abbrev pub program_blocks : ℕ → Option Program → List Call
program_blocks dir none = []
program_blocks dir (some program) =
    program_frames dir program.p_header ++ (unloaded program.at ∷ [])

abbrev pub table_blocks : List ℕ → List Call
table_blocks [] = []
table_blocks (t ∷ ts) = if t == 0 then table_blocks ts else freed t ∷ table_blocks ts

free_pages-frames_at :
    (dir vaddr i n : ℕ) → free_pages dir (vaddr + i * page_size) n ≡ frames_at dir vaddr i n
unfolding free_pages
free_pages-frames_at dir vaddr i zero = refl
free_pages-frames_at dir vaddr i (suc n) =
    let next : (vaddr + i * page_size) + page_size ≡ vaddr + (i + 1) * page_size = omega arith in
    ap (λ l. freed_page dir ((vaddr + i * page_size) % 2 ^ 32) ∷ l)
      (ap (λ a. free_pages dir a n) next ∙ free_pages-frames_at dir vaddr (i + 1) n)

free_pages_lem : (dir vaddr n : ℕ) → free_pages dir vaddr n ≡ frames_at dir vaddr 0 n
free_pages_lem dir vaddr n =
    let start : vaddr ≡ vaddr + 0 * page_size = omega arith in
    ap (λ a. free_pages dir a n) start ∙ free_pages-frames_at dir vaddr 0 n

free_segments_lem :
    (dir : ℕ) (hs : List ProgramHeader) → free_segments dir hs ≡ program_frames dir hs
unfolding free_segments
free_segments_lem dir [] = refl
free_segments_lem dir (h ∷ hs) =
    rw
      (
        free_pages_lem dir h.p_vaddr (max (align_up h.p_memsz page_size / page_size) 1),
        free_segments_lem dir hs,
      )
      refl

free_program_lem : (dir : ℕ) (p : Option Program) → free_program dir p ≡ program_blocks dir p
unfolding free_program
free_program_lem dir none = refl
free_program_lem dir (some p) = rw (free_segments_lem dir p.p_header) refl

free_tables_lem : (ts : List ℕ) → free_tables ts ≡ table_blocks ts
unfolding free_tables
free_tables_lem [] = refl
free_tables_lem (t ∷ ts) = elim (Bool-cases (t == 0)) [
  | inl zero_table ↦ rw zero_table (free_tables_lem ts)
  | inr used ↦ rw used (ap (λ l. freed t ∷ l) (free_tables_lem ts))
]

-- The blocks of a process, and itself.
pub process_calls_lem :
    (p : Process) (at : ℕ)
    → process_calls p ++ (freed at ∷ [])
      ≡ program_blocks p.page_dir_virt p.program
        ++ (table_blocks p.page_tables_virts
            ++ (freed p.page_dir_virt ∷ freed p.name ∷ freed p.cwd ∷ freed at ∷ []))
unfolding process_calls
process_calls_lem p at =
    let own = freed p.page_dir_virt ∷ freed p.name ∷ freed p.cwd ∷ [] in
    append_assoc (free_program p.page_dir_virt p.program) (free_tables p.page_tables_virts ++ own)
      (freed at ∷ [])
    ∙ rw
        (
          append_assoc (free_tables p.page_tables_virts) own (freed at ∷ []),
          free_program_lem p.page_dir_virt p.program,
          free_tables_lem p.page_tables_virts,
        )
        refl
