-- ===== src/Maptest.antt =====
-- "project_memory space/maptest/maptest.c": /proc/maptest, a page with a text that a process can map.
-- alloc_pages, proc_create and remap_pfn_range are parameters.
mod Tests
use linux_kernel.Prelude.{
  ℕ, zero, suc, ◌+◌, ◌-◌, ◌*◌, ◌/◌, ◌%◌, ◌≤◌, ◌<◌, ◌≡◌, refl, ap, ◌∙◌, Bool, true, false, ◌&&◌, not,
  Option, none, some, List, arith, if◌then◌else◌, leb, ltb, length, get_or,
}
use linux_kernel.Prelude.Int.{ℤ, pos, negsuc}
use linux_kernel.Prelude.Errno.{efault}

-- The module's variable `page`, by its frame (`none` is NULL), and the physical memory.
pub record State : Type 0 where
  pub page : Option ℕ
  pub memory : ℕ → ℕ

abbrev pub frame_at : ℕ → ℕ
frame_at frame = frame * 4096

-- memcpy to the start of a frame.
abbrev pub copy_text : (ℕ → ℕ) → ℕ → List ℕ → ℕ → ℕ
copy_text memory frame content q =
    if leb (frame_at frame) q && ltb q (frame_at frame + length content)
    then get_or content (q - frame_at frame) 0
    else memory q

-- maptest_init; the last `none` is a fault, by the mapping of a NULL page.
unfoldable pub maptest_init :
    (content : List ℕ) → (created : Bool) → Option ℕ → State → Option (State × ℤ)
maptest_init content created allocated s =
    if not created then some (s, efault) else elim allocated [
      | none ↦ none
      | some frame ↦
          some (record { page = some frame; memory = copy_text s.memory frame content }, pos 0)
    ]

-- What a successful remap_pfn_range(vma, start, pfn, size, …) makes of an area: the frame of each of
-- its pages.
pub record Mapping : Type 0 where
  pub start : ℕ
  pub size : ℕ
  pub frame_of : ℕ → ℕ

-- proc_mmap, which asks for the whole area of the caller; `none` of `remap` is an error.
unfoldable pub proc_mmap : (remap : ℕ → ℕ → ℕ → Option Mapping) → ℕ → ℕ → ℕ → Option Mapping × ℤ
proc_mmap remap frame vm_start vm_end = elim (remap vm_start frame (vm_end - vm_start)) [
  | none ↦ (none, negsuc 0)
  | some m ↦ (some m, pos 0)
]

-- remap_pfn_range maps consecutive frames.
pub record MapsFrames (remap : ℕ → ℕ → ℕ → Option Mapping) : Type 0 where
  pub frames :
      (start pfn size : ℕ) (m : Mapping)
      → remap start pfn size ≡ some m
      → (m.start ≡ start) × (m.size ≡ size) × ((i : ℕ) → i * 4096 < size → m.frame_of i ≡ pfn + i)

-- What a process reads at an offset of the area.
abbrev pub load : (ℕ → ℕ) → Mapping → ℕ → ℕ
load memory m offset = memory (frame_at (m.frame_of (offset / 4096)) + offset % 4096)

load_at :
    (memory : ℕ → ℕ) (m : Mapping) (frame q : ℕ)
    → m.frame_of (q / 4096) ≡ frame + q / 4096
    → load memory m q ≡ memory (frame_at frame + q)
load_at memory m frame q h = rw h (ap memory (omega arith))

-- With remap_pfn_range mapping consecutive frames, and an area for which it succeeds: after
-- maptest_init proc_mmap gives a mapping of the whole area; at every offset of it stands the character
-- of the text, and from the end of the text on whatever the memory behind it holds, also behind the
-- module's one page.
pub proc_mmap_shows :
    (remap : ℕ → ℕ → ℕ → Option Mapping) (content : List ℕ) (s : State)
    (frame vm_start vm_end q : ℕ) (m : Mapping)
    → MapsFrames remap
    → remap vm_start frame (vm_end - vm_start) ≡ some m
    → q < m.size
    → let memory = copy_text s.memory frame content in
      (maptest_init content true (some frame) s
        ≡ some (record { page = some frame; memory = memory }, pos 0))
      × (proc_mmap remap frame vm_start vm_end ≡ (some m, pos 0))
      × (m.size ≡ vm_end - vm_start)
      × (load memory m q
          ≡ (if ltb q (length content) then get_or content q 0 else s.memory (frame_at frame + q)))
unfolding maptest_init proc_mmap
proc_mmap_shows remap content s frame vm_start vm_end q m maps r i =
    let (start, size, frames) = maps.frames vm_start frame (vm_end - vm_start) m r in
    (
      refl,
      rw (r, proc_mmap) refl,
      size,
      load_at (copy_text s.memory frame content) m frame q (frames (q / 4096) (omega arith))
          ∙ shifted,
    )
  where
    same_offset : frame * 4096 + q - frame * 4096 ≡ q
    same_offset = omega arith

    shifted :
        copy_text s.memory frame content (frame_at frame + q)
        ≡ (if ltb q (length content) then get_or content q 0 else s.memory (frame_at frame + q))
    shifted = rw same_offset (ground arith)
