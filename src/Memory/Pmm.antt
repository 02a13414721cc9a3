-- ===== src/Memory/Pmm.antt =====
-- The physical frame allocator, kernel/src/memory/pmm.rs: the bitmap (`true` of `is_frame_free` is a
-- clear bit) with the counters of `PmmInner`. Every operation holds both locks from end to end, so
-- it is a function of the state. `max_frames`, the source's constant MAX_FRAMES, is an argument.
pub mod View
pub mod Count
pub mod Frame
pub mod Contiguous
pub mod Search
pub mod Ranges
pub mod Init
mod Checks
use vibra.Memory.Bits.{bit_clear, raise_bit, lower_bit}
use vibra.Common.{
  ℕ, zero, suc, ◌+◌, ◌-◌, ◌*◌, ◌/◌, ◌%◌, ◌^◌, List, [], ◌∷◌, Option, none, some, Bool, true, false,
}
use vibra.Common.{
  min, max, ltb, leb, ◌==◌, not, ◌||◌, if◌then◌else◌, length, get_or, set, replicate, u64_mod,
  saturating_add,
}

abbrev pub frame_size : ℕ
frame_size = 4096

-- MAX_FRAMES: 16M frames of 4 KiB.
abbrev pub source_frames : ℕ
source_frames = 16 * 1024 * 1024

abbrev pub reserved_low_mem : ℕ
reserved_low_mem = 0x10_0000

pub record Pmm : Type 0 where
  pub bitmap : List ℕ
  pub free_frames : ℕ
  pub total_frames : ℕ
  pub next_hint : ℕ

-- The byte of a frame. Every caller keeps the index below MAX_FRAMES, so the default is not read.
unfoldable pub byte_of : List ℕ → ℕ → ℕ
byte_of bitmap index = get_or bitmap (index / 8) 0xff

unfoldable pub is_frame_free : List ℕ → ℕ → Bool
unfolding byte_of
is_frame_free bitmap index = bit_clear (byte_of bitmap index) (index % 8)

unfoldable pub set_frame_used : List ℕ → ℕ → List ℕ
unfolding byte_of
set_frame_used bitmap index = set bitmap (index / 8) (raise_bit (byte_of bitmap index) (index % 8))

unfoldable pub set_frame_free : List ℕ → ℕ → List ℕ
unfolding byte_of
set_frame_free bitmap index = set bitmap (index / 8) (lower_bit (byte_of bitmap index) (index % 8))

-- `for frame in start..start + count { set_frame_used }`.
unfoldable pub mark_used : ℕ → ℕ → List ℕ → List ℕ
mark_used zero start bitmap = bitmap
mark_used (suc count) start bitmap = mark_used count (start + 1) (set_frame_used bitmap start)

unfoldable pub mark_free : ℕ → ℕ → List ℕ → List ℕ
mark_free zero start bitmap = bitmap
mark_free (suc count) start bitmap = mark_free count (start + 1) (set_frame_free bitmap start)

-- An entry of the memory map; `usable` is `type_ == MEMMAP_USABLE`.
pub record Entry : Type 0 where
  pub base : ℕ
  pub length : ℕ
  pub usable : Bool

unfoldable pub add_frame : ℕ → ℕ → Pmm → Pmm
add_frame max_frames index p =
    if ltb index max_frames
    then record p {
      bitmap = set_frame_free p.bitmap index;
      free_frames = p.free_frames + 1;
      total_frames = p.total_frames + 1;
    }
    else p

-- The inner loop of `init`: `count` frames from `start` on.
unfoldable pub add_frames : ℕ → ℕ → ℕ → Pmm → Pmm
add_frames max_frames zero start p = p
add_frames max_frames (suc count) start p =
    add_frames max_frames count (start + 1) (add_frame max_frames start p)

unfoldable pub entry_end : Entry → ℕ
entry_end e = saturating_add e.base e.length

unfoldable pub entry_base : Entry → ℕ
entry_base e = max e.base reserved_low_mem

unfoldable pub add_entry : ℕ → Entry → Pmm → Pmm
unfolding entry_end entry_base
add_entry max_frames e p =
    if not e.usable || leb (entry_end e) (entry_base e)
    then p
    else add_frames max_frames ((entry_end e - entry_base e) / frame_size)
        (entry_base e / frame_size) p

unfoldable pub add_entries : ℕ → List Entry → Pmm → Pmm
add_entries max_frames [] p = p
add_entries max_frames (e ∷ es) p = add_entries max_frames es (add_entry max_frames e p)

unfoldable pub all_used : ℕ → Pmm
all_used max_frames = record {
  bitmap = replicate (max_frames / 8) 0xff;
  free_frames = 0;
  total_frames = 0;
  next_hint = 0;
}

unfoldable pub init : ℕ → List Entry → Pmm
unfolding all_used
init max_frames memory_map = record (add_entries max_frames memory_map (all_used max_frames)) {
  next_hint = reserved_low_mem / frame_size;
}

-- The loop of `alloc_frame`, with the rounds left.
unfoldable pub find_free : ℕ → List ℕ → ℕ → ℕ → ℕ → Option ℕ
find_free max_frames bitmap start zero offset = none
find_free max_frames bitmap start (suc left) offset =
    let rest = find_free max_frames bitmap start left (offset + 1) in
    if is_frame_free bitmap ((start + offset) % max_frames)
    then some ((start + offset) % max_frames)
    else rest

-- The physical address of the frame, and the new state.
unfoldable pub alloc_frame : ℕ → Pmm → Option ℕ × Pmm
alloc_frame max_frames p =
    if p.free_frames == 0
    then (none, p)
    else elim (find_free max_frames p.bitmap p.next_hint max_frames 0) [
      | none ↦ (none, p)
      | some frame ↦ (
        some (frame * frame_size),
        record p {
          bitmap = set_frame_used p.bitmap frame;
          free_frames = p.free_frames - 1;
          next_hint = frame + 1;
        },
      )
    ]

unfoldable pub free_frame : ℕ → ℕ → Pmm → Pmm
free_frame max_frames addr p =
    if not (addr % frame_size == 0) || leb max_frames (addr / frame_size)
    then p
    else if is_frame_free p.bitmap (addr / frame_size)
    then p
    else record p {
      bitmap = set_frame_free p.bitmap (addr / frame_size);
      free_frames = p.free_frames + 1;
    }

-- Whether a frame of `start..start + count` is free.
unfoldable pub any_free : ℕ → ℕ → List ℕ → Bool
any_free zero start bitmap = false
any_free (suc count) start bitmap = is_frame_free bitmap start || any_free count (start + 1) bitmap

unfoldable pub free_contiguous : ℕ → ℕ → ℕ → Pmm → Bool × Pmm
free_contiguous max_frames addr count p =
    let start = addr / frame_size in
    if count == 0 || not (addr % frame_size == 0)
    then (false, p)
    else if leb u64_mod (start + count) || ltb max_frames (start + count)
    then (false, p)
    else if any_free count start p.bitmap
    then (false, p)
    else (
      true,
      record p {
        bitmap = mark_free count start p.bitmap;
        free_frames = p.free_frames + count;
        next_hint = min p.next_hint start;
      },
    )

-- The first free frame from `start` on, with the frames left; the end if there is none.
unfoldable pub skip_used : List ℕ → ℕ → ℕ → ℕ
skip_used bitmap zero start = start
skip_used bitmap (suc left) start =
    let rest = skip_used bitmap left (start + 1) in
    if is_frame_free bitmap start then start else rest

-- The end of the free run at `end`, at most `left` frames on.
unfoldable pub run_end : List ℕ → ℕ → ℕ → ℕ
run_end bitmap zero end = end
run_end bitmap (suc left) end =
    let rest = run_end bitmap left (end + 1) in if is_frame_free bitmap end then rest else end

pub data Run : Type 0 where
  run : ℕ → Run
  exhausted out_of_fuel : Run

-- The loop of `alloc_contiguous`. The turn that finds no frame up to the end of the bitmap starts
-- again at 0 and is not counted in `checked`.
unfoldable pub search_run : ℕ → List ℕ → ℕ → ℕ → ℕ → ℕ → Run
search_run max_frames bitmap count zero checked start = out_of_fuel
search_run max_frames bitmap count (suc fuel) checked start =
    let first = skip_used bitmap (max_frames - start) start in
    let end = run_end bitmap (min (max_frames - first) count) first in
    let again = search_run max_frames bitmap count fuel checked 0 in
    let onward =
      search_run max_frames bitmap count fuel (checked + 1)
        (if leb max_frames end then 0 else end) in
    if ltb checked (max_frames * 2)
    then (if leb max_frames first
        then again
        else if leb count (end - first)
        then run first
        else onward)
    else exhausted

-- Enough turns of the loop: see `search_run-total`.
abbrev pub search_fuel : ℕ → ℕ
search_fuel max_frames = max_frames * 4 + 2

unfoldable pub take_run : ℕ → Pmm → Run → Option ℕ × Pmm
take_run count p (run start) = (
  some (start * frame_size),
  record p {
    bitmap = mark_used count start p.bitmap;
    free_frames = p.free_frames - count;
    next_hint = start + count;
  },
)
take_run count p exhausted = (none, p)
take_run count p out_of_fuel = (none, p)

unfoldable pub alloc_contiguous : ℕ → ℕ → Pmm → Option ℕ × Pmm
unfolding take_run
alloc_contiguous max_frames count p =
    if count == 0 || ltb p.free_frames count
    then (none, p)
    else take_run count p
        (search_run max_frames p.bitmap count (search_fuel max_frames) 0 p.next_hint)

-- (used, total).
unfoldable pub stats : Pmm → ℕ × ℕ
stats p = ((p.total_frames + u64_mod - p.free_frames) % u64_mod, p.total_frames)
