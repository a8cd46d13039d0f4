-- ===== src/Utils/PerfEvent.antt =====
-- src/utils/perf_event.cpp: the ring buffer that the kernel shares with the process. The mapping is the
-- header's page, of `page_size` bytes, and after it the ring: `page_num` pages, which are 2 ^ k bytes
-- together. The kernel moves `data_head`, the program `data_tail`.
mod Tests
pub mod Ring
use libvsf.Prelude.{
  ℕ, ◌+◌, ◌-◌, ◌%◌, ◌^◌, Bool, true, false, Option, none, some, List, [], ◌++◌, ltb, leb,
  if◌then◌else◌, length, take, drop,
}
use libvsf.Prelude.Int.{ℤ, pos, negsuc, to_int}
use libvsf.Prelude.Word.{u32, u64, sub64}
use libvsf.Prelude.Exec.{Result, ok, err, mmap_failed, out_of_bounds}

pub record MmapPage : Type 0 where
  pub data_head : ℕ
  pub data_tail : ℕ

-- memcpy from the ring: a byte behind its end is out of the mapping.
unfoldable pub copy_from : List ℕ → ℕ → ℕ → Result (List ℕ)
copy_from ring start n =
    if leb (start + n) (length ring) then ok (take n (drop start ring)) else err out_of_bounds

-- Two copies into one buffer.
abbrev pub copied : Result (List ℕ) → Result (List ℕ) → Result (List ℕ)
copied (ok a) (ok b) = ok (a ++ b)
copied (ok a) (err e) = err e
copied (err e) _ = err e

-- x & (2 ^ k - 1)
abbrev pub low_bits : ℕ → ℕ → ℕ
low_bits x k = x % 2 ^ k

abbrev pub advance : ℕ → MmapPage → MmapPage
advance size header = record header { data_tail = u64 (header.data_tail + size) }

-- The buffer after a read moves the tail; a fault ends the program.
abbrev pub finish_read : ℕ → MmapPage → Result (List ℕ) → Result (Option (List ℕ)) × MmapPage
finish_read size header (ok buf) = (ok (some buf), advance size header)
finish_read size header (err e) = (err e, header)

-- `none` is the result -1.
unfoldable pub mmap_buffer_read :
    ℕ → ℕ → List ℕ → ℕ → MmapPage → Result (Option (List ℕ)) × MmapPage
unfolding copy_from
mmap_buffer_read k page_size ring size header =
    let data_tail = low_bits header.data_tail k in
    let ncopies = sub64 (u32 (2 ^ k + page_size)) data_tail in
    if ltb (sub64 header.data_head header.data_tail) size
    then (ok none, header)
    else finish_read size header (
        if ltb ncopies size
        then copied (copy_from ring data_tail ncopies) (copy_from ring 0 (size - ncopies))
        else copy_from ring data_tail size)

-- An `int` as an operand of 64 bits.
abbrev pub int_to_u64 : ℤ → ℕ
int_to_u64 (pos n) = n
int_to_u64 (negsuc n) = 2 ^ 64 - 1 - n

-- The difference is cut to the `int` that holds the size.
unfoldable pub mmap_buffer_skip : ℤ → MmapPage → MmapPage
mmap_buffer_skip size header =
    advance
      (int_to_u64 (
        if ltb header.data_head (u64 (header.data_tail + int_to_u64 size))
        then to_int (sub64 header.data_head header.data_tail)
        else size))
      header

pub record PerfMmap : Type 0 where
  pub base : Option ℕ

-- mmap returns an address, or MAP_FAILED, here `none`, which is stored all the same.
unfoldable pub perf_mmap_read : Option ℕ → PerfMmap → Result (Unit {0}) × PerfMmap
perf_mmap_read none m = (err mmap_failed, record { base = none })
perf_mmap_read (some p) m = (ok tt, record { base = some p })

-- Of a mapping that has been made.
abbrev pub perf_mmap__read_head : MmapPage → ℕ
perf_mmap__read_head header = header.data_head
