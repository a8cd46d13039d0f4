-- ===== src/Utils/PerfEvent/Tests.antt =====
-- The theorems on the ring buffer applied to a ring of four bytes.
use libvsf.Prelude.{ℕ, ◌+◌, ◌%◌, ◌^◌, ◌<◌, ◌≡◌, refl, arith, some, List, [], ◌∷◌, get_elem?}
use libvsf.Prelude.Word.{u64}
use libvsf.Prelude.Exec.{ok, err, out_of_bounds}
use libvsf.Utils.PerfEvent.{MmapPage, mmap_buffer_read}
use libvsf.Utils.PerfEvent.Ring.{mmap_buffer_read-bytes, mmap_buffer_read-over_end}

abbrev ring : List ℕ
ring = 10 ∷ 11 ∷ 12 ∷ 13 ∷ []

abbrev header : MmapPage
header = record { data_head = 8; data_tail = 5 }

abbrev header_at_end : MmapPage
header_at_end = record { data_head = 6; data_tail = 3 }

mmap_buffer_read-bytes_example :
    (buf : List ℕ) × (mmap_buffer_read 2 4096 ring 3 header
      ≡ (ok (some buf), record header { data_tail = u64 (header.data_tail + 3) }))
    × ((i : ℕ) → i < 3 → get_elem? buf i ≡ get_elem? ring ((header.data_tail + i) % 2 ^ 2))
mmap_buffer_read-bytes_example =
    mmap_buffer_read-bytes 2 4096 3 ring header refl (omega arith) (omega arith) (omega arith)

mmap_buffer_read-over_end_example :
    mmap_buffer_read 2 4096 ring 3 header_at_end ≡ (err out_of_bounds, header_at_end)
mmap_buffer_read-over_end_example =
    mmap_buffer_read-over_end 2 4096 3 ring header_at_end refl (omega arith) (omega arith)
      (omega arith) (omega arith)
