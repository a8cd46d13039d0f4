-- ===== src/Utils/PerfEvent/Ring.antt =====
-- When a read of the ring gives the bytes that the kernel has written, and how far a skip goes.
use native.Mathlib.Nat.{one-le-pow, mod-add-mod, mod-eq_of_lt, mod-lt}
use libvsf.Prelude.{
  ℕ, zero, suc, ◌+◌, ◌-◌, ◌%◌, ◌^◌, ◌≤◌, ◌<◌, ◌≡◌, refl, sym, ap, ◌∙◌, some, List, [], ◌∷◌, arith,
  leb, if◌then◌else◌, length, get_elem?, take, drop,
}
use libvsf.Prelude.Int.{pos}
use libvsf.Prelude.Word.{u32, u64, sub64}
use libvsf.Prelude.Exec.{ok, err, out_of_bounds}
use libvsf.Utils.PerfEvent.{MmapPage, mmap_buffer_read, mmap_buffer_skip}

module _ {ℓ} {A : Type ℓ} where
  get_elem?-take : (n i : ℕ) (xs : List A) → i < n → get_elem? (take n xs) i ≡ get_elem? xs i
  get_elem?-take zero i xs h = elim h [ ]
  get_elem?-take (suc n) i [] h = refl
  get_elem?-take (suc n) zero (x ∷ xs) h = refl
  get_elem?-take (suc n) (suc i) (x ∷ xs) h = get_elem?-take n i xs (omega arith)

  get_elem?-drop : (n i : ℕ) (xs : List A) → get_elem? (drop n xs) i ≡ get_elem? xs (n + i)
  get_elem?-drop zero i xs = ap (get_elem? xs) (omega arith)
  get_elem?-drop (suc n) i [] = refl
  get_elem?-drop (suc n) i (x ∷ xs) =
      let e : suc n + i ≡ suc (n + i) = omega arith in rw e (get_elem?-drop n i xs)

mod-add_small : (a i n : ℕ) → 0 < n → a % n + i < n → (a + i) % n ≡ a % n + i
mod-add_small a i n p h = sym (mod-add-mod a n i) ∙ mod-eq_of_lt h

module _ (k page_size size : ℕ) (ring : List ℕ) (header : MmapPage) where
  -- Where the first copy would end: at the end of the mapping, not of the ring.
  ncopies-eq :
      header.data_tail % 2 ^ k < 2 ^ k
      → 2 ^ k + page_size < 2 ^ 32
      → sub64 (u32 (2 ^ k + page_size)) (header.data_tail % 2 ^ k)
        ≡ 2 ^ k + page_size - header.data_tail % 2 ^ k
  ncopies-eq h small = omega arith

  -- A read gives the bytes from the tail on, each at its place in the ring, and moves the tail behind
  -- them, as long as they do not go over the end of the ring. The kernel has written that many, and the
  -- mapping is smaller than 2 ^ 32 bytes.
  pub mmap_buffer_read-bytes :
      length ring ≡ 2 ^ k
      → 2 ^ k + page_size < 2 ^ 32
      → size ≤ sub64 header.data_head header.data_tail
      → header.data_tail % 2 ^ k + size ≤ 2 ^ k
      → (buf : List ℕ) × (mmap_buffer_read k page_size ring size header
          ≡ (ok (some buf), record header { data_tail = u64 (header.data_tail + size) }))
        × ((i : ℕ) → i < size → get_elem? buf i ≡ get_elem? ring ((header.data_tail + i) % 2 ^ k))
  unfolding mmap_buffer_read
  mmap_buffer_read-bytes e small written fits =
      let start = header.data_tail % 2 ^ k in
      let inside : start < 2 ^ k = mod-lt header.data_tail (one-le-pow k 2 (omega arith)) in
      (
        take size (drop start ring),
        ground (arith, ncopies-eq inside small),
        λ i h.
            get_elem?-take size i (drop start ring) h
            ∙ get_elem?-drop start i ring
            ∙ ap (get_elem? ring) (
                sym (
                  mod-add_small header.data_tail i (2 ^ k) (one-le-pow k 2 (omega arith))
                    (omega arith))),
      )

  -- A read of bytes that the kernel has written and that go over the end of the ring runs out of the
  -- mapping, if that is smaller than 2 ^ 32 bytes: its end is taken for that of the ring, although it
  -- counts the header's page too.
  pub mmap_buffer_read-over_end :
      length ring ≡ 2 ^ k
      → 2 ^ k + page_size < 2 ^ 32
      → 0 < page_size
      → size ≤ sub64 header.data_head header.data_tail
      → 2 ^ k < header.data_tail % 2 ^ k + size
      → mmap_buffer_read k page_size ring size header ≡ (err out_of_bounds, header)
  unfolding mmap_buffer_read
  mmap_buffer_read-over_end e small page written over =
      ground (arith, ncopies-eq (mod-lt header.data_tail (one-le-pow k 2 (omega arith))) small)

-- A skip moves the tail by `size`, but never over the head, if both fit.
pub mmap_buffer_skip_lem :
    (size : ℕ) (header : MmapPage)
    → size < 2 ^ 31
    → header.data_tail ≤ header.data_head
    → header.data_head + size < 2 ^ 64
    → (mmap_buffer_skip (pos size) header).data_tail ≡ (
        if leb (header.data_tail + size) header.data_head
        then header.data_tail + size
        else header.data_head)
unfolding mmap_buffer_skip
mmap_buffer_skip_lem size header small le fits = ground arith
