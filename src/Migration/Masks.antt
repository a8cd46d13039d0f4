-- ===== src/Migration/Masks.antt =====
-- The masks that the kernel is given are the sets that have been recorded.
use libvsf.Prelude.{
  ℕ, zero, suc, ◌≤◌, ◌<◌, ◌≡◌, refl, ap, ◌∙◌, Bool, true, false, ◌||◌, some, List, [], ◌∷◌, arith,
  get_elem?, length, length-set, set, replicate, All, ◌==◌, map_option,
}
use libvsf.Prelude.Exec.{ok, err, out_of_bounds}
use libvsf.Container.Order.{nat_less, nat-IsOrder, same_iff}
use libvsf.Container.Map.{Map}
use libvsf.Container.Set.{Set, member}
use libvsf.Migration.{CpuMig, Mask, cpu_alloc_bits, cpu_set, set_all, affinities, exec_cpu_mig}

get_elem?-set :
    (xs : Mask) (i j : ℕ)
    → get_elem? (set xs i true) j ≡ map_option (λ b. (i == j) || b) (get_elem? xs j)
get_elem?-set [] i j = refl
get_elem?-set (x ∷ xs) zero zero = refl
get_elem?-set (x ∷ xs) zero (suc j) = ground arith
get_elem?-set (x ∷ xs) (suc i) zero = ground arith
get_elem?-set (x ∷ xs) (suc i) (suc j) = ground (arith, get_elem?-set xs i j)

length-replicate : (n : ℕ) (b : Bool) → length (replicate n b) ≡ n
length-replicate zero b = refl
length-replicate (suc n) b = ap suc (length-replicate n b)

get_elem?-replicate : (n j : ℕ) → j < n → get_elem? (replicate n false) j ≡ some false
get_elem?-replicate zero j h = ground (arith, h)
get_elem?-replicate (suc n) zero h = refl
get_elem?-replicate (suc n) (suc j) h = get_elem?-replicate n j (omega (arith, h))

cpu_set-ok :
    (i : ℕ) (mask : Mask)
    → i < length mask
    → length mask ≤ 1024
    → cpu_set i mask ≡ ok (set mask i true)
unfolding cpu_set
cpu_set-ok i mask h k = ground arith

-- Setting known bits goes well, keeps the length, and adds them.
set_all-ok :
    (ids : List ℕ) (mask : Mask)
    → All (λ i. i < length mask) ids
    → length mask ≤ 1024
    → (m : Mask) × (set_all ids mask ≡ ok m)
      × (length m ≡ length mask)
      × ((j : ℕ) → get_elem? m j ≡ map_option (λ b. member j ids || b) (get_elem? mask j))
unfolding set_all member
set_all-ok [] mask h k = (mask, refl, refl, λ j. ground arith)
set_all-ok (i ∷ ids) mask h k =
    let (m, done, size, bits) =
      set_all-ok ids (set mask i true) (rw (length-set mask i true) h.1)
        (rw (length-set mask i true) k) in
    (
      m,
      rw (cpu_set-ok i mask h.0 k, set_all) done,
      size ∙ length-set mask i true,
      λ j. ground (arith, bits j, get_elem?-set mask i j, same_iff nat-IsOrder j i),
    )

-- The calls are one for each thread, and each mask has exactly the bits of the thread's set.
abbrev pub Sends : ℕ → Map ℕ (Set ℕ) → List (ℕ × Mask) → Type 0
Sends bits [] [] = Unit
Sends bits [] (c ∷ calls) = false ≡ true
Sends bits (e ∷ m) [] = false ≡ true
Sends bits ((pid, ids) ∷ m) ((p, mask) ∷ calls) =
    (p ≡ pid)
    × (length mask ≡ bits)
    × ((j : ℕ) → j < bits → get_elem? mask j ≡ some (member j ids))
    × Sends bits m calls

affinities-ok :
    (bits : ℕ) (m : Map ℕ (Set ℕ))
    → bits ≤ 1024
    → All (λ e. All (λ i. i < bits) e.1) m
    → (calls : List (ℕ × Mask)) × (affinities bits m ≡ ok calls) × Sends bits m calls
unfolding affinities
affinities-ok bits [] k h = ([], refl, tt)
affinities-ok bits ((pid, ids) ∷ m) k h =
    let size = length-replicate bits false in
    let (mask, done, same_size, set_bits) =
      set_all-ok ids (replicate bits false) (rw size h.0) (rw size k) in
    let (calls, all_done, sent) = affinities-ok bits m k h.1 in
    (
      (pid, mask) ∷ calls,
      rw (done, all_done, affinities) refl,
      (
        refl,
        same_size ∙ size,
        λ j lt. ground (arith, set_bits j, get_elem?-replicate bits j lt),
        sent,
      ),
    )

-- Where every recorded processor has a bit, memory is allocated and no more than 1024 bits are, the
-- execution goes well: it asks for exactly the recorded sets, once for each thread, and forgets them.
pub exec_cpu_mig-Sends :
    (s : CpuMig)
    → cpu_alloc_bits s.cpu_num ≤ 1024
    → All (λ e. All (λ i. i < cpu_alloc_bits s.cpu_num) e.1) s.cpu_migs
    → (calls : List (ℕ × Mask)) × (exec_cpu_mig true s ≡ (ok calls, record s { cpu_migs = [] }))
      × Sends (cpu_alloc_bits s.cpu_num) s.cpu_migs calls
unfolding exec_cpu_mig
exec_cpu_mig-Sends s k h =
    let (calls, done, sent) = affinities-ok (cpu_alloc_bits s.cpu_num) s.cpu_migs k h in
    (calls, rw (done, exec_cpu_mig) refl, sent)

-- But a processor below 1024 that has no bit is written out of the mask.
pub cpu_set-out_of_bounds :
    (n pid i : ℕ)
    → cpu_alloc_bits n ≤ i
    → i < 1024
    → (exec_cpu_mig true (record { cpu_migs = (pid, i ∷ []) ∷ []; cpu_num = n })).0
      ≡ err out_of_bounds
unfolding exec_cpu_mig affinities set_all cpu_set
cpu_set-out_of_bounds n pid i h k = ground (arith, length-replicate (cpu_alloc_bits n) false)
