-- ===== src/Host/NodeCpu/Topology.antt =====
-- What the maps between nodes, sockets and cores say (`NodeCpu::refresh_others`), and how long the data
-- is kept.
use libvsf.Prelude.{◌≡◌, refl, Bool, false, ◌&&◌, ◌||◌, [], ◌∷◌, arith, if◌then◌else◌}
use libvsf.Container.Order.{Less, IsOrder, same, same_iff}
use libvsf.Container.Map.{Map, index, find-put}
use libvsf.Container.Set.{Set, member, insert, includes, subset, IsSorted}
use libvsf.Container.Set.Laws.{member-insert, includes-subset}
use libvsf.Host.NodeCpu.{
  NodeId, SocketId, HpthreadId, CoreId, int_less, core_lt, core_less, NodeCpu, insert_at,
  relate_one, relate, refresh_others,
}

pub int-IsOrder : IsOrder int_less
int-IsOrder = record {
  irrefl = λ a. ground arith;
  trans = λ a b c h k. ground arith;
  connected = λ a b h k. ground arith;
}

pub core-IsOrder : IsOrder core_less
unfolding core_lt
core-IsOrder = record {
  irrefl = λ a. ground arith;
  trans = λ a b c h k. ground arith;
  connected = λ a b h k. ground arith;
}

-- Every set of the map is in order.
abbrev pub AllSorted {ℓ} : {A : Type ℓ} → Map A (Set HpthreadId) → Type 0
AllSorted [] = Unit
AllSorted ((a, s) ∷ m) = IsSorted s × AllSorted m

-- Whether `a` has an entry that all threads of `hs` are in.
abbrev pub holds {ℓ} :
    {A : Type ℓ} ⦃o : Less A⦄ → A → Set HpthreadId → Map A (Set HpthreadId) → Bool
holds a hs [] = false
holds a hs ((i, gs) ∷ wholes) = (same a i && subset hs gs) || holds a hs wholes

-- Whether `b` has an entry all of whose threads are in one of `a`.
abbrev pub part_of {ℓ κ} :
    {A : Type ℓ} {B : Type κ} ⦃o : Less A⦄ ⦃p : Less B⦄
    → B
    → A
    → Map B (Set HpthreadId)
    → Map A (Set HpthreadId)
    → Bool
part_of b a [] wholes = false
part_of b a ((j, hs) ∷ parts) wholes = (same b j && holds a hs wholes) || part_of b a parts wholes

module _ {ℓ κ} {A : Type ℓ} {B : Type κ} ⦃o : Less A⦄ ⦃p : Less B⦄ where
  module _ (laws_a : IsOrder o) (laws_b : IsOrder p) where
    member-insert_at :
        (a i : A) (b j : B) (m : Map A (Set B))
        → member b (index a [] (insert_at i j m))
          ≡ ((same a i && same b j) || member b (index a [] m))
    unfolding insert_at
    member-insert_at a i b j m = ground (
      arith,
      find-put laws_a i a (insert j (index i [] m)) m,
      member-insert laws_b j b (index i [] m),
      same_iff laws_a a i,
      same_iff laws_a i a,
    )

    member-relate_one :
        (a : A) (b j : B) (hs : Set HpthreadId) (wholes : Map A (Set HpthreadId))
        (m : Map A (Set B))
        → IsSorted hs
        → AllSorted wholes
        → member b (index a [] (relate_one j hs wholes m))
          ≡ ((same b j && holds a hs wholes) || member b (index a [] m))
    unfolding relate_one
    member-relate_one a b j hs [] m q r = ground arith
    member-relate_one a b j hs ((i, gs) ∷ wholes) m q r = ground (
      arith,
      member-relate_one a b j hs wholes (if includes gs hs then insert_at i j m else m) q r.1,
      member-insert_at a i b j m,
      includes-subset int-IsOrder gs hs r.0 q,
    )

    member-relate :
        (a : A) (b : B) (parts : Map B (Set HpthreadId)) (wholes : Map A (Set HpthreadId))
        (m : Map A (Set B))
        → AllSorted parts
        → AllSorted wholes
        → member b (index a [] (relate parts wholes m))
          ≡ (part_of b a parts wholes || member b (index a [] m))
    unfolding relate
    member-relate a b [] wholes m q r = refl
    member-relate a b ((j, hs) ∷ parts) wholes m q r = ground (
      arith,
      member-relate a b parts wholes (relate_one j hs wholes m) q.1 r,
      member-relate_one a b j hs wholes m q.0 r,
    )

-- After the files have been read, a socket is one of a node exactly if it was, or all its hardware
-- threads are the node's; so it is with the cores of a node, and with those of a socket. All sets of
-- threads are in order.
pub refresh_others_lem :
    (s : NodeCpu) (n : NodeId) (i : SocketId) (c : CoreId)
    → AllSorted s.node_hpthread
    → AllSorted s.socket_hpthread
    → AllSorted s.core_hpthread
    → let s' = refresh_others s in
      (member i (index n [] s'.node_socket)
        ≡ (part_of i n s.socket_hpthread s.node_hpthread || member i (index n [] s.node_socket)))
      × (member c (index n [] s'.node_core)
          ≡ (part_of c n s.core_hpthread s.node_hpthread || member c (index n [] s.node_core)))
      × (member c (index i [] s'.socket_core)
          ≡ (part_of c i s.core_hpthread s.socket_hpthread || member c (index i [] s.socket_core)))
unfolding refresh_others
refresh_others_lem s n i c q r t = (
  member-relate int-IsOrder int-IsOrder n i s.socket_hpthread s.node_hpthread s.node_socket r q,
  member-relate int-IsOrder core-IsOrder n c s.core_hpthread s.node_hpthread s.node_core t q,
  member-relate int-IsOrder core-IsOrder i c s.core_hpthread s.socket_hpthread s.socket_core t r,
)
