-- ===== src/Host/NodeSize/Tests.antt =====
-- The theorem on the sizes applied to one node.
use libvsf.Prelude.{ℕ, Option, some, List, [], ◌∷◌, drop}
use libvsf.Utils.StrTools.{Text}
use libvsf.Host.NodeSize.{NodeData, mem_total, mem_free}
use libvsf.Host.NodeSize.Meminfo.{Entry, text_of}

-- "N MemTotal: 4096 k", and behind it "M MemFree: 2048 k"
abbrev total_entry : Entry
total_entry = record {
  pre = b'N' ∷ 32 ∷ [];
  gap = 32 ∷ [];
  digits = b'4' ∷ b'0' ∷ b'9' ∷ b'6' ∷ [];
}

abbrev free_entry : Entry
free_entry = record {
  pre = 32 ∷ b'k' ∷ 32 ∷ b'M' ∷ 32 ∷ [];
  gap = 32 ∷ [];
  digits = b'2' ∷ b'0' ∷ b'4' ∷ b'8' ∷ [];
}

abbrev after_free : Text
after_free = b'k' ∷ []

abbrev after_total : Text
after_total = drop 1 (text_of mem_free free_entry after_free)

abbrev meminfo : ℕ → Option Text
meminfo id = some (text_of mem_total total_entry after_total)

abbrev size : ℕ → ℕ × ℕ
size id = (4096, 2048)

abbrev node_0 : NodeData
node_0 = record { node_id = 0; mbs_total = 0; mbs_free = 0 }

-- "node0"
abbrev names : List Text
names = (b'n' ∷ b'o' ∷ b'd' ∷ b'e' ∷ b'0' ∷ []) ∷ []
