-- ===== src/Host/NodeCpu/Tests.antt =====
-- `NodeCpu` on the files of small hosts.
use libvsf.Prelude.{◌≡◌, refl, false, some, [], ◌∷◌}
use libvsf.Prelude.Int.{pos, ◌+ℤ◌, ◌-ℤ◌}
use libvsf.Prelude.Exec.{err, invalid_argument}
use libvsf.Container.Order.{same}
use libvsf.Container.Map.{find, put}
use libvsf.Container.Set.{includes, insert}
use libvsf.Utils.StrTools.{
  Text, get_dirs, filter_of, after_prefix, digits_to_end, first_kept, last_kept,
  prefix_and_digits_node, prefix_and_digits_vcpu, split, split_from, strip,
}
use libvsf.Utils.Numbers.{stoi_signed, skip_space, stoi, digits_from}
use libvsf.Host.NodeCpu.{
  int_less, core_lt, NodeCpu, Files, CoreId, clear, insert_at, add_range, dash_at, add_piece,
  add_cpulist, read_node, read_nodes, node_dirs, refresh_node_hpthread, number_of, read_field,
  read_line, add_line, add_lines, refresh_socket_core_hpthread, relate_one, relate, refresh_others,
  read_all, refresh, processor, physical_id, core_id_word,
}

abbrev empty : NodeCpu
empty = record {
  node_socket = [];
  node_core = [];
  node_hpthread = [];
  socket_core = [];
  socket_hpthread = [];
  core_hpthread = [];
  hpthread = [];
  has_data = false;
}

-- The end of a line, a colon, a space and "0".
abbrev is_0 : Text → Text
is_0 [] = 58 ∷ 32 ∷ 48 ∷ []
is_0 (c ∷ cs) = c ∷ is_0 cs

-- One node with the threads 0-1, and one thread.
abbrev small : Files
small = record {
  scandir = λ dir accepts. some ((110 ∷ 111 ∷ 100 ∷ 101 ∷ 48 ∷ []) ∷ []);
  cpulist = λ dir. some (48 ∷ 45 ∷ 49 ∷ []);
  cpuinfo = some (is_0 processor ∷ is_0 physical_id ∷ is_0 core_id_word ∷ [] ∷ []);
}

sockets_small : find (pos 0) (refresh small [] (clear empty)).1.node_socket ≡ some (pos 0 ∷ [])
unfolding refresh clear read_all refresh_node_hpthread node_dirs get_dirs filter_of read_nodes
    read_node stoi_signed skip_space stoi add_cpulist add_piece dash_at refresh_socket_core_hpthread
    add_lines add_line find put same includes insert add_range core_lt insert_at number_of
    read_field read_line refresh_others relate relate_one ◌+ℤ◌ ◌-ℤ◌ digits_from after_prefix
    digits_to_end first_kept last_kept prefix_and_digits_node prefix_and_digits_vcpu split
    split_from strip
sockets_small = refl

-- "0-3,8,10-12": the piece that begins with 8 goes on to the second dash, after which there is no
-- number.
cpulist_with_single :
    (add_cpulist
      (pos 0)
      (48 ∷ 45 ∷ 51 ∷ 44 ∷ 56 ∷ 44 ∷ 49 ∷ 48 ∷ 45 ∷ 49 ∷ 50 ∷ [])
      (48 ∷ 45 ∷ 51 ∷ 44 ∷ 56 ∷ 44 ∷ 49 ∷ 48 ∷ 45 ∷ 49 ∷ 50 ∷ [])
      0
      0
      empty).0
    ≡ err invalid_argument
unfolding add_cpulist add_piece dash_at stoi_signed skip_space stoi
cpulist_with_single = refl

abbrev core_0 : CoreId
core_0 = record { socket_id = pos 0; core_id = pos 0 }
