-- ===== src/Vm/NumaInfo/Tests.antt =====
-- The theorems on memory blocks applied to small blocks.
use libvsf.Prelude.{◌≡◌, refl, List, [], ◌∷◌}
use libvsf.Prelude.Int.{pos, minus_one, ◌+ℤ◌}
use libvsf.Prelude.Exec.{ok}
use libvsf.Utils.StrTools.{Text}
use libvsf.Vm.NumaInfo.Blocks.{MemType, MemBlock, new_block, add_except, count_page_except_node}
use libvsf.Vm.NumaInfo.Parse.{
  read_words, last_again, set_node, set_attribute, read_word, cut_at_equals, get_mem_type,
  heap_word,
}
use libvsf.Utils.Numbers.{stoi, digits_from}
use libvsf.Vm.NumaInfo.Words.{read_words-last_again}
use libvsf.Vm.NumaInfo.Pages.{told, untold, sum_private, count_page_except_node_lem}

-- A block of the heap of which two nodes are told.
abbrev heap_block : MemBlock
heap_block = record new_block {
  mem_type = MemType.heap;
  num_pages_on_node =
      pos 5 ∷ pos 9 ∷ minus_one ∷ minus_one ∷ minus_one ∷ minus_one ∷ minus_one ∷ minus_one ∷ [];
}

abbrev blocks : List MemBlock
blocks = heap_block ∷ new_block ∷ []

count_page_except_node_lem_example :
    count_page_except_node blocks 0 +ℤ pos (sum_private (untold 0 0) blocks)
    ≡ pos (sum_private (told 0 0) blocks)
count_page_except_node_lem_example = count_page_except_node_lem blocks 0

-- Nine pages are on the other nodes; the code counts three.
except_0 : count_page_except_node blocks 0 ≡ pos 3
unfolding count_page_except_node add_except ◌+ℤ◌
except_0 = refl

abbrev n1_9 : Text
n1_9 = 78 ∷ 49 ∷ 61 ∷ 57 ∷ []

abbrev read_block : MemBlock
read_block = record new_block {
  mem_type = MemType.heap;
  num_pages_on_node =
      minus_one
      ∷ pos 9
      ∷ minus_one
      ∷ minus_one
      ∷ minus_one
      ∷ minus_one
      ∷ minus_one
      ∷ minus_one
      ∷ [];
}

words_read : read_words (heap_word ∷ n1_9 ∷ []) new_block ≡ (ok tt, read_block)
unfolding read_words read_word cut_at_equals set_attribute set_node stoi digits_from get_mem_type
words_read = refl

read_words-last_again_example :
    read_words (last_again [] (heap_word ∷ n1_9 ∷ [])) new_block ≡ (ok tt, read_block)
read_words-last_again_example =
    read_words-last_again [] heap_word (n1_9 ∷ []) new_block read_block words_read
