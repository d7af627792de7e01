-- ===== src/Replacer/Lru.antt =====
-- src/replacer/lru_replacer.h and lru_replacer.cpp: the LRU replacer. The mutex is held for the
-- whole of each call.
mod Nodes
pub mod Laws
pub use Nodes.{Node, erase_node, pop_back}
use rmdb.Prelude.{ℕ, ◌+◌, Option, none, some, List, [], ◌∷◌, update, remove, nat_eq, length}

-- `lru_list` is LRUlist_, most recent frame first, and `lru_hash` is LRUhash_: an iterator is the
-- identity of the list node that it points at, and `next_node` is the identity of the next node.
pub record Lru : Type 0 where
  pub lru_list : List Node
  pub lru_hash : ℕ → Option ℕ
  pub next_node : ℕ
  pub max_size : ℕ

pub init : ℕ → Lru
init num_pages = record { lru_list = []; lru_hash = λ _. none; next_node = 0; max_size = num_pages }

unfoldable pub victim : Lru → Lru × Option ℕ
unfolding pop_back
victim s = elim (pop_back s.lru_list) [
  | none ↦ (s, none)
  | some (rest, node) ↦
      (record s { lru_list = rest; lru_hash = remove s.lru_hash node.frame }, some node.frame)
]

unfoldable pub pin : Lru → ℕ → Lru
unfolding erase_node
pin s frame_id = elim (s.lru_hash frame_id) [
  | none ↦ s
  | some iter ↦ record s {
    lru_list = erase_node iter s.lru_list;
    lru_hash = remove s.lru_hash frame_id;
  }
]

unfoldable pub unpin : Lru → ℕ → Lru
unpin s frame_id = elim (s.lru_hash frame_id) [
  | some iter ↦ s
  | none ↦ record s {
    lru_list = record { id = s.next_node; frame = frame_id } ∷ s.lru_list;
    lru_hash = update s.lru_hash frame_id s.next_node;
    next_node = s.next_node + 1;
  }
]

unfoldable pub size : Lru → ℕ
size s = length s.lru_list
