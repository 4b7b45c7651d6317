-- ===== src/Util.antt =====
-- The containers of src/util.
pub mod Heap
pub mod Glist
pub mod HashTable
pub mod BlkArray
pub mod PriorityQueue
pub mod Case
pub mod Bitarr
pub mod Bitvec
