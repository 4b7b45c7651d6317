-- ===== src/Tests.antt =====
-- Runs of the models, and the theorems applied to them.
mod Heap
mod HashTable
mod Glist
mod BlkArray
mod Endpointer
mod Fsg
mod Kws
mod Case
mod PriorityQueue
mod Hmm
mod FsgModel
mod Bitarr
mod Acmod
mod KwsSearch
mod PhoneLoop
mod FsgVocab
mod Alignment
