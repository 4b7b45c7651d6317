-- ===== src/Lib.antt =====
-- Verified models of parts of PocketSphinx, a speech recogniser in C.
--
-- The parts, each with the file it models:
--   Util.Heap            src/util/heap.c: a binary heap whose nodes count their descendants.
--   Util.Glist           src/util/glist.c: generic linked lists.
--   Util.HashTable       src/util/hash_table.c, src/util/hash_table.h: string keys, with chaining.
--   Util.Case            src/util/case.c, src/util/case.h: letter case of strings.
--   Util.BlkArray        src/util/blkarray_list.c: an array in blocks, whose elements have ids.
--   Util.PriorityQueue   src/util/priority_queue.c: a bounded set with its best element at hand.
--   Util.Bitarr          src/lm/bitarr.c, src/lm/bitarr.h: fields of bits in an array of bytes, for the
--                        tries of the language models.
--   Endpointer           src/ps_endpointer.c and what it calls of src/ps_vad.c: where speech starts
--                        and ends in a stream of frames.
--   Util.Bitvec          src/util/bitvec.c, src/util/bitvec.h: vectors of bits.
--   Acmod                the part of src/acmod.c that flags senones for scoring in a Util.Bitvec, lists
--                        the flagged ones and finds the best score.
--   Kws                  src/kws_detections.c: the detections of key phrases.
--   Kws.Search           src/kws_search.c: the key phrase search. Its frame flags senones in an Acmod,
--                        steps every Hmm, prunes, and adds to the detections of Kws.
--   PhoneLoop            src/phone_loop_search.c: the loop of phones that looks ahead for the other
--                        searches, with its window of penalties.
--   Alignment            src/ps_alignment.c: alignments of words, phones and states with frames.
--   Fsg.History          src/fsg_history.c and the context sets of src/fsg_lextree.c: the Viterbi
--                        history of the grammar search. It keeps its entries in a Util.BlkArray.
--   Fsg.Model            src/lm/fsg_model.c, src/lm/fsg_model.h: a grammar as an automaton, its links
--                        kept in two Util.HashTable per state under the bytes of the target, and the
--                        closure of the null transitions.
--   Fsg.Vocab            src/lm/fsg_model.c: the words of a grammar, marked in two Util.Bitvec, and the
--                        silence words, whose transitions are added to an Fsg.Model.
--   Hmm                  src/hmm.c, src/hmm.h: hidden Markov models of up to 5 states and one Viterbi
--                        step on them.
-- Base holds the numbers, lists and Boolean tests that they share, Tests the runs.
--
-- A function of the source is a function on states of the same name; a result through a pointer is
-- part of a pair, and an error or NULL is `none`. The expansion of an alignment tells an error from
-- an assertion that fails. In Endpointer most names lose the prefix
-- `ps_endpointer_` or `ps_vad_`. A loop over a list is recursion on it. Allocation does not fail, and
-- freeing and reference counts are left out, as is printing.
--
-- Integers are unbounded but where the source relies on wrap-around: the hash is taken modulo 2 ^ 32,
-- chars are signed, but the case-insensitive hash reads them as unsigned. Scores, frames and
-- counters are assumed to stay within their types, which Hmm.Range shows for an HMM of 5 states. In
-- Fsg.Model this is an assumption on the grammar: the sum of two log probabilities that `extend_link`
-- forms is an int32 in the source, so the weights along a chain of null transitions must not add up
-- below its range.
--
-- Fuel: `heap_drain` takes the number of pops allowed, and one more than the number of entries is
-- enough; `drain_speech` takes one more than the number of queued frames, and that is enough; the
-- walk of an iterator takes more than the number of entries; `close` takes the sweeps of the closure of
-- null transitions, and some number of them is enough; `count_bits` has 32 steps for a uint32;
-- `put_delta` takes the difference that is to be written.
--
-- Parameters: `double` and its arithmetic (also the weight of the phone loop's penalties and the log
-- probability of a silence), the voice activity detector of src/common_audio (another project's
-- code), the client's timestamp callback, the comparison of a priority queue and `strcmp`. The tables
-- of the dictionary and the acoustic model are functions. The scores of a frame, which come from
-- floating point code through a function pointer, are an argument.
--
-- Not modelled: the acoustic front end and scoring, the searches other than those for key phrases and
-- phones, the language models but for their bit arrays, the lattice, the dictionaries, the
-- configuration, and file access. They are either numerical code over floating point, I/O, or built on
-- parts that come first.
pub mod Base
pub mod Util
pub mod Endpointer
pub mod Kws
pub mod Fsg
pub mod Hmm
pub mod Acmod
pub mod PhoneLoop
pub mod Alignment
mod Tests
