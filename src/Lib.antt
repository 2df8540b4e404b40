-- ===== src/Lib.antt =====
-- YaNFD, a forwarder for Named Data Networking: its tables, its forwarding threads and its codec.
--
-- A face hands packets to a forwarding thread (fw/thread.go). An Interest is looked up in the Dead
-- Nonce List and entered in the thread's PIT-CS table; the Content Store answers it, or a strategy
-- (fw/bestroute.go, fw/multicast.go) sends it on along next hops of the FIB. Data satisfies PIT
-- entries and goes down along their in-records. The routes of the RIB (table/rib.go) become the next
-- hops of the FIB. A link service (face/ndnlp-link-service.go) stands between a thread and a
-- transport: it cuts packets into frames and puts frames together. The FIB and the strategy choices
-- are one table with two implementations (table/fib-strategy-tree.go,
-- table/fib-strategy-hashtable.go).
--
-- Files and the code that they model:
--   Prelude, Prelude/*: names of the libraries, lists and tests on native numbers, Go maps as
--     association lists (Assoc), logs that grow at their end (Logs).
--   Name: equality and prefixes of names, over any type of components with decidable equality.
--   Tlv/Errors, Tlv/VarNum: ndn/tlv/errors.go and ndn/tlv/helpers.go; Tlv/VarNum/RoundTrip.
--   Tlv/Block: NewBlock, SetValue, Wire and DecodeBlock of ndn/tlv/block.go, for blocks whose value is not
--     parsed into subelements; Tlv/Block/Wire. Tlv/NniBlock: the blocks of helpers.go.
--   Tlv/Subelements: the operations of block.go on subelements; Tlv/Subelements/Erasure.
--   Fib/Hops: table/fib-strategy.go and the loops on next hops. Fib/Spec: longest-prefix match.
--   Fib/Tree: table/fib-strategy-tree.go (findExactMatchEntryEnc, findLongestPrefixEntryEnc,
--     fillTreeToPrefixEnc, pruneIfEmpty, the operations). A node's parent is the place in the
--     tree where a function by recursion returns to. Its proofs are in Fib/Tree/*.
--   Fib/HashTable: table/fib-strategy-hashtable.go (findLongestPrefixMatchEnc, insertEntryEnc,
--     pruneTables, the operations). Maps are association lists. Its proofs are in Fib/HashTable/*.
--   Fib/Agreement, Fib/Equivalence: the same sequence of operations on both.
--   Packets: ndn/pending-packet.go, ndn/scope.go, ndn/link-type.go, dispatch/face.go, and the
--     fields of the codec package's Interest and Data that the threads read.
--   Pit: the entries of table/pit-cs.go with InsertInRecord, InsertOutRecord (table/pit-cs-tree.go)
--     and UpdateExpirationTimer; Pit/Records.
--   Fw/Tables: what a thread uses of other components, as records of operations and laws.
--   Fw/Thread: processOutgoingInterest, processOutgoingData, the strategies. Fw/Incoming:
--     processIncomingInterest, processIncomingData and finalizeInterest, cut in functions at the
--     places where the code decides. Fw/Interests, Admissions, Scopes, Satisfaction, Downstreams:
--     their proofs. Fw/Dispatch: HashNameToFwThread, HashNameToAllPrefixFwThreads, dispatch/fw.go
--     and the Data case of dispatchIncomingPacket in face/link-service.go.
--     Fw/Hints: the loop over a forwarding hint.
--   Heap: utils/heap/heap.go, which is adapted from Go's container/heap, on a list of items;
--     Heap/Arrays, Order, Up, Down, Fix, Rounds.
--     PriorityQueue: utils/priority_queue/priority-queue.go; PriorityQueue/Order.
--   DeadNonceList: table/dead-nonce-list.go; DeadNonceList/Known, DeadNonceList/Sweep.
--   PitCs: table/pit-cs-tree.go and the parts of table/pit-cs.go that are not in Pit. PitCs/Tree has the
--     nodes, PitCs/Interests the PIT and its queue of expiry times, PitCs/Content the Content Store;
--     their proofs are in PitCs/Tree/*, PitCs/Interests/* and PitCs/Content/*. The threads use the
--     table through the interface of Fw/Tables, not this model of it: where the code draws tokens for
--     ever the model has none.
--   Rib: table/rib.go on a FIB that is a parameter; Rib/Slots, Rib/Costs, Rib/Routes, Rib/Operations.
--   Lp: face/ndnlp-link-service.go. Lp/Frames has the options and the frames, Lp/Outgoing sendPacket
--     (prepare_frames, send_frames), Lp/Incoming processIncomingFrame (process_lp_packet) and
--     reassemblePacket. Lp/Fragments, Lp/Reassembly and Lp/Bypass have their proofs.
--   CsLru: table/cs-lru.go; CsLru/Recency, CsLru/Eviction.
--   NetworkRegion: table/network-region.go.
--   Fw/Small and the modules named Tests: concrete instances and runs.
--
-- How the code is read. A pointer to a PIT or Content Store entry is a number, with which the tables
-- read and write the entry; a pointer to a node of the PIT-CS tree is its path, and children are kept
-- by the hash of their component. SendPacket appends to the thread's list of what it has sent; what
-- a face does later is not modelled. Packets are values: the one packet whose fields a pipeline
-- changes and reads again, Data on its way to several downstreams, is returned by each function with
-- its changes; a packet that the PIT, the Content Store or a face's queue holds is the value at that
-- time. An element of the LRU queue is a number that is never used again. A loop over a Go map goes
-- through the association list in its order, and the statements hold for any. One time stands for
-- every call of time.Now in a run of a pipeline or of a search; loops that ask the clock each time
-- take its readings as a function. Random tokens are a list of draws. A panic of Go is none or a
-- value of its own (Tlv/Errors). Counters are numbers modulo 2^64. sort.Slice, hashes of names, the
-- FIB and the regions as a thread sees them are parameters; the laws that a statement needs of them
-- are its hypotheses, and the tests have instances for which they hold. What a statement needs of
-- the hashes of names it asks of names in use only.
--
-- Loops are structural recursions on a list, a tree or a length, but for four. EraseAll's has fuel for
-- one turn more than there are subelements to erase. The heap's up has as many rounds as the index of
-- the item, its down as many as the heap has items, past which no index leads. The sweep of the PIT
-- has as many rounds as its queue has items, of which each takes one. The sweep of the Dead Nonce
-- List ends after 100 in the code.
--
-- Not modelled: faces, their table and transports, management, configuration, the web interface, the
-- executor, names and packets of the older codec in ndn (ndn/name.go, ndn/lpv2), URIs, the goroutines,
-- channels and locks; of the link service the frames kept for reliability, which cannot be sent,
-- their retransmission and idle Acks; of the heap Init and Remove, which nothing calls. Lookups that only list the tables are left out too.
pub mod Prelude
pub mod Tlv
pub mod Name
pub mod Fib
pub mod Packets
pub mod Pit
pub mod Fw
pub mod CsLru
pub mod NetworkRegion
pub mod Heap
pub mod PriorityQueue
pub mod DeadNonceList
pub mod PitCs
pub mod Rib
pub mod Lp
