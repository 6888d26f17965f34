-- ===== src/Lib.antt =====
-- dstreamon: a verification of the core of the stream processing system.
--
-- The program moves messages through a graph of blocks. A block has named input and output gates;
-- a composition links gates; an active block is a task of a thread pool, which runs it over and
-- over; each run drains its queues and calls its code. The paths below start from d-streamon/ in the
-- repository.
--
-- * DbQueue (core/block/DBQueue.hpp): the queue of an input gate, two arrays that take turns. The
--   record DbQueue has the fields of the class; push, pop, consume, swap_queues and reset are its
--   methods. DbQueue.Refine gives the abstract queue, two batches of messages.
-- * MsgQueue (core/block/MpMcQueue.hpp): a locked queue of addresses.
-- * Gates (core/block/InGate.hpp, InGate.cpp, OutGate.hpp): the gates of all blocks on a heap, with
--   both ends of each link.
-- * Blocks (core/block/Block.hpp, Block.cpp, BlockVariable.hpp): the base class of the blocks. What
--   the code of a derived class does is an event in a trace.
-- * Scheduler (core/scheduler/Scheduler.hpp, schedulers/DumbScheduler.hpp,
--   schedulers/RRScheduler.hpp): the interface of a scheduling policy with its laws, and the two
--   policies. The queue of the round-robin policy is third-party code, a record of operations and
--   laws (Scheduler.SharedQueue).
-- * ThreadPool (core/scheduler/ThreadPool.hpp, ThreadHandler.hpp): pools over any policy. The loops
--   of the threads are a step relation (ThreadPool.Threads); stop takes the scheduler that they have
--   left when they are joined.
-- * PoolManager (core/scheduler/PoolManager.hpp): pools by name.
-- * Composition (core/composition/Composition.hpp, Composition.cpp): blocks by name, links, and the
--   installation of a configuration. The factory of blocks and the virtual method that configures a
--   block are parameters.
-- * Compositions (core/composition/CompositionManager.hpp, daemon/backend_glue.cpp): compositions by
--   name, configurations from files, and the entry points that the daemon calls.
-- * Timers (core/scheduler/Timer.hpp, TimerThread.hpp): timers and one round of the thread that fires
--   them. The heap is the list of its timers by time; the clock, and the timers that are scheduled
--   while others are handled, are parameters.
-- * Cbf (lib/lib_botstream/cbf.cpp): the counting Bloom filter. BloomFilter
--   (lib/lib_botstream/bloomfilter.cpp, swapbf.cpp): the Bloom filter, and the pair of filters that
--   takes turns. Log2 has the size test that both use.
-- * Khash (lib/hash/khash.cpp): hash values cut out of the digests of a key, whose function is a
--   parameter. The array of digests goes from call to call (Khash.Digests): where one digest is not
--   enough, the values of a long key depend on the calls before, so that the two theorems on runs of
--   calls, for Cbf and for the pair of filters, are about filters for which one digest is enough.
-- * DLeft (lib/streamon/DLeft.cpp): a hash table of several tables, with the cursor HashSplitter
--   (lib/streamon/HashSplitter.hpp) and the fingerprint DLeft.Fnv. DLeft.Places relates its searches
--   to the list of fingerprints that a key sees at its places.
-- * MultiHash (lib/bloom/khash.cpp) and Bloom (lib/bloom/bloom.cpp): hash values without repetition,
--   and a Bloom filter on an array of bytes that can be serialized. BitFields has the numbers that
--   words stand for and the fields of their bits, which both hashing modules use.
-- * Buffers (lib/streamon/IBuffer.hpp, Buffer.cpp, HashedBuffer.cpp, ReadBuffer.hpp,
--   HashedReadBuffer.hpp): byte buffers with a hash that is kept. Buffers.Keys uses them as the keys
--   of a DLeft table.
-- * MemoryBatch (core/message/MemoryBatch.hpp): the memory that messages are built in. DLeft.Counter
--   (lib/streamon/DLeftCounter.cpp): counters in a DLeft table.
-- * AcHash31 (lib/hash/ACHash31.cpp): a hash of numbers and bytes, and an authentication code.
-- Base has the shared names, Boolean tests, lists over native numbers and results; Assoc is a
-- std::map with string keys, in the order of its keys. The Tests modules apply the theorems to
-- concrete inputs.
--
-- Exceptions are values: a method returns ok or err, beside the state it leaves where that matters.
-- Pointers are numbers, and messages are addresses, 0 the null pointer. Calls on one object do not
-- overlap, except the threads of a pool, and the timers that are scheduled during a round of the
-- timer thread. Unsigned integers wrap at 2 ^ 32 where the code lets them.
--
-- Bounds and fuel: a DbQueue has between 1 and 2 ^ 30 - 1 slots, so that the bits of its pointer do
-- not meet; the gates use 1024. The loop over the timers of a block has the length of the queue and
-- one more as its fuel, which empties the queue; a round of the timer thread has the size of the
-- heap, since no timer is due twice in it; log2 has the 32 bits of its number.
-- The reserve of a DLeft table needs two rounds, since a new table has every place free; the split of
-- a digest of 192 bits moves on by a bit at least, so that 193 rounds are enough; the rounds of
-- compute are an argument, and where values may be repeated one more than the values are enough.
-- Other loops recurse on what they count.
--
-- Not modelled: concurrent producers of one DbQueue, moves of queues and gates, mutexes, logging,
-- XML parsing, sockets, printing, arithmetic on doubles, the Python binding, and the blocks and
-- messages of the applications.
pub mod Base
pub mod Assoc
pub mod DbQueue
pub mod MsgQueue
pub mod Gates
pub mod Blocks
pub mod Scheduler
pub mod ThreadPool
pub mod PoolManager
pub mod Composition
pub mod Compositions
pub mod Timers
pub mod Khash
pub mod Log2
pub mod Cbf
pub mod BloomFilter
pub mod Buffers
pub mod MemoryBatch
pub mod AcHash31
pub mod BitFields
pub mod HashSplitter
pub mod DLeft
pub mod MultiHash
pub mod Bloom
