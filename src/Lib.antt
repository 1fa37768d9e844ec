-- ===== src/Lib.antt =====
-- A model of socle, the socket library: its memory pool, its buffer, and the components that stand
-- on them.
--
-- The memory pool (common/mempool/mempool.hpp and mempool.cpp) hands out chunks of ten fixed sizes
-- from buckets, and falls back to the heap. The class buffer (common/buffer.hpp and buffer.cpp)
-- keeps bytes in such chunks, or in memory from new[] where the pool is switched off, and the rest
-- of the library moves its data in buffers.
-- A host context (hostcx.hpp and hostcx.cpp) has a socket and a buffer for each direction; epoll
-- (common/epoll.hpp and epoll.cpp) waits for sockets and calls the handlers that are registered
-- for them; a proxy (baseproxy.hpp and baseproxy.cpp) is such a handler, and reads and writes the
-- contexts of its left and right side. UDPCom (udpcom.hpp and udpcom.cpp) is the Com under a
-- context for datagrams.
--
-- Files:
-- - Prelude: names of the libraries passed on, Boolean tests on numbers (Tests), lists by native
--   index (Lists), unsigned words that wrap (Words), integers (Int), maps by keys whose equality
--   can be decided (Dict).
-- - Memory: one byte for each address, a pointer is an address and nullptr is 0; memcpy, memset
--   and the ranges that they touch.
-- - MemPool: memPool. MemPool/Buckets has mem_chunk, memPool::Bucket and the heap; MemPool has
--   pick_bucket, acquire, release, tryhard_available, from_heap, free_heap, find_by_address and
--   find_ptr_size; MemPool/Setup has allocate. The other children hold proofs: Pick on the choice
--   of a bucket, Cases on the branches of acquire, Intact on the sizes of chunks, Ranges on free
--   and held memory, Places on the place of buckets, Release and Acquire on what a client gets.
-- - Buffer: the class buffer. Buffer/State has the world under it (memory, pool, use_pool and the
--   static counters), Buffer/Construct its constructors and operator=, Buffer its methods under
--   their names (capacity(size_type) is set_capacity, size(size_type) is set_size, at(size_type)
--   is at_index, an overload has the kind of its argument behind its name). The other children
--   hold proofs: Frame and Giving on what allocating and freeing leave alone, Growth, Append,
--   Content, View, Search and Copying on the methods, Refine on sequences of calls.
-- - Hooks: mempool_alloc, mempool_realloc and mempool_free (common/mempool/mempool.cpp), over the
--   world of Buffer/State, with realloc of C as a parameter; Hooks/Realloc has what a client of
--   mempool_realloc gets.
-- - PtrCache: ptr_cache (common/ptr_cache.hpp), with keys of any type whose equality can be
--   decided. set is set_key, and its parts are put_block, add_key and evict_all; get, erase,
--   touch, lru_reoder and delete_last keep their names. A step that would be undefined behaviour
--   has no result. The children hold proofs: Ends on the list of keys, Fifo on the eviction, Set
--   on set, Calls on sequences of calls, Lru and Reads on the mode LRU, Exact and Uses on set and
--   get in both modes while erase is not called.
-- - Ltv: LTVEntry (common/ltventry.hpp and ltventry.cpp). Ltv has the entry, unpack and pack
--   (pack_into for a given buffer), Ltv/Build has clear, set_str, set_bytes, set_num and
--   container, Ltv/Search has search. Ltv/Format describes the format apart from the code, as
--   trees and their bytes; Steps, Unpack, Pack and Roundtrip relate the code to it.
-- - Signature: Flow, baseMatch with its kinds, flowMatch and flowMatchState (common/signature.hpp)
--   over lists of bytes; match(f, ret, sig_pos) is match_flow, and examine is what its loop does
--   with one entry. std::regex_search is a parameter of regex_match, any function. Signature/Tree
--   has SignatureTree. The other children hold proofs: Embeds, Steps and Match on what match
--   finds, Joined on append, Resume on later calls of match, Sensors and Groups on signature_add.
-- - Fdq: FdQueue and WorkerPipe (fdq.hpp and fdq.cpp). Whether a hint can be written to a pipe is
--   a parameter, any function. Fdq/Order has the order of the sockets over any sequence of calls,
--   Fdq/Hints has whom push_all wakes up.
-- - HostCx: baseHostCX (hostcx.hpp and hostcx.cpp): connect, reconnect, shutdown, unhandle, the
--   timeouts and the destructor. A buffer is the list of bytes that Buffer/Refine shows it to be,
--   with its capacity; the Com is outside, what it returns is an argument and what it is told is
--   logged in com_calls. HostCx/Io has read, finish, to_write and the waiting for the peer,
--   HostCx/Out has write; process_in and process_out are parameters. The other children hold
--   proofs: Stream and Runs on the order of the bytes, Drain on repeated writes, Received and Fits
--   on the read buffer, Counts on the counters, Sockets on descriptors.
-- - Epoll: struct epoll (common/epoll.hpp and epoll.cpp), with the answers of epoll_ctl as a
--   parameter; Epoll/Sets has the sets of sockets, Epoll/Wait has wait, with the answers of
--   epoll_wait as arguments, Epoll/Handlers has set_handler, clear_handler, get_handler and the
--   destructors of epoller and epoll_handler. Reports, Idle and Watching hold proofs on wait,
--   Handlers/Gone on destroyed handlers.
-- - Udp: udpcom.hpp and udpcom.cpp. Udp has the datagrams of virtual sockets, enqueue,
--   read_from_pool, in_readset and read, with recv and in_readset of baseCom as parameters;
--   Udp/Connections has connect, shutdown and the cache of connected sockets, with the answers of
--   the system as arguments. Udp/Queue and Udp/Shutdown hold the proofs.
-- - Crc: crc32::compute and its table (common/crc32.hpp and crc32.cpp). Crc/Bits has the laws of
--   the exclusive or, Crc/Shifts the sum bit by bit, apart from the table, and what relates the
--   two.
-- - Proxy: baseProxy (baseproxy.hpp and baseproxy.cpp), a heap of contexts, each with the pointer
--   to its peer, and the lists of pointers of both sides. What is read of a peer is read at the
--   time of the call. Proxy/Sides adds and drops contexts, Proxy/Handlers and Proxy/Writes have
--   the events, reads and writes of one context, Proxy/Monitors pauses a side, Proxy/Rounds has
--   handle_sockets_once, the timers and the accepting of contexts. Closing, Pauses, Adjusted,
--   Necks, Others, Forgets, Paused and Delayed hold the proofs.
--
-- Conventions:
-- - The heap is a bump allocator that gives new addresses and keeps a log of what was freed; that
--   new[] and malloc give memory that nobody holds is what it stands for. Running out of memory is
--   not modelled.
-- - A Bucket* is an index into the list of buckets, whose order is that of the members' addresses.
-- - Exceptions are values of Throws. Locks are left out: each function is one step of one thread.
-- - The debug switches MEMPOOL_DEBUG, MEMPOOL_ALL and SOCLE_MEM_PROFILE are off, so canaries have
--   no bytes and no back traces are kept.
-- - size_t and the counters wrap at 64 bits.
-- - The loop of init_memory runs on fuel, one more round than the bucket has chunks; MemPool/Setup
--   shows that it fills the whole bucket. The eviction loop of ptr_cache has as many rounds as the
--   list has keys, and PtrCache/Fifo shows that it ends with room for a key. unpack has one level
--   of containers for each byte of the buffer, and as many rounds over a payload as that has
--   bytes; Ltv/Unpack shows that both are enough for well-formed bytes. All other loops are
--   recursion on the data.
--
-- Not modelled: what only calls the system (sockets, epoll, threads, files, shared memory), what
-- stands on OpenSSL (the TLS classes, the certificate store), regular expressions, log output.
pub mod Prelude
pub mod Memory
pub mod MemPool
pub mod Buffer
pub mod Crc
pub mod Epoll
pub mod Fdq
pub mod Hooks
pub mod HostCx
pub mod Ltv
pub mod Proxy
pub mod PtrCache
pub mod Signature
pub mod Udp
