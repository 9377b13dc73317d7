-- ===== src/Lib.antt =====
-- st_win: user-level threads on Windows fibers, after the State Threads library. The repository's C
-- library is modelled: the scheduler with its sleep queue, the condition variables and mutexes, the
-- thread-specific data, the stacks, the life of a thread, the select event system, and the I/O calls;
-- so are its extensions, and the server and the proxy of examples/.
--
-- The parts of the program and their files here:
--   sched.c, heap_insert and heap_delete (docs: the timeout heap): TimeoutHeap. Heap is the state;
--     Layout says what tree the pointers lay out, Carry, Descend and Insert follow heap_insert,
--     Swap, Sift, Refill, Cut and Delete follow heap_delete, Minimum is about the root.
--   common.h, the circular lists: Clist has them as lists of their elements, Clist/Links the macros on
--     the links themselves.
--   common.h: Vp, the virtual processor with the threads, condition variables, mutexes and poll queues.
--   sched.c, the sleep queue, the clock, st_thread_interrupt and _st_vp_schedule: Sched, with Clock for
--     _st_vp_check_clock and Invariant for the sleep queue invariant.
--   sync.c: Sync, with Wakeup for condition variables and Ownership for mutexes.
--   key.c: Key, with Cleanup.
--   stk.c: Stk, with Redzone.
--   sched.c, st_thread_create, _st_thread_main, st_thread_exit, st_thread_join, st_init and the idle
--     thread: Thread, with Placement for the creation, Join for a join after the exit and Awaited for one
--     that waits for it.
--   event.c: Event (the counts and sets), with Counts and Balance for what is counted, Watched,
--     Queued and Tracking for the counts over every run, Event/Dispatch
--     (select and notification), Event/System for the choice of the event system, and Event/Poll for
--     st_poll of sched.c, which uses them. The maps of the cstl library are a parameter, and what they
--     promise is the record Lawful.
--   io_win.c: Io (error codes and descriptor objects), with Transfer for the calls that move data,
--     Files for st_accept, st_open and st_writev, Delivery for what st_write sends and Descriptors for the
--     life of a descriptor object.
--   extensions/lrucache.c: Lru. Buckets has the links of the hash table, Chain, Push and Hashed say what lists
--     they lay out, Entries is the invariant (Good) with the deletion, Release, Lookup, Evict and Insert
--     follow the operations of these names, Shrink says what an insertion may take out, Outcome
--     what a caller sees of it, Create is about new caches and entries, and Contents has the functions
--     that empty, walk or report.
--   extensions/dnscache.c: Dns, with Hash for hash_hostname, Expiry and Answers for lookup_entry, and
--     Settle and Stored for what insert_entry leaves.
--   extensions/dnsres.c: Dns/Resolver has parse_answer and query_domain, Dns/Search _stx_dns_getaddrlist,
--     with Candidates for the names it tries; Dns/Packet is about the bounds of parse_answer.
--   The scheduler as a whole: Steps. The steps of all these operations between two switches, with
--     Steps/RunQueue for the invariant, Blocking for the steps that block the caller, Waking for those
--     that wake others and Switching for _st_vp_schedule.
--   examples/res.c, an older form of dnsres.c: Dns/Single, which uses Resolver and Search.
--   extensions/stx_fileio.c: Fileio, with Answers for what a request reads.
--   examples/server.c: Server (the arguments, the limits and the addresses), with Arguments and
--     Throttling. Server/Pool has the threads of a socket, Counters and Serving what their counters say;
--     Server/Watchdog has the processes, Children and Starting what the watchdog knows of them;
--     Server/Signals has the signal handlers.
--   examples/proxy.c: Proxy, with Relaying for what it forwards and closes.
--   Prelude holds the shared names and lemmas, Tests the concrete states, runs and examples.
--
-- How the parts interact: st_thread_create takes a stack of stk.c and puts the thread on the run queue;
-- sync.c and st_poll put the running thread on a wait queue and the sleep queue and call
-- _st_vp_schedule, which picks the next thread; the idle thread dispatches I/O and calls
-- _st_vp_check_clock, which wakes what has expired; st_thread_exit cleans the data of key.c up,
-- signals the termination variable and gives the stack back.
--
-- The model. Addresses are natural numbers, 0 is the null pointer, and a field of a struct is a function
-- of the address. A circular list is the list of its elements from `next` on. A function of the source
-- keeps its name without the prefix `st_` or `_st_` (st_cond_wait is cond_wait_for). The result of an
-- allocation, of a clock, of `select` and of a system call is an argument. `swapFiber` is the parameter
-- `swap`: it runs the other threads and returns when the caller is resumed. A destructor call is recorded
-- in order. Times are unsigned 64-bit numbers: the sum of the clock and a time-out wraps around. Sizes and
-- addresses of stacks are natural numbers without overflow; the count of active threads and the counts of
-- descriptors are integers; descriptors and the size of the sleep queue are natural numbers. The flags
-- of a thread are one Boolean each. `free` is only recorded, in lrucache.c,
-- and an object that was freed is not used again. The counters of a cache have 32 bits, its sizes and
-- weights 64; the uses of an entry are counted without a bound.
--
-- Bounds and fuel. The loops that count the bits of an index have the index as fuel, which is more than
-- its bits; the sift of heap_delete and the loop of _st_vp_check_clock have the size of the heap, and
-- the proofs show that this is enough. So it is for the loops of lrucache.c, which have the number of
-- entries in the cache or on the LRU list. st_thread_join, the idle loop and the I/O calls wait for others
-- without a bound: they take a number of rounds, or the list of the results of the system, and return
-- `none` when it is used up. The loop of _st_select_dispatch makes a round for each group that exists when
-- it begins. The relay of proxy.c takes the list of its rounds and returns `none` when it is used up;
-- the threads and processes of server.c are step relations, without a bound.
--
-- Not modelled: the fibers (fiber/, C++ over the Windows API), WSAStartup, st_writev_resid and
-- st_write_resid, which take a pointer for what it points at, testdns.c and examples/error.c, which
-- format and print, stx_cache_entry_sizeof, and in the examples the set-up of sockets, daemons, users and
-- log files. In stx_fileio.c the calls on the file and the layout of a ssize_t are parameters, and the
-- pipes are the bytes in them; in server.c and proxy.c the results of fork, wait, st_accept, st_poll and
-- st_read are arguments. The counters and limits of server.c are integers without overflow, and a round
-- of its watchdog, from the return of `wait` to the store of the new pid, is one step: the source leaves
-- a moment after `wait` in which a signal is still forwarded to the process that has ended.
-- A code of GetLastError that _st_GetError does not translate stays a number, which is EINTR, EAGAIN,
-- EWOULDBLOCK or EISCONN if the C library of Windows gives it that meaning.
-- In dnscache.c and dnsres.c a string is the list of its characters without the 0 at its end; tolower,
-- the resolver library, what it holds in _res, and the results of st_sendto and st_recvfrom are
-- parameters. The search of a host returns `none` where strncpy leaves the buffer. Clearing the heap
-- fields of a new thread assumes, as the source does, that no thread on the sleep queue has the same
-- address.
pub mod Prelude
pub mod TimeoutHeap
pub mod Clist
pub mod Vp
pub mod Sched
pub mod Sync
pub mod Key
pub mod Steps
pub mod Stk
pub mod Thread
pub mod Event
pub mod Io
pub mod Lru
pub mod Dns
pub mod Fileio
pub mod Server
pub mod Proxy
pub mod Tests
