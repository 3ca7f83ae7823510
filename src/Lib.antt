-- ===== src/Lib.antt =====
-- A model of parts of genshinimpact_nx, which runs an Android build of a game on libnx: source/fakefd.c,
-- the in-process pipes, event counters and random source that stand for the descriptors bionic code
-- expects, source/json_min.c, the JSON reader for documents that the program receives,
-- source/memory_broker.c and source/sbrk_extend.c, the host's allocator entry points, and of
-- source/libc_shim.c the core of the memory pool that stands behind them.
--
-- FakeFd (source/fakefd.c). `State` is what the lock protects: the table of high descriptors, the low
-- aliases and the heap of pipe objects, addressed by number. A pointer to a `FakeOpen` is an `OpenRef`,
-- the address of its pipe and which of its four descriptions it is. A pointer that is not live makes a
-- call give `none`, so a theorem that a call gives `some` says that it follows only live pointers.
--   FakeFd/Model        the data
--   FakeFd/Ring         the loops over the circular buffer
--   FakeFd/Table        lookup, retain and release, free slots and aliases, select bits
--   FakeFd/Descriptors  pipe2, eventfd, random, dup, close, acquire and release of an operation
--   FakeFd/Control      dup2, fcntl, ioctl, poll
--   FakeFd/Transfers    read and write
--   FakeFd/Window, Chunks, Writes                the buffer as a queue of bytes
--   FakeFd/Counts, References, Lookup, Safety    references counted by their holders
--   FakeFd/Creation, Resize, Dup2                the same for the calls that make, resize and replace
--   FakeFd/Frames, PipeWrites, WriteCall, ReadCall, Guarantees   whole calls
-- A call that would wait on the condition variable ends with the outcome `waits` and the bytes moved so
-- far. Its state is that in which the lock is released, and the description stays held by the call.
-- A theorem over `calls` has the descriptions of the calls in progress, `Sound s calls` says that each
-- count of references is the number of table entries, aliases and calls that hold the description,
-- that an object is freed when nobody holds it, and that its buffer is in order; `HasRoom` bounds the
-- calls so that no counter of 32 bits overflows. The write loop has fuel 2, since a second round
-- always stops. What fakefd.c calls, the native open, close and dup2, `close_fake_backend` and
-- `randomGet`, are parameters; the wake-ups of waiting calls have no effect on this state. Not
-- modelled: `fakefd_wait`, which only waits with a deadline.
--
-- JsonMin (source/json_min.c). A cursor is the list of bytes that are left.
--   JsonMin/Scan    white space, hexadecimal digits, UTF-8, strings, numbers, literals
--   JsonMin/Value   containers, `json_min_parse`, lookup in objects and arrays
--   JsonMin/Text    UTF-8 output and `json_min_string`
--   JsonMin/Utf8, Forward, Items, Bounds   what is proved of them
-- The depth is structural, 32 as in the source; the loops have the length of the text as fuel, and
-- each round takes a byte. Not modelled: `json_min_int64`, which rests on strtoll.
--
-- Broker (source/memory_broker.c, source/sbrk_extend.c). `Backend` has what the broker calls: newlib's allocator, which is no
-- part of the repository, and four functions of the pool of source/libc_shim.c. The laws that are relied on
-- are `IsBackend` (what is freed), `IsAllocator` (what newlib and the pool give and refuse, and where newlib
-- writes) and `IsRelease` (a block that is given back to the pool). NULL is `none`; a call that hands newlib a pointer that is no block of it
-- ends in `none`, so a theorem that it gives `some` says that it does not.
--   Broker/Counters    the histogram and the live counters
--   Broker/Model       the state, newlib and the pool
--   Broker/Entry, Allocate, Release   the wrapped functions
--   Broker/Buckets     what is proved of the counters
--   Broker/Blocks, Fallback, Attempts, Serving   what a block that is given is, and what the calls give
--   Broker/Ownership, Resize   what is proved of free and realloc
--   Broker/Sbrk        source/sbrk_extend.c, how newlib's heap grows by blocks of the pool
-- The atomic counters are updated one call at a time. Not modelled: `memory_broker_histogram_report`
-- and `sbrk_extension_report`, which print, and `nx_primary_*`, which pass their arguments on.
--
-- Pool (source/libc_shim.c). The arena is a range of pages with a list of free extents, nodes in an array
-- linked by their numbers, 0 being none. Its memory comes in segments of 8 MiB, which are mapped while
-- they hold pages of an allocation. On the heap backend a segment is an alias of 128 units of 64 KiB of the
-- heap donor, a bank at the end of the process heap that grows and shrinks. `none` is `fatal_error`.
--   Pool/Extents   the free extents: taking and returning pages
--   Pool/Donor     the donor: its length, the search for units, allocate and release
--   Pool/Backing   mapping and unmapping a range, by the kind of memory behind the arena
--   Pool/Segments  commit and release of the segments of an allocation
--   Pool/Search    the search for a free extent
--   Pool/Cells, Links, Moves, Runs, Consume, Return, Attach   the extents as runs of free pages
--   Pool/Places, Bank, Allot, Release             the donor's search and its books
--   Pool/Sizing, Unmapping                        what the donor asks of the kernel, and one alias less
--   Pool/Mapped, Backed, Commit, Loops, Live, Drop   segments with units of their own, and live pages
-- The kernel is a parameter, `Kernel`: its calls with their result codes and `oc_address_range_state`;
-- `IsKernel` says which aliases stand after each call that succeeds, that a call that fails changes
-- none, and that the library's codes of failure are not 0; `Undoes` says that an alias that stands can be
-- taken away, and only the commit relies on it. The search for units has one round more than the bank has units as fuel, and the allocation one round
-- more than its capacity, since each growth makes it longer; the walk over the extents one round more than
-- there are nodes. Not modelled: the records of allocations and the
-- sparse mappings built on these calls, and the line that is printed when an alias stays.
--
-- Base has the shared helpers: lists, options and tests over the native numbers.
--
-- Left out are the rest of libc_shim.c and the other files under source/, among them glue to libnx, the graphics driver, the network
-- and the guest's Java and native interfaces.
pub mod Base
pub mod Broker
pub mod FakeFd
pub mod JsonMin
pub mod Pool
