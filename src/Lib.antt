-- ===== src/Lib.antt =====
-- A model of ylib, a C library of data structures and utilities, and what is proved of it.
--
-- The parts and how they interact:
--   * Dynb.antt: the growing buffer of src/dynb.c and src/ydynb.h, which most containers of the
--     library and the region code stand on. Its header is the record `Dynb`; `create`,
--     `expand`, `expand2`, `shrink` and `appends` are `ydynb_create` and so on. The bytes are not
--     kept: a write is the range that it touches, and the allocator is a function that
--     says which sizes it grants. `u32` sizes wrap.
--   * Geo/Band.antt: half-open intervals, src/geo/yband.h. Coordinates are only compared and copied,
--     so an `int` n is the number n + 2 ^ 31.
--   * Geo/Bands.antt: sorted arrays of x-bands and the loop that combines two of them, in
--     src/geo/rgn.c (`band_add`, `band_op`, the loop of `rband_op_overlap`).
--   * Geo/Rgn.antt: regions, in src/geo/rgn.c (`rband_add`, `rband_op`, `rgn_op`). `rgn_op` writes into
--     a `Dynb`, which it lets grow before each round. The `ydynb_shrink` at its end, which keeps the
--     elements and whose result is ignored, is left out.
--   * Geo/Rect.antt: rectangles, src/geo/yrect.h and src/geo/rect.c.
--   * Geo/Areas.antt: the public operations on regions and rectangles, at the end of src/geo/rgn.c.
--   * Heap.antt: the binary heap, src/heap.c. Its buffer is a `Dynb`; what the slots hold and where every
--     node believes itself to be are functions, `slots` and `index`.
--   * Ringbuf.antt: the ring of versioned slots that is read without a lock, src/ringbuf.c. A call of
--     `yringbuf_write` or `yringbuf_read` is a sequence of steps, one for each atomic operation and each
--     copied byte, and Ringbuf/System.antt lets the steps of a writer and a reader interleave.
--   * Listl.antt: circular lists of links, src/ylistl.h. The fields of all links are two functions of their
--     addresses; Listl/Links.antt says which sequence of links a list is.
--   * Ylist.antt: lists of items, src/list.c and src/ylist.h, on Listl: additions and removals at both ends,
--     and the iterators. A node is named by the address of its link.
--   * Mempool.antt: the pool of blocks of one size, src/mempool.c, in the configuration that it is
--     built with by default (without `CONFIG_MEMPOOL_DYNAMIC`). `malloc k n` is what the k-th call of
--     `ymalloc` returns, and every operation says which blocks it got and freed. Pointers are numbers, and
--     a sum or a product of `int`s past `INT_MAX` is a fault. The locks are left out.
--   * Pool.antt: the pool of objects, src/pool.c, on a list of links.
--   * Hashl.antt: the hash table of the caller's nodes, src/hashl.c. A bucket is the list of its nodes,
--     and the functions that hash and compare keys are parameters.
--   * Hash.antt: the hash table of keys and values, src/hash.c, on Hashl. Which keys, values and nodes an
--     operation frees is part of its result, and the function that copies a key is a parameter.
--   * Lru.antt: the cache of the data used last, src/lru.c, on Hash. The list of nodes is the sequence that
--     Listl says that a circular list is, with the oldest node first.
--   * Threadex.antt: a thread that can be cancelled and its owner, src/threadex.c and src/ythreadex.h.
--     The calls of users, the thread and the owner are steps on a common state. A call that has posted its
--     message unlocks the state in a step of its own; progress messages are left out.
--
-- Base.antt holds the shared names. A run (Base/Run.antt) ends with a value, with a fault, where the
-- C code accesses memory that it must not or fails an assertion, or with the fuel used up. Each
-- loop that the fuel bounds has a theorem that gives enough of it: `ydynb_expand2` needs as many
-- rounds as elements are missing and one more, and the loops of src/geo/rgn.c a round for each band of
-- the operands and one more. `down` gets a round for each element, and `up` for each position below
-- its own. An iteration of a list of links gets a round for each link and one more.
--
-- The allocator (`ymalloc`, `yrealloc`) is outside the repository: a function that grants sizes. That
-- a grown block may move is a parameter of `rgn_op`, which keeps a pointer into it.
--
-- Memory is sequentially consistent in the model of the ring: the memory orders that the code names are
-- not told apart. Other readers change nothing that is shared, so one reader stands for each.
--
-- Not modelled: message queues and loopers, tasks and their managers, graphs, tries, logging
-- and the other components that the manifest lists. They are input and output, stand on pthreads, or are
-- to come.
pub mod Base
pub mod Dynb
pub mod Geo
pub mod Hash
pub mod Hashl
pub mod Heap
pub mod Listl
pub mod Lru
pub mod Mempool
pub mod Pool
pub mod Ringbuf
pub mod Threadex
pub mod Ylist
