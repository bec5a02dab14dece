-- ===== src/Lib.antt =====
-- Verification of GUK, the microkernel under the Maxine VM, Virtual Edition: its page allocator,
-- heap, grant tables, scheduler, spinlocks, completions, event channels, XenBus, console, and the
-- front ends of block devices, networks and file systems.
--
-- Parts and files. `Base` holds what the modules share: tests on numbers, arrays as lists, the
-- bits of machine words. `Memory` is the page allocator of mm.c: `Bitmap` the allocation bitmap
-- with the macros of include/bitmap.h, `Scan` the searches through it, `Holes` the list of holes
-- of the physical address space, `Pool` the allocator's variables with `_allocate_pages`,
-- `guk_deallocate_pages`, `increase_memory_holding_lock`, `guk_decreaseable_page_pool` and
-- `init_page_allocator`. `Grants` is gnttab.c: the free list of grant references and the grants
-- to other domains. `Sched` is sched.c: the threads, the ready queue and the upcalls into the
-- VM's scheduler; `Sched.Sleep` is its sleep queue with the timers, `Sched.Life` joining, exit,
-- the zombies and interruption, `Sched.Schedule` is `guk_schedule`, and `Sched.Steps` runs the
-- operations in any order. `Heap` is lib/xmalloc.c: blocks by address and size, over the answers
-- of the page allocator; `Heap.Pages` states what it needs of one and runs it over any, and
-- `Heap.Pages.FromPool` gives it the pool of mm.c. `Strings` is the part of lib/string.c that
-- compares and measures. `Events` is events.c and hypervisor.c: the bitmaps shared with Xen and
-- one event, `Events.Bind` the binding of handlers, `Events.Upcall` the callback that walks over
-- the pending words. `Completion` is completion.c with the wait queues of include/guk/wait.h,
-- over the operations of `Sched`. `Xenbus` is xenbus/xenbus.c: `Ring` the copies to and from the
-- rings, `Ids` the identifiers of requests, `Watch` the watches with their queues, `Receive` the
-- thread that takes messages off the ring and gives them to `Watch` or to the requests, `Reply`
-- what the callers make of replies. `FreeIds` is the free list of request identifiers that the
-- three front ends share. `Block` is blk_front.c: the segments of a request, and in
-- `Block.Requests` the requests on their way with their shadows and the handler of responses, in
-- `Block.Sync` the calls that wait for their request. `Net` is netfront.c: sending, the end of
-- sends, and receiving. `Fs` is fs-front.c: how a file operation asks and ends, directory
-- listings, renaming and the handler; `Fs.Calls` has the operations that return the value of one
-- response, `Fs.Chunks` the read in chunks, `Fs.Ring` the reservation of places in the ring by
-- several threads, `Fs.Answered` runs an operation with a back end and the handler, and
-- `Fs.Served` a read. `Console` is console/console.c with console/xencons_ring.c: its rings, and
-- printing.
-- `Spinlock` is spinlock.c: one lock and the threads at it. The children of each module hold its
-- lemmas, named for what they are about, and its tests.
--
-- Correspondence. A function keeps its name, without the prefix `guk_`, `gnttab_` or `xenbus_`. A
-- static variable is a field of the state of its module. A function that takes a lock is one step
-- on the state; one that calls the scheduler is cut there. Where others may act in between, what
-- they do is an argument: the pages that the hypervisor gives, the flags that another domain writes
-- into a grant, the thread that the VM's scheduler chooses, the ring as it is after a wait.
-- Handlers of events are a parameter, and so is, for an operation on files, all that happens from
-- its request until its thread runs again. In `Fs.Ring` the threads interleave: each read and each
-- compare-and-exchange is a step. The constants and layouts of Xen's headers are parameters too:
-- the size and the index mask of the rings, the header of a message, the number of bits of a word
-- of the shared bitmap. `BUG` and `BUG_ON` are the result `none` or `bug`.
--
-- Bounds and fuel. The loop of `_allocate_pages` and that of `increase_memory_holding_lock` run
-- on fuel; the first has a theorem that says how much is enough: two rounds, under the heap, for
-- a pool that cannot grow. A size for the heap is below 2^42 bytes there, since the number of
-- pages is an `int`. The loops of `gnttab_end_access` and `gnttab_end_transfer` run as long as
-- the other domain wants, so they have fuel and no bound. The walk of `pick_thread` takes its
-- own bound from the code, the number of thread identifiers given out. The loop of `xb_write`
-- has one round for each byte and each piece, which is enough since each round copies a byte or
-- ends a piece; the search for an identifier looks at each of the 32 entries once. The loop over
-- the events of a word needs 33 rounds while handlers raise no events. The loop over the pages
-- of a buffer takes a page in each round, so as many rounds as bytes are enough, and so it is
-- for the chunks of a file that is read. The loop of `network_rx` needs a round for each
-- response and one more. The handler of `Fs` needs one round where every request is answered.
-- Printing needs a round for each byte, where the console daemon leaves room. The indices of the
-- ring in `Fs` are counted without going round.
--
-- Not modelled: the hypercalls and page tables, the context switch, the exec front end, the
-- discovery and connection of devices, the formatting of output, the debugger's back end, the tools
-- of the control domain; in the heap the bytes of the blocks, and the test that no interrupt is
-- being handled; in the scheduler the running times and the preemption count; interrupts inside the
-- callback of the hypervisor.
pub mod Base
pub mod Memory
pub mod Grants
pub mod Sched
pub mod Heap
pub mod Strings
pub mod Events
pub mod Completion
pub mod Xenbus
pub mod FreeIds
pub mod Block
pub mod Net
pub mod Fs
pub mod Console
pub mod Spinlock
