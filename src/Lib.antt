-- ===== src/Lib.antt =====
-- Telos, a small monolithic kernel for x86: a model of its core, with what holds of it.
--
-- The parts and where they are modelled. Paths are from the root of the repository.
--   Word, Word.Mask, Word.Bits   32-bit arithmetic, masks and bits (include/asm/bitops.h: fls)
--   Errno                        the error codes (include/telos/errno.h)
--   Paging                       page arithmetic (include/kernel/mm/paging.h)
--   Mm                           the areas of an address space (kernel/vma.c,
--                                include/kernel/mm/vma.h): Space searches and creates, Split cuts
--                                and grows, Access checks ranges, Life starts, clones and ends
--                                address spaces, Ops has the callbacks of an area, Brk the
--                                program break (dispatch/mem.c)
--   Timer                        timers and the clock tick (kernel/timer.c,
--                                include/kernel/timer.h, tick of dispatch/time.c)
--   Signal                       signals of a process (dispatch/signal.c,
--                                include/kernel/signal.h, include/telos/signal.h): Calls has the
--                                system calls and the delivery, Mask, Deliver and Actions what
--                                holds of them
--   Proc                         the process table and the scheduler (include/kernel/process.h,
--                                kernel/schedule.c, dispatch/process.c): Kill has the signals
--                                from one process to another (dispatch/signal.c) and the statuses
--                                of children, Table, Round, Wake and Sent what holds of
--                                them; Exit is fork, the end of a process and waiting for it
--                                (with sys_close of fs/open.c, file_unref of fs/inode.c), Ended
--                                and Collect show each, Round both together
--   Heap                         the heap of the kernel (kernel/kmalloc.c,
--                                include/kernel/mm/kmalloc.h)
--   Slab                         the slab allocator (kernel/slab.c, include/kernel/mm/slab.h) over
--                                the bitmaps of Slab.Bitmap (include/kernel/bitmap.h, ffz of
--                                include/asm/bitops.h): Valid has when a cache is valid, Lists
--                                which slabs its lists hold, Create, Take, Alloc and Release what
--                                each operation does, Round allocating and freeing together
--   Flexbuf                      buffers made of pages (kernel/flexbuf.c): Bytes, Io and Transfer
--                                take the copying page by page to ranges of bytes, Grow, Queue and
--                                Dequeue show the queue
--   Pipe                         pipes over these buffers (fs/pipe.c), with the wait queues of
--                                Proc.Wait (include/kernel/wait.h): Fifo has what one call does to
--                                the bytes, Run any order of calls, Blocks the loop of pipe_write,
--                                Again what an interrupted call writes twice
--   Parse                        reading numbers (lib/kstrtox.c, lib/ctype.h)
--   Text                         strings and blocks of bytes (lib/string.c)
-- The modules below each of these hold the proofs; modules named Tests hold the runs at concrete
-- inputs.
--
-- How the code is written down. A C function becomes a function of the same name that takes the
-- state it reads and returns the state it leaves. `unsigned long` and pointers are numbers below
-- 2 ^ 32; sums and differences that can wrap are written with `add32` and `sub32`. An intrusive
-- list is a list of records, each with the identity of the structure it stands for, and `list_del`
-- and stores through a pointer look an element up by that identity. A loop over such a list is a
-- recursion over it. Only the loop of pipe_write over its blocks takes fuel, one more than the
-- bytes that are left, which is enough. Allocation takes structures from a list of those
-- that are free (`Pool`), and fails when it is empty. The address-space functions call page tables
-- and the callbacks of a file system: these are the parameters `Pages` and `Ops`. What the signal
-- calls ask of `vm_verify` about a pointer of the user comes in as a Boolean.
--
-- How the parts meet. A tick of the clock runs the timers; a timer's action is known by a
-- number, and the model keeps the list of the actions called. A process has an address space
-- and a `struct sig_struct`; exec resets both (`mm_exec`, `sig_exec`), fork copies both
-- (`mm_clone`, `sig_clone`). The `Kernel` of Proc holds the table with the signals of each
-- process; its functions use those of Signal, and Heap, Slab, Parse and Text stand alone;
-- `kalloc_pages` is a parameter of `hmalloc`, and what becomes of a file that nothing refers to
-- is one of `do_exit`, with the law that it changes nothing of what a process's family sees. A
-- function that gives up the processor is cut in two there, before and after (`sys_sigwait`,
-- `sigwait_woken`; `pipe_read`, `pipe_read_woken`). `none` as the result of `schedule` and
-- `report_status` stands for a step that the code takes for granted not to happen: an empty
-- ready queue, and a panic; of `slab_alloc`, the access through a null pointer when no page is
-- left.
--
-- Not modelled: page tables and their hardware (kernel/paging.c), interrupts and descriptor
-- tables, drivers, the stack switch in assembly, exec, the file systems, and the printing code taken over from Linux (lib/vsprintf.c).
pub mod Prelude
pub mod Word
pub mod Paging
pub mod Errno
pub mod Mm
pub mod Timer
pub mod Signal
pub mod Parse
pub mod Proc
pub mod Text
pub mod Heap
pub mod Flexbuf
pub mod Pipe
pub mod Slab
