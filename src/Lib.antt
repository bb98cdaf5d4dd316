-- ===== src/Lib.antt =====
-- Verification of the core of atlos, a small x86 kernel in C.
--
-- The parts and how they meet. The kernel keeps its objects in intrusive lists (libs/list.c):
-- the memory areas of an address space, the runnable threads, the slabs. Physical pages come
-- from a buddy allocator (kern/mm/buddy.c) over the pages that kern/mm/pmm.c finds, which also
-- holds the arithmetic of pages, addresses and page tables. The console
-- (kern/driver/console.c) is fed by interrupts and read by the line editor
-- (kern/libs/readline.c), whose lines the kernel monitor (kern/debug/kmonitor.c) splits and runs.
-- Memory comes from the slab allocator (kern/mm/slab.c), which takes its pages from the buddy
-- allocator. libs/string.c and libs/printfmt.c serve all of them.
--
-- The files.
--   Base     what the other files share: tests and lists on the native numbers, signed
--            results, memory as a function, binary digits.
--   Dlist    libs/list.c and libs/list.h. A heap has the fields `next` and `prev` of every
--            element and `len` of every list; an operation is a function on the heap that may
--            fault, at an access through NULL. `Dlist/Chain` says when a heap holds a list.
--   Pmm      kern/mm/pmm.h and kern/mm/pmm.c: powers of two, rounding, page numbers, page
--            directory and page table entries.
--   Buddy    kern/mm/buddy.c. The array of elements is a function from the index to
--            `elem_size`; an element pointer is its index. `Buddy/Tree` says when the elements
--            form a tree, and when it has no phantom: a parent that shows a whole block
--            although its two halves are only partly free. Sizes are from 1 to below 2^31, as
--            the ints of the code hold them.
--   Kmem     kern/mm/pmm.c: `kalloc_pages` and `kfree_pages`.
--   Slab     kern/mm/slab.c: a slab's free list (`Slab/Free`), the three lists of a cache
--            (`Slab/Lists`, `Slab/Return`), and in `Slab/Alloc` slabs out of pages, `slab_alloc`,
--            `slab_free`, and `kmalloc` and `kfree` of kern/mm/pmm.c.
--   Vmm      kern/mm/vmm.c: the areas of an address space as a list of `Dlist` with fields as
--            functions of the area's address; `find_vma`, `do_pgfault`, `vma_create`,
--            `vma_merge_check` and `check_vma_sorted`; `Vmm/Space` is `mm_create` and `mm_destroy`,
--            `Vmm/Add` is `vma_add` with `merge_vma` and `try_merge_vma_range`; its result tells
--            a read of an area through NULL from a failed assertion.
--   Process  kern/arinc/process.c: `schedule` up to the switch; `Process/Pids` is the numbers of
--            processes, `Process/Create` is `kernel_thread`, over the allocators, and `process_init`.
--   Bitmap   libs/bitmap.c: single bits; `Bitmap/Scan` is `bitmap_scan_partial`, with its two loops,
--            and `check_bitmap`.
--   Printfmt libs/printfmt.c: `printnum`, and `vprintfmt` as a machine that takes a step for each
--            character of the format (`Printfmt/Step`); `Printfmt/Step/Items` says what formats
--            show, `Printfmt/Step/Buffer` is about `vsnprintf`.
--   Str      libs/string.c over a memory of bytes. `Str/Text` says what memory holds.
--   Console  kern/driver/console.c: the ring buffer `cons`, `cons_intr`, `serial_proc_data`,
--            `cons_getc`, the text screen of `cga_putc` and, in `Console/Keyboard`, the tables and
--            `kbd_proc_data`.
--   Readline kern/libs/readline.c, and `cputs`, `vcprintf` and `getchar` of
--            kern/libs/stdio.c.
--   Monitor  kern/debug/kmonitor.c: `parse` and `runcmd`. `Monitor/Words` says what a line is.
--   Kdebug   kern/debug/kdebug.c: `Kdebug/Search` is `stab_binsearch`; `debuginfo_eip`, and in
--            `Kdebug/Backtrace` what `print_debuginfo` and `print_stackframe` show.
--   Trap     kern/trap/trap.c: `trap_dispatch` on the frame, the ticks and the frames that it
--            switches to, and `idt_init`.
--   Pic      kern/driver/picirq.c and `clock_init` of kern/driver/clock.c.
-- A definition has the name of its C function; loops are functions of their own next to it
-- (`find_loop`, `strlen_loop`, `readline_loop`). Witnesses and tests are in the files Tests.
--
-- Numbers. uint32_t, uint16_t and uint8_t are natural numbers whose wrap-around is written out
-- where the code can reach it; the lengths of lists are below 2^32 by their invariant. A
-- negative int that only signals a failure is `none`. Addresses do not wrap: no string, block
-- or list element stands across the end of the address space.
--
-- Loops. A loop that counts is structural. A loop that follows links or looks for a terminator
-- runs on fuel, and a theorem gives the fuel that is enough: one round more than the list has
-- elements, than the string has bytes or than the device has characters. `find_buddy_slot`
-- needs one round more than the tree has levels below its root, and `fix_parent_buddy_size` the
-- index it starts from, since every step to the parent makes the index smaller. `slab_alloc`
-- calls itself once at most: for the `slab_t` of a slab of large objects, which has at most 256
-- bytes. The search of a bitmap for one bit has eight rounds in a byte and one round more than
-- there are bytes. `stab_binsearch` needs two rounds more than there are stabs, in a sorted
-- table with no stab of the type at the next address.
--
-- Parameters. The port instructions `inb` and `outb` are inline assembly: the console and the
-- interrupt controller take them as functions on the state of the device. `cons_getc` takes the
-- keyboard's `proc` as a function that yields characters, which `kbd_proc_data` is in
-- `Console/Keyboard/Typing`. `readline` takes what `getchar` returns as a list; `vma_create` and
-- `mm_create` take what `kmalloc` returns as an argument, and `mm_destroy` and `vma_add` take
-- `kfree` as a function on a state of its own. `runcmd` takes the commands and the message of
-- an unknown one as functions. The slab allocator takes where `mcached` stands and the number of
-- the first page.
-- `trap_dispatch` takes `schedule` and `cons_getc` as functions on the rest of the kernel.
--
-- Not modelled: the boot loader, entry and trap assembly, segment and page table loads, device
-- set-up, which only writes to ports but for the interrupt controllers and the timer, the
-- self-tests (`test_slab`, `buddy_check`, `check_vmm_vma` and their like) and the tools of the build. The
-- layout of memory at start-up and the printing of trap frames are not in this library.
pub mod Base
pub mod Bitmap
pub mod Buddy
pub mod Console
pub mod Dlist
pub mod Kdebug
pub mod Kmem
pub mod Monitor
pub mod Pic
pub mod Pmm
pub mod Printfmt
pub mod Process
pub mod Readline
pub mod Slab
pub mod Str
pub mod Trap
pub mod Vmm
