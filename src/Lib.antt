-- ===== src/Lib.antt =====
-- A model of the core of PUnix, a small Unix-like kernel for 32-bit x86, with the theorems that make it
-- correct.
--
-- The kernel keeps a table of task slots (kernel/core/task_table.c), a table of open files for each
-- task (fs/files.c) into one table of files for all of them (fs/vfs.c), an address space for each task
-- (arch/x86/mm.c), and its own C library (kernel/core/kutils.c), which the rest of the kernel uses.
--
-- Base         shared names: numbers, tests, arrays as lists, bit operations, the pigeonhole principle.
-- Kutils       kernel/core/kutils.c. Strings are lists of bytes from a pointer to the end of its
--              object; `none` is an access past the end or another undefined operation.
--              Kutils.Div64: `__udivdi3`, `__umoddi3`, `__udivmoddi4`, `__divdi3`, `__moddi3`,
--              `__divmoddi4`, `udiv64_10`. Kutils.Strings: `k_memcpy`, `k_memset` and the
--              string functions.
--              Kutils.Decimal: `k_itoa`, `k_itoa_hex`, `k_atoi`, `u64_to_str`.
-- FreeRing     the ring of free indices that kernel/core/task_table.c and fs/vfs.c write out.
-- Files        fs/files.c.
-- Task         `struct task` of include/kernel/sched.h.
-- TaskTable    kernel/core/task_table.c.
--
-- RunQueue     the run queue of kernel/core/sched.c, linked through the `next` fields of the tasks.
--              RunQueue.Linked relates it to a list of tasks.
-- Sched        the scheduler of kernel/core/sched.c: `sched_schedule`, `sched_enqueue`, `sched_kill`,
--              `sched_getpid`, over the task table and the run queue. Sched.Inv has its invariant and
--              the round-robin order that it follows.
-- Wait         kernel/core/wait.c: wait queues and their entries at addresses of a store, and `wakeup`,
--              whose loop runs on fuel: more than the entries of the queue are enough. `wait_event` is
--              not modelled. Wait.Linked relates a queue to a list of entries.
-- Tty          kernel/core/tty.c: the rings of input and output of a terminal: `tty_input_put`, `tty_read`
--              after its wait, `tty_write`, `tty_redraw`, `tty_init`. All but `tty_write` are taken
--              on a terminal that is not null.
-- Mm           arch/x86/mm.c: directories and tables of pages as rows of entries in a store by page, the
--              pools, `vm_map_impl`, `vm_unmap_impl`, `mm_va_to_pa` (Mm.Paging), and the regions,
--              `mm_add_vma`, `mm_find_vma_by_type`, `mm_fork_kernel`, `mm_init` (Mm.Regions). The loops
--              over pages run on fuel, more turns than the address space has pages. A range whose size is
--              not a multiple of the page size has no theorem: the loop would not end at its end.
-- Clock        arch/x86/clock.c: the seconds since 1970 from the registers of the real-time clock, and
--              `kclock_gettime` from the value of the time stamp counter; both values are arguments.
-- Elf          kernel/core/elf_loader.c. The headers of the image are records; the image and the memory
--              are buffers that share no bytes.
-- Buffer       character buffers as functions from the index, and the texts that stand in them.
-- Paths        the paths of fs/vfs.c: `vfs_normalize_path`, `vfs_resolve_path`, and in Paths.Cwd
--              `vfs_getcwd`. Paths.Names says what a path means: the list of its names.
-- Drivers      the structures of include/kernel/files.h, include/dirent.h and include/stat.h, the calls
--              through function pointers as an interface, and fs/fs_util.c.
-- Devices      fs/dev_fs.c: the table of devices, `dev_init`, `dev_register`, `dev_lookup`, `dev_open` and
--              `dev_getdents`. Drivers.Entries has the lemmas on lists of directory entries.
-- Roots        fs/root_fs.c, fs/sys_fs.c, and `vfs_get_root_mounts` of fs/vfs.c.
-- Bins         fs/bin_fs.c. The array of programs and `find_bin`, which the build generates, are
--              arguments.
-- Vfs          fs/vfs.c: the tables of files and mounts, `vfs_init`, `vfs_alloc_file`, `vfs_free_file`,
--              `vfs_mount`, `path_to_fs`; Vfs.Calls: `vfs_open`, `vfs_close`, `vfs_write`, `vfs_read`,
--              `vfs_getdents`, `vfs_fstat`, `vfs_chdir`. `vfs_read` calls the scheduler first: its result
--              is the scheduler at the switch and what is done when the caller runs again.
-- Children     the list of children of a task in kernel/core/sched.c: its searches, in
--              Children.Waitpid `sched_waitpid` up to its calls of `wait_event` and behind them, where a
--              call that has to wait is a result of its own, and in Children.Fork `sched_fork` on the
--              fields of the tasks.
--
-- Pointers to tasks, files and terminals are indices; the heap of tasks is the array of slots, so
-- that every alias is the same index. The file systems behind the function pointers are an argument of
-- the calls; what the theorems ask of them is that they leave the index of a file alone.
--
-- Not modelled: the switch of registers and address spaces, port I/O and interrupts, since they are
-- assembly; the messages to the console; the rest of arch/ but for mm.c and clock.c; the programs in
-- bin/ and libs/libc.c, which run outside of the kernel; `sched_exit`, `sched_execve`, `wait_event`,
-- `mm_copy_vma`, the opening of terminals, fs/proc_fs.c with `k_vsnprintf`, the dispatch of
-- kernel/core/syscall.c and include/kernel/dlist.h, to which the models have not been extended.
--
-- Machine integers are native numbers with the wrap-around written out. Every loop is a structural
-- recursion: over a list, over the rounds left, over the room left in a buffer, or, where it follows
-- links, on fuel that the theorems bound.
pub mod Base
pub mod Bins
pub mod Buffer
pub mod Children
pub mod Clock
pub mod Devices
pub mod Drivers
pub mod Elf
pub mod Files
pub mod FreeRing
pub mod Kutils
pub mod Mm
pub mod Paths
pub mod Roots
pub mod RunQueue
pub mod Sched
pub mod Task
pub mod TaskTable
pub mod Tty
pub mod Vfs
pub mod Wait
