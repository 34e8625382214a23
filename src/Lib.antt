-- ===== src/Lib.antt =====
-- A verification library for the core of the JOS kernel of lab 3: physical pages, page tables, the
-- check of user memory, environments, system calls, traps, the console, formatted output, strings, the
-- lookup of symbols, the monitor, and the boot loader.
--
-- The parts and the files that model them (paths of the repository):
--   * Base: what the other modules share, Boolean tests, lists, `|` and `&` on numbers.
--   * Mmu: the address macros of inc/mmu.h, the layout of inc/memlayout.h, ROUNDDOWN and ROUNDUP of
--     inc/types.h and the error codes of inc/error.h. A macro's name is written in lower case.
--   * Machine: the state. `Kernel` holds the globals of kern/pmap.c, kern/env.c and kern/console.c:
--     `pages`, `page_free_list`, `envs`, `curenv`, `env_free_list`, `kern_pgdir`, the static
--     `nextfree` of boot_alloc, and the input buffer `cons`; `mem` is physical memory, read and written
--     by 32-bit words at kernel virtual addresses; `cr3` and `invalidated` record lcr3 and invlpg, and
--     `messages` what is printed, the latest first. A function of the kernel is a function of
--     the state to a `Run`: it returns, panics, stays in the monitor for ever, or leaves for user
--     mode. Machine.Convert has PADDR, KADDR, page2pa, pa2page and page2kva of kern/pmap.h.
--   * Pmap: kern/pmap.c. Pmap.Boot has i386_detect_memory, boot_alloc, page_init and boot_map_region,
--     Pmap.Page the page allocator, Pmap.Walk the page tables (pgdir_walk, page_lookup, page_insert,
--     page_remove, tlb_invalidate, check_va2pa), Pmap.UserMem user_mem_check. Pmap.EntryTables has the
--     tables of kern/entrypgdir.c.
--   * Env: kern/env.c (envid2env, env_init, env_setup_vm, env_alloc, env_free, env_destroy, env_run).
--   * Console: kern/console.c. The module itself has cons_intr and cons_getc, Console.Keymaps the tables,
--     Console.Keyboard kbd_proc_data and the serial input, Console.Display serial_putc, lpt_putc, cga_putc
--     and cons_putc.
--   * Syscall: kern/syscall.c, and user_mem_assert of kern/pmap.c.
--   * Trap: trap, trap_dispatch and page_fault_handler of kern/trap.c; Trap.Gates has the interrupt table
--     that trap_init fills with SETGATE.
--   * Strings: lib/string.c; memset and memmove are in Strings.Memory, strtol in Strings.Strtol.
--   * Format: lib/printfmt.c, kern/printf.c and lib/printf.c. Format has the steps of vprintfmt,
--     Format.Conversions what each conversion prints, Format.Printnum printnum, getuint and getint,
--     Format.Run vprintfmt, vsnprintf and the kernel's vcprintf, Format.Batches the programs' vcprintf.
--     A run of vprintfmt gives the characters for putch.
--   * Debug: kern/kdebug.c. Debug has stab_binsearch, Debug.Lookup and Debug.Eip debuginfo_eip.
--   * Monitor: runcmd and mon_backtrace of kern/monitor.c, and readline of lib/readline.c.
--   * Loader: bootmain and readseg of boot/main.c, over physical memory by bytes.
--   * Tests: the theorems at concrete states, and runs of the code.
--
-- Traps call system calls, these call environments and the check of user memory, and all of them the
-- page tables and the page allocator; the state is passed on from call to call.
--
-- Numbers: a `uint32_t` is a number below 2 ^ 32 with its wrap written out (`u32`), an `int` or an
-- `envid_t` its 32-bit pattern, a `uint16_t` count is reduced modulo 65536. A pointer into `pages` or
-- `envs` is an index, and NULL is `none`.
--
-- Loops: env_free's and env_init's run over a count that the source fixes. The loop of user_mem_check
-- and that of boot_map_region have fuel 2 ^ 20, a round passes a page, and 2 ^ 20 pages make the address
-- space; that both have enough is part of their theorems. The loops of the string functions
-- that end at a NUL byte have fuel beyond the string's length, a hypothesis of their theorems. So have
-- the loops of runcmd and of strtol. stab_binsearch has twice the region's places and two, and vprintfmt
-- a number of steps that `steps` gives for the length of its format; that both are enough is proved.
-- The loops of %s have fuel of their own, `limit`; a run in which it is used up stops with `unended`.
-- printnum has one round for each binary digit of a 64-bit number, mon_backtrace one for each frame.
-- readseg has 2 ^ 23 rounds of a sector, the size of the address space, and bootmain one for each program
-- header.
--
-- Parameters: the CMOS bytes (kern/kclock.c, port I/O), the linker's symbol `end` and its symbols around
-- the kernel's stabs, what the serial port and the keyboard deliver to a poll, what getchar returns to
-- readline, the address in CR2, the interrupt flag, the addresses of the trap handlers, the
-- bytes of the disk, and the runs of the monitor.
--
-- Not modelled: assembly (kern/entry.S, kern/trapentry.S, boot/boot.S, env_init_percpu, the registers
-- that env_pop_tf restores), port I/O and the set-up of devices, mem_init and the self-checks of
-- kern/pmap.c, region_alloc, load_icode and env_create, which copy bytes through the page directory
-- that is loaded, trap_init_percpu and the names of traps, what mon_help and mon_kerninfo print, and the user
-- programs. A message of the kernel in Machine keeps the numbers that are printed, not the characters.
-- debuginfo_eip reads the tables as the processor would; a page fault in the middle of it, which a
-- program's own tables may cause, is left out.
pub mod Base
pub mod Mmu
pub mod Machine
pub mod Pmap
pub mod Env
pub mod Console
pub mod Syscall
pub mod Trap
pub mod Debug
pub mod Format
pub mod Monitor
pub mod Loader
pub mod Strings
pub mod Tests
