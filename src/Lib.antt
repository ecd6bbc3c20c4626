-- ===== src/Lib.antt =====
-- demoOS, a bare-metal operating system for the Raspberry Pi 3B: a model of its core in C, and
-- what makes it correct.
--
-- The kernel is one address space with a table of 64 processes. The scheduler (libs/scheduler.c)
-- keeps the process control blocks linked in ready queues, picks the next process by one of seven
-- algorithms, and is called by the timer (handle_timer_tick), by the system calls that block, and
-- by message passing (libs/ipc.c). libs/fork.c creates processes from pages of the memory manager
-- (libs/mm.c) and registers them with the scheduler. libs/syscalls.c looks a process up by its PID
-- and calls the others. The UART (drivers/uart/uart.c) delivers characters through a ring and wakes
-- the processes that wait for input. common/string.c serves kernel and programs.
--
-- Pointers to control blocks are addresses; `Kernel.pcb` is the memory that they point to, so that
-- two names for one block see each other's writes. The global variables of the kernel are the fields
-- of the record `Kernel`, an operation takes the kernel before it and returns the kernel after it,
-- and a C function that reads or writes outside an array, or through NULL where that is not tested,
-- has no result (but receive_message reads page 0 of the program through NULL, which is mapped, and the
-- kernel is as before). Where a call gives up the CPU, the model goes on with the process that was chosen.
--
--   Process          libs/scheduler.h (struct PCB and its parts, the states)
--   Queue            the queue primitives of libs/scheduler.c: enqueue_process_to,
--                    dequeue_process_from, remove_process_from, enqueue_sorted; Chain says which
--                    list a queue stands for, Fifo, Remove and Sorted what the primitives do to it,
--                    Interrupted what an interrupt in the middle of one does
--   Kernel           the globals and descriptors of libs/scheduler.c, preempt_enable and _disable
--   Sched.Enqueue    enqueue_process and its callbacks, add_process_to_scheduler, sched_set_param
--   Sched.Signals    handle_process_signals
--   Sched.Pick       dispatch (switch_to_process), requeueing, _schedule_round_robin and the
--                    selection of the head for FCFS and SJF
--   Sched.Lottery    _schedule_lottery: tickets, random numbers, the draws
--   Sched.Aging      _schedule_priority_aging; Scan has the walk as a scan of a list, Walk one pass with
--                    its signals, Select the choice and the next epoch, Choice what is dispatched
--   Sched.Multilevel _schedule_multilevel and _multilevel_on_tick (MLQ and MLFQ); Level has the
--                    selection at one level, Cascade the scan of the levels, Boost the boost
--   Sched.Dispatch   schedule, handle_timer_tick, exit_process
--   Sched.Invariant  the ready-queue invariant; Steps and Unlink follow it along a selection, Frame
--                    the rest of the state, and Table has the process table as a list
--   Ipc              libs/ipc.c: push_message, pop_message, send_message, receive_message,
--                    send_signal; Buffer says which messages a ring holds
--   Memory           libs/mm.c: get_free_page, free_page, map_page, map_table; Virtual has
--                    map_sector, do_mem_abort, copy_virtual_memory
--   Fork             libs/fork.c: copy_process, move_to_user_mode, copy_code
--   Syscalls         libs/syscalls.c: the calls on processes, messages, signals and pages, and the
--                    search for a descriptor
--   Text             common/string.c: strlen, strcpy, strcat, strcmp, strsplit; Block has memzero,
--                    memcpy and memcmp of common/memory.S, as the programs call them
--   UserCalls        common/user_syscalls.h: the system calls as a record of functions
--   Shell            app/shell.c over these calls: Path has normalize_path, Listing the commands that
--                    show directories, Paths those that take one, Contents those on files, Programs
--                    those that start a program, Commands the choice of a command and the loop;
--                    Path.Components says what a path is, Turns, Normalize and Closing what becomes of it;
--                    Paths.Changing has the folder that cd leads to
--   Spawn            common/process_api.c (spawn_process), init_process_main of user/user.c and
--                    app/run_all.c; Configured has spawn_process over sched_set_param
--   Console          drivers/uart/uart.c (receive ring, uart_hex), print_int of app/benchmark.c
--   Files            libs/filesystem.c (create_dir, open_dir, open_file; Mount) and the calls of
--                    libs/syscalls.c on files and directories, over the functions of the FAT library
--                    as a parameter, with syscall_exec in Exec; Opening says what an opening leaves,
--                    Exec.Arguments where a program finds its arguments
--   Input            syscall_input of libs/syscalls.c; Editing has the edited line
--   Dispatcher       syscall_dispatcher of libs/syscalls.c: its switch over the calls, with what user
--                    memory holds as a parameter
--   Interrupts       drivers/timer/timer.c, handle_uart_irq of drivers/uart/uart.c, and handle_irq of
--                    drivers/irq/controller.c
--   System           the entry points as one system of steps under Round Robin: Sound is what is to
--                    hold between two of them (Tidy: where the control blocks stand), Switching,
--                    Exit, Register, Changes, Receive, Irq, Messages, Receipts and Forking follow it
--                    through the operations, Reach has the states from the boot, Fair the turns of
--                    the queue, Clock the ticks
--   Examples         concrete kernels, at which the theorems are applied
--
-- Numbers. Fields of type long or int that go below zero are integers; they do not reach the bounds
-- of their types. The state of the random generator and the descriptors of tables wrap at 2 ^ 64,
-- the compare value of the timer at 2 ^ 32, the indices of the UART ring at 64.
--
-- Fuel. A walk along a queue has `queue_fuel`, 65 rounds: one more than the table has slots, so
-- enough for every queue without a repeated process. A selection by epochs has `epoch_fuel`, 64. The
-- functions on strings take their fuel as an argument; any above the length is enough. The printing
-- of a number takes ten rounds for each divisor.
--
-- A run of the whole kernel (System.Reach) is serial: each entry begins when the one before it has
-- ended or has blocked in `schedule`, so interrupts are taken in user mode, in the idle task, or while
-- a call is blocked. The code also allows runs in which an interrupt is taken elsewhere inside a system
-- call or inside the selection after a tick (el0_svc of drivers/irq/entry.S and handle_timer_tick call
-- enable_irq); nothing is said of those, except in Queue.Interrupted for one interrupt inside
-- enqueue_process_to. A serial run covers the interrupts, the creation of processes, reading a line,
-- yield, wait, exit, messages, signals and parameters, under Round Robin; the other algorithms are
-- covered operation by operation. The idle task is not taken to block or to end.
--
-- The reading of a line ends a turn where it calls `schedule`, and goes on in a new turn; its loop on
-- the ring has 64 rounds, one more than the ring holds.
--
-- The shell. Its memory is a function from addresses to characters, and its local arrays stand at
-- addresses that are parameters (Locals); a write below the start of a path has no result. The system
-- calls are functions on a state of all that is outside the process, and fork gives the value that this
-- process sees. A function ends the process where it calls exit, or where exec puts another program in
-- its place. The loops over directory entries have a fuel of their own (`rounds`).
--
-- Not modelled: assembly code (boot, exception entries, the switch of registers; zeroing and
-- copying memory is written out in Memory and Text.Block), the FAT library in libs/fat32, which is
-- third-party code, the initialisation of the UART, the drivers of the SD card, the framebuffer and the
-- mailbox, which only move values to and from device registers, the banner of the shell, and the
-- programs in app that exercise single calls and print. A page that is filled with zeros is also an
-- empty control block, but words written to a page do not show in the control block there, and the
-- words of the code that copy_code moves stand at their byte addresses.
pub mod Base
pub mod Process
pub mod Queue
pub mod Kernel
pub mod Sched
pub mod UserCalls
pub mod Shell
pub mod Spawn
pub mod Ipc
pub mod Memory
pub mod Fork
pub mod Syscalls
pub mod Files
pub mod Input
pub mod Interrupts
pub mod Dispatcher
pub mod Text
pub mod Console
pub mod System
pub mod Examples
