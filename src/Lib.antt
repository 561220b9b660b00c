-- ===== src/Lib.antt =====
-- minidos, an operating system for 32-bit PCs: a model of its kernel, with the theorems that make
-- it correct.
--
-- The parts. src/kernel/time/timer.c counts timer interrupts and converts milliseconds to ticks.
-- src/kernel/process/scheduler.c keeps a table of eight processes, prepares their kernel stacks
-- and switches between them on timer ticks, yields, sleeps, exits and terminations; it reads the
-- timer, and it calls src/kernel/memory/paging.c to load page directories and to unmap the guard
-- page below each stack. src/kernel/storage/drive.c finds the volumes and partitions on the disks,
-- gives them the letters from A: on and transfers their sectors. src/kernel/storage/fat16.c mounts
-- the volume of a drive, reads and writes its file allocation table, and allocates, clears and
-- frees clusters; on it, src/kernel/storage/fat16_dir_lookup.inc finds and lists the entries of
-- directories and src/kernel/storage/fat16_dir_mutation.inc creates, changes and deletes them.
-- src/kernel/storage/fat16_file.c writes, reads and copies files on these.
-- src/kernel/input/keyboard.c decodes the scancodes that its interrupt handler or its polling
-- fallback reads into a ring of characters, from which the shell and the applications take them.
-- src/kernel/input/mouse.c assembles packets of three bytes and keeps the cursor.
-- src/kernel/time/rtc.c reads and sets the real-time clock through the CMOS registers.
-- external_apps/runtime/ui/ui_rect.h is the algebra of rectangles on which the window manager of
-- the applications draws.
--
-- The files. Timer: timer.c, a function for each of its functions; Timer/Laws and Timer/Sleep are
-- about them. Memory: the memory as 32-bit words by address, which the stacks and the page tables
-- share. Process: process_t and the helpers of scheduler.c that fill one slot; Process/Slots what
-- they keep, Process/Fresh what they clear. Paging: the page-table walk, unmapping, the registers,
-- and the page directory of an application; Paging/AppDirectory and Paging/Built the entries of
-- its tables. Scheduler: the state of scheduler.c, the search for slots and the preparation of a
-- stack; Scheduler/Switch the operations that an interrupt runs, Scheduler/Manage the calls that
-- start the runtime, spawn, end and describe processes. Scheduler/Invariant is the well-formedness
-- of the table; Steps, Spawn, Init and Reach show that it is kept, over the relation Reach whose
-- steps are the interrupts and calls; Free is about the search for a slot, Spawned and Frame about
-- the slot and the stack of a new process, Pick, Resume, Exit, Sleep and Guard say what the
-- operations do, and Progress what repeated switches come to. Fat/Geometry: the layout of a
-- volume; Fat: the entries of its table; Fat/Entry: those entries as a function of the bytes of
-- the disk; Fat/Write, Fat/Copies and Fat/RoundTrip: a write of an entry in one copy of the table,
-- in one copy seen from another, and in all of them. Fat/Alloc: fat16_init and the operations on
-- clusters; Fat/Mounted what an accepted volume guarantees, Fat/Entries and Fat/FirstFit
-- allocation, Fat/Chains and Fat/Free the freeing of a chain, Fat/Zero the clearing of a cluster.
-- Dir/Name: the names of entries, file names and patterns, as lists of bytes; Dir/Entry: an entry
-- and its 32 bytes; Dir/Walk: the nested loops over a directory, with the body as a parameter;
-- Dir: the functions of fat16_dir_lookup.inc; Dir/Change, Dir/Edit and Dir/Remove those of
-- fat16_dir_mutation.inc. Dir/Wildcard says what a pattern means, Dir/Match which entries a file
-- name takes, Dir/Format and Dir/Shown what is made of a file name, Dir/Bytes and Dir/Written
-- relate entries to bytes, Dir/Lost says what a deletion by pattern leaves, Dir/Steps, Dir/Search
-- and Dir/Sectors follow the rounds of the searches for an entry and for a free slot, and
-- Dir/Created puts a creation and a search after it together. File: the writing and copying of
-- files; File/Read their reading; File/Ends says that the reading ends, File/Content what is read
-- of what was written. Drive: the array of drives, the current drive and the transfers;
-- Drive/Detect the search for volumes and partitions; Drive/Listing what is printed; Drive/Scanned
-- and Drive/Probed are about the array after the search of a disk and after the detection,
-- Drive/Volume about the detection and the mounting of a volume, Drive/Current about the current
-- drive and the sectors of drives, Drive/Shown about printed numbers. Keyboard/Scancodes: the
-- tables of characters; Keyboard/Decode: the two decoders; Keyboard: the ring, the filters and the
-- interrupt handler; Keyboard/Input: polling, the readers and the line editor. Keyboard/Ring shows
-- the ring to be a queue; Strokes, Typing and Agree say what a stroke of a key adds in either
-- scancode set, Retype when a second stroke is lost; Line is the editor, Events and Polls the
-- sequences of interrupts and calls. Mouse and Mouse/Cursor: packets and the cursor. Rtc: the
-- functions of rtc.c; Rtc/Clock, Rtc/RoundTrip and Rtc/Dates: numbers, times and dates. Rect:
-- ui_rect.h; Rect/Span, Meet, Edges, Strips, Subtract and Dirty: rectangles as sets of points. A
-- module called Tests, and Fat/Volumes, holds concrete runs. Common holds what the parts share.
--
-- How the code is translated. A function takes the state and returns the new state with its
-- result. A stack frame pointer is its address, and 0 is null. An index or pid that can be -1 is
-- an Option, where the code only asks whether it is -1; the pid of a process is an integer.
-- `unsigned int` arithmetic keeps its wrap at 2 ^ 32, and `x | y` of disjoint bits is a sum. The
-- operations of the scheduler run with interrupts off, so that each is one step. Code addresses
-- (the trampolines, the idle thread) and the kernel's page directory are parameters, in the record
-- Linkage. For timer_sleep_ticks the timer interrupts between two readings of the counter, within
-- a halt or outside of it, are a list of numbers. A disk is a function from sectors to bytes with
-- the sectors whose transfer fails; the mounted volume keeps the one of its drive as its device.
-- The bytes that the ports of the keyboard and the mouse answer are arguments of the functions
-- that read them; the ring of characters is a list of 128 with its two indices, and the time is an
-- argument where the code asks the timer. The CMOS registers are a function from their numbers,
-- and the readings that the loops of rtc.c take are a list of attempts. The coordinates of
-- rectangles are integers without a bound, and a rectangle is compared with others by the points
-- it contains.
--
-- Fuel. There is none beyond the code's own bounds: the loops of the scheduler run over eight
-- slots, those of the table over the copies that the volume has, and the sleep loop recurs on the
-- list of the readings that are to come, with a theorem that it ends when enough timer interrupts
-- come between them. The loops over the clusters of a directory have no bound in the code; they
-- take fuel and end in the outcome hang where it is spent. So do those over the clusters of a file
-- that is read, with a theorem that one step for each byte of the file is enough; the writing and
-- the copying of a file have the bound of the code. The freeing of a chain has the bound of the
-- code, one step for each cluster of the volume, with a theorem that it is enough for every chain.
-- The loops that read the clock take the safety counter of the code, 100000. The waits for a key
-- recur on the rounds that are to come.
--
-- Not modelled. The self-test and the listing snapshot of scheduler.c; the set-up of the PIC, the
-- IDT and the TSS and the dispatch of interrupts in paging.c, which is port input and output;
-- fat16_set_drive, which changes the device of a mounted volume; the transfers of disk.c; the
-- messages of the code to the screen and the serial port, but for listings; video, shell, system
-- calls, the window manager and the applications, which are mostly input and output.
pub mod Common
pub mod Timer
pub mod Memory
pub mod Process
pub mod Paging
pub mod Scheduler
pub mod Fat
pub mod Keyboard
pub mod Rtc
pub mod Mouse
pub mod Rect
pub mod Dir
pub mod Drive
pub mod File
