-- ===== src/Lib.antt =====
-- SymphonyPlus: a Linux 0.11 port, its C compiler, assembler and instruction simulator, for a computer that is built
-- in a game. The programs of the repository work in a chain: the compiler makes assembly text, the assembler
-- encodes it with the instruction table, the machine (or the simulator) runs the bytes, and the kernel port
-- runs on it as the resident program that schedules user processes in one fixed memory window.
--
-- What is modelled, and where:
--
-- - emu/isa.c, emu/isa.h (Isa): the instruction table with its 76 entries (`Isa.Table`), the search by
--   name, the register names and the encoder `isa_encode` (`Isa.Encode`). `OP_NONE` entries, which the
--   encoder skips, are left out of the table. `Isa.Fields`, `Isa.Writes` and `Isa.Operands` read bit
--   fields of a word, and `Isa.Decode` and `Isa.Known` have the theorems.
-- - emu/asm.c, emu/asm.h (Asm): the two passes of `asm_assemble`, in the variant that is built for the machine
--   itself (SP_NATIVE). `Asm.Scan` has the text (lines, blanks, numbers, names), `Asm.Labels` the label
--   table, `Asm.Operands` and `Asm.Emit` the lines, and `Asm.Passes` the loops. A line is a list of
--   characters; an error is a value with the line's number. Whether `realloc` finds room is a parameter, the table
--   starts empty, and numbers go through the `strtoul` of the user library. A capacity is taken to be
--   below 2 ^ 31, so that sizes fit an `int`. `Asm.Variants`, `Asm.Agree`, `Asm.Lines` and `Asm.Addresses`
--   compare the two passes, and `Asm.Output`, `Asm.Table` and `Asm.Loop` have the other theorems.
-- - emu/emu.c, emu/emu.h (Emu): `emu_run_ex`, a loop over a switch. `Emu.State` has its variables (`Cpu`), the
--   big-endian accesses and the options, `Emu.Decode` the labels of the switch, `Emu.Exec` its cases,
--   `Emu.Run` the loop, its ends and the set-up. Memories are functions from addresses to bytes beside
--   their sizes. The callbacks of the options are functions: the keyboard gives the answer of its n-th
--   call, and the observer is a test on the count and the machine. `printf` of the debug output becomes a
--   list of the printed numbers. The two `calloc` are taken to succeed.
-- - runtime/divsi3.c (Runtime): signed division and remainder by the machine's unsigned instructions.
-- - Reference/Linux-0.11-main/kernel/symplus/tick.c (Kernel.Tick): the clock's division.
-- - Reference/Linux-0.11-main/kernel/symplus/process.c (Kernel.Process): `State` and `System` have the static
--   variables, `Users` the checks of user addresses, `Tasks` `activate`, `fork_current`, `exit_current`,
--   `wait_current` and `wait_ready`, `Terminal` the keyboard ring and its reader, `Interrupt` `descendant`,
--   `terminal_interrupt` and `poll_io`, `Calls` `perform` and `Dispatch` `sp_dispatch`. The scheduler's loop
--   is recursion on the list of what the hardware answers in the polls to come, and gives no result if it
--   still waits after them. `Switch`, `Wait`, `Exit`, `Handoff`, `Line`, `Read`, `Resume` and `Turn` have the
--   theorems, `Valid`, `Kept`, `Performed`, `Scheduled`, `Served`, `Ended`, `Still` and `Swept` what they rest on. The arrays
--   are functions on the slots 1 to 8. What a task holds of the file system, the file system with its
--   calls, and the loader of programs are parameters (`Platform`).
-- - Reference/Linux-0.11-main/fs/symexec.c (Kernel.Exec): `sp_execve`, which fills the place of the loader in `Platform`.
--   `Arguments` has the copies of the name and of the argument strings, `Image` the header and the new user
--   image, `Load` the calls of the file system and the commit. `Loader` is the file system as a parameter.
--   The staging areas are values, since nothing else of the kernel uses them. `Commit`, `Handover`, `Layout` and `Fuel` have
--   the theorems, `Vectors`, `Given`, `Words` and `Same` what they rest on.
-- - Reference/Linux-0.11-main/fs/minix_disk.c and kernel/blk_drv/symdisk.c beside it (Kernel.Disk): `Minix` has the numbers,
--   inodes and super blocks of the disk, and `Request` the driver, whose queue is the list of the requests' numbers. The
--   instructions of the disk are a parameter (`Device`), with their laws in `IsDevice`, and the calls of `wake_up` a
--   list. `Inode`, `Reread`, `Transfer` and `Queue` have the theorems.
-- - user/native/convert.c and parts of user/native/string.c (User): `User.Convert` has `number`,
--   which reads the text as a list of characters, and `User.Value` the value of its digits; `User.Copy` has
--   `memcpy` and `memmove` on memory, `User.Search` `strncmp` and `strstr` on lists.
-- - user/lib/shell_parse.c, user/include/shell.h (User.Shell): `sh_parse`. The words of the storage are lists of
--   characters, with the count of the storage's characters beside them. `Words` is the first loop and
--   `Parse` the second one; `Stores` has the stores of the first one, as a list. `Limits`, `Stored` and `Loop` have
--   the theorems, `Storage` and `Left` what they rest on.
--
-- - symcc/src/obj.c, symcc/src/obj.h (Symcc.Object): `Lines` has the label and the size of a line, `Model` the object, `Write`
--   `obj_write` and `Read` `obj_read`, with SP_NATIVE or without. A file is the list of its characters, none of them NUL, and where an
--   object is written to is a parameter (`Sink`). `Roundtrip` has the theorem, `Clean`, `Scan`, `Declared`, `Symbols`, `Reread` and `Written`
--   what it rests on. A `long` is an integer.
--
-- - symcc/src/link_image.c (Symcc.Image): the layout of an image by `symld_link_ex`, up to the output. `Table` has the symbols and the
--   positions, `Sizes` the sizes of lines and `Layout` the loops; the objects are given with the start code's as the
--   first one. `Placed` has the theorem, `Apart`, `Failed` and `Follow` what it rests on.
--
-- An integer of the source is a natural number below the width of its type, with the wrap-around written
-- out; an `int` is its 32-bit pattern. `Base` has these operations (`Base.Word`), lemmas on the bitwise ones
-- (`Base.Bits`), the integers (`Base.Int`), lists and character codes.
--
-- Bounds and fuel: the loop of the simulator is bounded in the source by the limit on instructions, and
-- that limit is the model's recursion argument, while the test behind the loop keeps the wrap-around of its
-- 64-bit counter. The clock's loops have 32 rounds each, `user_string` 4096,
-- and those of the process table one for each of the eight slots: lists and counts of those lengths are
-- their recursion arguments, so that no fuel can run out. The lines of an assembly text and the words of a
-- command line are found with as much fuel as the text has characters, which two theorems show to be enough;
-- the bytes of a program are read with one turn for each, and `Kernel.Exec.Fuel` shows that more make no difference.
--
-- Not modelled: the compiler, the linker's output and relocation, the user programs and the rest of
-- their library, the terminal
-- output, the start of the kernel (`sp_boot`), and the copy of the Linux 0.11 kernel
-- around them.
pub mod Base
pub mod Isa
pub mod Asm
pub mod Emu
pub mod Runtime
pub mod Kernel
pub mod User
pub mod Symcc
