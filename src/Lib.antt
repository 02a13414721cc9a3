-- ===== src/Lib.antt =====
-- The Vibra kernel (kernel/src): models of its parts and what holds of them.
--
-- Parts and files:
-- Task: the preemptive scheduler, kernel/src/task/mod.rs. `Scheduler` and `Task` are the source's
-- structs. Task/Switch.antt has the interrupt handlers `tick_and_switch`, `softirq_handler` and
-- `note_tick`, Task/Api.antt has `init`, `spawn`, `exit_task`, `sleep_task`, `wake_task` and the
-- readers. The outcome of `try_lock`, the clocks and the stacks that the heap gives are
-- arguments. Task/Search, Invariant, Reach, Fairness, Timing and Percpu hold the
-- proofs.
-- Memory.Pmm: the frame allocator, kernel/src/memory/pmm.rs, function by function, over the bytes
-- of the bitmap. MAX_FRAMES is the argument `max_frames`; the
-- boot loader's memory map is an argument too, whose usable entries begin at a page, as its protocol says. Memory/Bits.antt has the bits of a byte.
-- Memory.Heap: the kernel's heap, kernel/src/memory/heap.rs. Memory/Heap.antt has `FreeList` over
-- memory read as nodes by address (`cells`), with `allocate`, `insert_block` and `deallocate`;
-- Memory/Heap/Regions.antt `add_region`, `init` and the walks; Memory/Heap/Grow.antt the allocator
-- of the kernel with the frame allocator behind it. Memory/Heap/Blocks.antt is the specification:
-- first fit and giving back on a sorted list of blocks, with Pieces, First and Back on it. Chain says which blocks memory holds; Links,
-- Take, Fit, Merge and Free follow the writes; Contract, Release and Promise have the results.
-- Net: kernel/src/net. Net.antt has the statics as one record with the frames given to the driver,
-- and `send_ethernet`; Net/Arp.antt is arp.rs, Net/Ip.antt and Net/Checksum.antt the sending side
-- of ip.rs, Net/Receive.antt the receiving side with icmp.rs. A frame is cut to the 2048 bytes of the
-- e1000 driver's buffers (drivers/e1000.rs). Whether that driver takes a frame, the clock, and the ARP packets that other tasks handle while `resolve` waits, are
-- arguments (`World`, `Turn`).
-- Fs: kernel/src/fs. Fs.antt has the types of vfs.rs, Fs/Names.antt the paths as lists of bytes,
-- Fs/Ramfs.antt the file system in memory of ramfs.rs with its open files in Fs/Ramfs/Handle.antt
-- (the handles share one state, as behind the source's `Arc`), Fs/Mount.antt the mount table of
-- mount.rs, in which a file system is a number. Fs/Disk.antt is the trait of a disk (disk.rs) as an
-- interface with laws, of which Fs/Disk/Memory.antt is an instance, and the window of a partition
-- (partition.rs), Fs/Disk/Partition.antt, makes another; Fs/Partition.antt parses the MBR and the GPT, and its Detect names the file system on a partition. Fs/Fat32.antt is the table of fat32.rs with its chains, over any such disk;
-- Fs/Fat32/Write.antt writes ranges, Dir.antt and Dir/Find.antt have the directory entries and the search
-- of paths, Boot.antt the boot sector, Volume.antt and Volume/Handle.antt the operations of a volume and
-- of an open file, Volume/Session.antt calls of both in any order. A fault of a disk is an answer of the disk; the clock is an argument.
-- Entries and RoundTrip see the table on the disk as a function, Links says which clusters it links;
-- Write/Sectors, Clusters, Content and Range follow the bytes of a write.
-- Script: the script language, kernel/src/script. Script.antt has the tokens and the syntax, Lexer,
-- Parser, Parser/Statements and Vm are the tokenizer, the expressions, the statements and the virtual
-- machine; Front is what `run_script` does before it runs. What the machine shows is a list of
-- events; reading and printing numbers are arguments.
-- Common: tests, lists, words and bytes that the parts share.
-- The heap takes its regions from the frame allocator; the scheduler and the network stack use the
-- heap for stacks and buffers, which their models take as given. A handler of the network stack runs
-- inside a task, of which only its waiting shows.
--
-- Integers are natural numbers with their wrap-around written out, as in a release build (a build
-- with overflow checks panics where this wraps). `usize` is 64 bits wide. Vectors grow without
-- failure. In the heap, regions end well below 2^64 (2^33 bytes of room) and sizes and alignments go
-- up to 2^32. A position in a file plus a length stays below 2^64.
--
-- Loops on fuel: `search_ready` has as much fuel as there are tasks, which one turn of the table
-- needs; `search_run` has `search_fuel`, four turns per frame and two, since every turn that is not
-- counted in `checked` is followed by one that is; `fold_carry` has two rounds, which a 32-bit sum
-- needs. The walks over the free list of the heap need one turn more than there are blocks, and say
-- so when their fuel ends; the tokenizer and the parser have as much as there are characters or
-- tokens, and one; the iteration limit of `while` is an argument; `join_regions` has one turn more
-- than there are regions. `chain` of FAT32 has the source's limit, two more than there are clusters and
-- one; the search for a free cluster has one turn for each, and the MBR's logical partitions the source's 128. The loop of `resolve` ends with the list of its turns in the answer
-- `still_waiting`.
--
-- Not modelled: `Call` and `call_fn` of the script language, which no parsed program has, and
-- `run_file`; the context switch in assembly, `yield_now` and the user task of kernel/src/task;
-- `stress` of the heap; paging, DMA and the MTRRs; the drivers, the other file systems on
-- disks, the block devices, and the front of kernel/src/fs/mod.rs, the shell and its commands, the terminal, ACPI, the timers and the
-- program vibra/: for the most part access to hardware and text output. Of
-- kernel/src/net: `ping`, which prints, `parse_ip`, and the serial and screen output.
pub mod Common
pub mod Fs
pub mod Memory
pub mod Net
pub mod Script
pub mod Task
