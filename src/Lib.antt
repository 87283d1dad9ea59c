-- ===== src/Lib.antt =====
-- KnitOS is an operating system kernel for 32-bit x86 in C++. This library models parts of it
-- that keep state and that other parts rely on: the scheduler with its tasks, the kernel heap,
-- the channels between tasks, the disk cache, the mount table and the file system in memory,
-- the loader of programs, and the core of the network stack. Each model is a translation of the
-- source, function by function and under the same names; the theorems about it stand in modules
-- below it.
--
-- How the parts meet in the kernel. The scheduler takes stacks from the heap, starts a program
-- from its ELF image, and holds references on pipes, pseudo terminals, sockets and open files,
-- which it gives back when a task ends. Pipes and pseudo terminals are what system calls read
-- and write for a task. The file system reads and writes sectors through the cache, which owns
-- the disk driver, and finds its disk by the mount table. A network driver takes a buffer from
-- the pool and pushes it on the queue of its interface; the packets that are popped go to ARP
-- or through IP to TCP, which answers through the routing table and the ARP cache.
--
-- What is where. Base passes the library's names on and holds the shared lemmas: Base.Tests on
-- Boolean tests, Base.Lists on lists as C arrays, Base.Find on the search for the first fitting
-- slot, Base.Tables on a table as a map, Base.Relate on two lists that agree place by place.
-- Sched is kernel/sched/task.cpp: Sched itself the state, Sched.Switch and Sched.Slice the
-- choice of the next task and the timer, Sched.Table the slots, Sched.Fds the descriptors,
-- Sched.Slots the user stacks, Sched.Create and Sched.Spawn the ways to make a task, Sched.Kill
-- the ways to end one, Sched.Block sleeping and waking, Sched.Identity users and groups,
-- Sched.Queries what is read of a task. Memory.Heap is kernel/heap.cpp: its free list is the
-- list of the blocks in address order. Ipc.Ring is the ring buffer of kernel/pipe.cpp and
-- kernel/pty.cpp, Ipc.Pipe and Ipc.Pty are those two files. Storage.Cache is
-- kernel/fs_cache.cpp over a disk that may fail, Storage.Mount is kernel/mount.cpp, Storage.Ram
-- is kernel/ramfs.cpp, Exec.Elf is kernel/elf.cpp. In kernel/drivers/network, Net.Route is
-- protocols/route.cpp, Net.Arp is protocols/arp.cpp, Net.Queue is core/net_queue.cpp and
-- core/skb.cpp, and Net.Tcp is protocols/tcp.cpp and protocols/tcp_connection.cpp:
-- Net.Tcp.Slots the connection table, Net.Tcp.Input the handler of a segment, Net.Tcp.Output
-- the sender, Net.Tcp.Format the bytes of a segment and its checksum, Net.Tcp.Wire the way from
-- those bytes to the handler. Net.Ports is core/net_ports.cpp, which asks the connection table
-- who listens, and Net.Ports.Print its print. Each Tests module runs the models on concrete
-- data.
--
-- How it is modelled. State is a record that each operation takes and returns, and a static
-- table is a list of records. A pointer into a table is an index, an address in the heap is an
-- offset into the arena, a null pointer or a return of -1 is none or false, and an array with
-- the number of its elements in use is the list of those. Numbers are natural numbers; where
-- the source computes with 16 or 32 bits and can leave that range, the reduction is written
-- out. What other tasks do while a call yields or sleeps is the next entry of a schedule, a
-- list of functions on the shared object; a call whose schedule ends while it waits says so.
-- Code outside the files above is an argument: the disk driver, the clock, the default
-- interface, the number of disks. The interrupt locks around a call are taken as given.
--
-- Loops and fuel. A loop over a table is recursion on the list. The search for the next task
-- looks at each of the 32 slots once. The recursion that ends the children of a task has the
-- number of slots as its depth, which is enough while parents form no cycle. The lookup of a
-- path has its length as fuel: a round takes at least one byte. The search for an ephemeral
-- port has the 16384 rounds of the source, one for each port. The searches of the heap carry
-- the guard of 100000 rounds that the source has; the arena has room for fewer than 43691
-- headers. The loop that sends data has the number of its bytes as fuel: a round that does not
-- leave the loop sends at least one. The checksum folds its carries twice: the first round
-- leaves at most 131070 of a 32-bit sum, the second at most 65535.
--
-- What is not modelled. A pointer that the heap did not hand out, since there the source writes
-- into other data. The calls of TCP and ARP that wait by polling the network driver. The call
-- that closes a listening port through its socket. Of the scheduler, task_exec_user_argv with
-- the stack that it prepares, and the registers that a switch saves; what the paging code
-- returns is an argument. The file system on the disk, the virtual file system, the system
-- calls, the users, the other network protocols, cryptography and the shell are not modelled.
-- The drivers are mostly input and output on hardware ports.
pub mod Base
pub mod Memory
pub mod Ipc
pub mod Storage
pub mod Net
pub mod Exec
pub mod Sched
