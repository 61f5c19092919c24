-- ===== src/Lib.antt =====
-- choochoo-os: a small kernel for one processor and the user tasks that drive a model railway.
--
-- Parts and how they interact. The kernel (kern/) keeps the task list, one queue of tasks for each
-- priority, slabs of equal blocks for its objects and the pages of user stacks. A system call or an
-- interrupt enters it at handle_svc or handle_irq; both end in the choice of the task to run next. Tasks
-- talk by Send, Receive and Reply, and every server of user/ is a loop around Receive. The library
-- (lib/) serves both sides.
--
-- Which file models which part:
--   Base        shared names: tests, lists, integers, writes to C arrays
--   Memory      memcpy and memset of lib/util.c, and reads and writes of an int
--   ByteQueue   lib/byte_queue.c: Defs the operations, Fifo the bounded list, Refine their agreement
--   Kern.Kalloc      kern/kalloc.c: slab_init, slab_set_block_size, slab_alloc, slab_free; Alloc the search,
--                    Blocks the blocks in use, Live the list that a client keeps of them
--   Kern.AddrSpace   kern/addrspace.c: pagetable_createpage, pagetable_deletepage
--   Kern.State       the data of kern/*.h, all static variables of the kernel in the record Kernel
--   Kern.Task        kern/task_descriptor.c and kern/switchframe.c: create_task, get_task, delete_task
--   Kern.Scheduler   kern/scheduler.c, under the source's names
--   Kern.Ipc         kern/svc_helpers.c: svc_create, svc_yield, svc_send, svc_receive, svc_reply,
--                    svc_await_event; and the two calls of kern/idle-perf.c that the handlers make;
--                    Rendezvous a message in both orders, Exchange a message and its reply
--   Kern.Syscall     kern/kern.c: handle_svc and handle_irq
--   Digits           lib/util.c: ui2a, i2a, a2d and format_clock; Scale and Print its two loops
--   Hash             lib/hashmap.c: the table from names to values, under the source's names
--   LinkedList       lib/linked_list.c: the doubly linked list on a heap of nodes; Chain what it means that
--                    a heap holds a list, Append, Remove and Search the operations
--   Text             lib/string.c: strings in an array; Chars what a string holds, Copy and Compare the loops
--   User.Names       user/nameserver.c: the requests of NameServerTask
--   User.Waiting     the walks of the servers over their lists of waiting requests
--   User.Zone        user/zone-server/server.c: the requests of ZoneServer
--   User.Clock       user/clock-server/server.c: the messages of ClockServer
--   User.Switch      user/switch-server/server.c: the requests of SwitchServer
--   User.Track       user/traintrack/track_data.c and track_node.h: the nodes and edges, Post post_track,
--                    Linked what it leaves of a node, TrackA and TrackB the tables of init_tracka and
--                    init_trackb, Mirror their symmetry
--   User.Djikstra    user/pathfinder-server/helpers.c: do_djikstra and do_edge_trace; Pick the choice of a
--                    node, Relax and Kept its edges, Rounds the loop, Sound what it keeps, Shortest what it
--                    finds, Tracing and Route the array of edges, Tracks the two tracks
--   User.Io          user/io-server/server.c: the requests of IOServer; Commands interface.c and io_marklin.c
--   User.NextSensor  user/trainsys-server/server.c: find_next_sensor; Ahead where it ends
--   User.Trainsys    user/trainsys-server/server.c: the requests of TrainSystemServer; State the data, Sensors
--                    the positions, Requests the messages, Bits and Speeds the state byte, Frame what the
--                    positions leave alone, Hits the train at a sensor, Reversal and Restart the reversal
--   User.TrackWalk   user/traintrack/track_data.c: the functions that follow the track; Branches the turnouts
--                    by number, Agree the sensor ahead
--   User.TrainData   user/traindata/train_data.c and train_data.h: the track in use and the tables; Agree the
--                    zones of the track, ShortMove the times of short moves
--   User.Pather      user/pathfinder-server/server.c: the parts of PatherSimplePath; Drive the two functions
--                    that drive, Stopping and Speed the choice of a speed, Turnouts the turnouts with the
--                    switch server, Release, Account, Simple and Arrives the zones given back, Reserve the
--                    loop of PathFinderTask
--   Command          lib/command_parser.c: parse_command; Numerals and Words how it reads on, Typed and
--                    Ranges what it makes of a text
--
-- State and errors. A C array is a function from its indices, and every access to one is guarded by the
-- code or ends in a fault. A kernel operation returns its result with the new kernel, or ends in a fault
-- (a null dereference, a write outside a table, a copy of negative length) or in a loop that never ends.
-- A pointer to a task is its index in the task list; every other object carries the offset of its block.
-- Values of type int are integers, registers are numbers below 2 ^ 64 with the conversions written out.
--
-- A server is a step: it takes the sender, the message and the state that the loop keeps, and gives the
-- new state with the replies and commands that it sends, in order. The linked lists of the servers and of
-- the table are lists, as LinkedList shows the nodes to hold one, and their allocations are taken to
-- succeed. What another server answers during a step is an argument. A message whose number lies outside
-- an array of the server gives `none`.
--
-- Bounds and fuel. The loop of slab_alloc runs on fuel: with a block size above 0 it ends within
-- SLAB_ALLOCATOR_SIZE rounds. The loop over a level of the scheduler runs at most 255 rounds, since its
-- counter and its bound are bytes; the theorems on it ask for levels of fewer than 256 tasks, and the
-- kernel creates at most 127.
--
-- The two loops of ui2a run on fuel for 34 rounds: a number of 32 bits has at most 32 digits in any base
-- from 2 on.
--
-- The loop of do_djikstra runs on fuel for 145 rounds and do_edge_trace for 132 calls: a round visits one
-- more of 144 nodes, and the recursion stops itself at 131.
--
-- find_next_sensor runs on fuel for 6 rounds: on both tracks no more than 5 nodes lie between sensors.
-- track_next_sensor has one round more, for the null pointer.
--
-- Not modelled: device registers, the interrupt controller and the timer, whose readings are arguments
-- of the handlers; the assembly that saves and restores registers; logging; user programs, of which
-- only the servers named above are modelled; measurements/, a separate program; drawing on the terminal.
pub mod Base
pub mod Memory
pub mod ByteQueue
pub mod Kern
pub mod Digits
pub mod Hash
pub mod LinkedList
pub mod Text
pub mod User
pub mod Command
