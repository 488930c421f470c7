-- ===== src/Lib.antt =====
-- A model of parts of libvma, the library that takes over the sockets of a program and serves them
-- over the network adapter itself. libvma is loaded into the program; its socket objects
-- (src/vma/sock) take buffers from pools (src/vma/dev), are told by rules of a configuration file
-- which connections they are for (src/vma/util), put fragments of IP packets together
-- (src/vma/proto), and are driven by timers (src/vma/event) and by state machines of which the
-- neighbour entries are the main user (src/state_machine). Each file says at its top which code it
-- models.
--
-- Prelude: names of the libraries that all files share, lists and integers over machine numbers
-- (Lists, Int, Word), and fields of objects as functions of their addresses (Store), with chains
-- through a `next` field (Chain).
--
-- StateMachine: src/state_machine/sm.cpp and sm.h. Fifo is sm_fifo.cpp; Table is
-- process_sparse_table, which makes the full table of a machine from its short one; Process is
-- process_event with lock_in_process, unlock_in_process and the transition. The functions of a
-- client (state entry and leave, transition, notification) are a parameter: what one does to the
-- machine is to post events, so that it is the list of the events it posts. The recursion of
-- process_event is on fuel, of which one unit goes to each event.
--
-- Timer: src/vma/event/delta_timer.cpp. Clock has the time arithmetic of src/utils/clock.h; Nodes
-- has the list of timer nodes, each with the time to the one before it, and the calls that add, wake
-- and remove nodes; Update has the passing of time and the round over the timers that are due. The
-- handlers of timers are outside; a round is the list of the calls that it makes.
--
-- IpFrag: src/vma/proto/ip_frag.cpp. Key is the key of a datagram; Holes is the list of what is
-- missing and the steps of RFC 815 on it; Manager is ip_frag_manager with its pools of descriptors,
-- add_frag, the timer and the destructor. The walk to the end of a chain of buffers takes fuel, and
-- the length of the chain is enough.
--
-- BufferPool: src/vma/dev/buffer_pool.cpp. The free list is a chain through p_next_desc in a memory
-- of buffers. The loops over a chain take fuel, and one more than the length of the chain is enough.
-- Create is the constructor, which splits one block of memory into buffers and descriptors; the size
-- of a descriptor is a parameter. Cycle is isCircle, whose fuel is a bound on the number of steps.
--
-- RingAllocation: src/vma/dev/ring_allocation_logic.cpp. The root has the key of a socket's ring and
-- should_migrate_ring, Cpu has cpu_manager, which attaches threads to cores. What the thread library
-- and the environment give is a parameter.
--
-- DeviceMemory: src/vma/dev/dm_mgr.cpp, the memory on the adapter that copy_data and release_data use
-- as a cycle. Placement is where data goes and which bytes are in use; Data is the copying.
--
-- ChunkList: src/vma/util/chunk_list.h, a queue in containers of 64 pointers. Holds says when a list
-- is a queue; Writing, Pushing and Popping are about push_back and pop_front, Fifo about calls in any
-- order, Faults about calls that find no memory.
--
-- CacheTable: src/vma/infra/cache_subject_observer.h, the shared entries from which routes, neighbours
-- and net devices are made, with subject_observer.cpp in Observers. Slots is about one change of the
-- table, Valid says that keys and observers are there once, Registered follows one observer through
-- the calls, Collect is the garbage collection, Calls and Kept are about calls in any order.
--
-- FdCollection: src/vma/sock/fd_collection.cpp, the sockets behind the file descriptors, with
-- handle_close of sock-redirect.cpp. Owned counts where a socket is, Steps is about calls in any
-- order, Waiting about a timer that cannot be registered.
--
-- HashMap: src/vma/util/hash_map.h and hash_map.inl, a map in 4096 buckets with the node found last.
-- Holds says when a map stands for a function from keys to values; Chain is about one bucket, Table
-- about a change of one among all, Run about calls in any order. How keys lie in memory is a
-- parameter.
--
-- Match: src/vma/util/match.cpp. Address is __vma_sockaddr_to_vma; Rules is the test of a connection
-- against the rules of a list; Program is the choice of an instance of the configuration and
-- __vma_match_by_program. fnmatch is a parameter.
--
-- Route: src/vma/proto/route_table_mgr.cpp, rule_table_mgr.cpp, route_val.cpp, rule_val.cpp,
-- route_entry.cpp and netlink_socket_mgr.h. Val has routes, rules and the table that holds them, Rules
-- the rules for a destination, Lookup the search of a route, Source the source addresses of the
-- routes, Parse the netlink messages and events of routes, Entry the entries that destinations keep.
-- The net devices, the ioctl and if_indextoname are parameters, and a netlink message is the list of
-- its attributes. The do-while loop of rt_mgr_update_source_ip takes fuel, of which one unit goes to
-- each round, and one more than the number of routes is enough.
--
-- How they meet in libvma: the reassembly and the sockets give buffers back to the pool with
-- put_buffers_thread_safe, the event handler asks the timer list for its next timeout and runs the
-- round, and the neighbour entries post their events into a state machine. Each call of a modelled
-- class holds the class's lock where the source takes it, so that a sequence of calls is a sequence
-- of steps.
--
-- Not modelled: the adapter's queues and rings (src/vma/dev/cq_mgr*, qp_mgr*, ring*), which call
-- the verbs library, as do allocate_resources and release_resources of dm_mgr; what a socket does and the
-- interception of the C library (src/vma/sock); select, poll and epoll (src/vma/iomux); the TCP
-- stack (src/vma/lwip), which is a copy of another project; the
-- neighbours, ARP and the destinations (src/vma/proto); netlink (src/vma/netlink); logging, statistics and the parser of the
-- configuration file; the tools and tests.
pub mod BufferPool
pub mod CacheTable
pub mod ChunkList
pub mod DeviceMemory
pub mod FdCollection
pub mod HashMap
pub mod IpFrag
pub mod Match
pub mod Prelude
pub mod RingAllocation
pub mod Route
pub mod StateMachine
pub mod Timer
