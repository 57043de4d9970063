-- ===== src/Lib.antt =====
-- AevOS, a kernel that runs agents: a model of parts of its C sources, and what is proved of them.
--
-- Paths are those of the repository. The program has a micro-kernel (src/kernel: memory, coroutines,
-- capabilities, files, drivers, network), a small C library (src/lib), an agent layer on top (src/agent:
-- mailbox, event log, history, memory, skills), containers (src/container), an LLM runtime (src/llm) and
-- a user interface (src/ui). The modules below model the parts with logic of their own:
--
--   Common         names shared by all modules; Lists are C arrays over native numbers, Ring the circular
--                  buffer that the mailbox and the event log have in common, Bits and Masks the bits of a word,
--                  Errno the codes of include/aevos/types.h
--   Agent.Mailbox  src/agent/mailbox.c: init, send, broadcast, try_recv, try_recv_for on the record
--                  Mailbox (ring, head, count); Queue is the abstract queue of letters, Refine relates both
--   Agent.Eventlog src/agent/eventlog.c: init, append, snapshot on the record Eventlog; Log is the list of
--                  records that it stands for
--   Agent.History  src/agent/history.c: the ring of turns as the record History (ring, head, tail and the
--                  window of tokens); entries is the list of the live turns, and trim_full and trim_window
--                  say which ones a push gives up; a live turn whose buffer was given back is
--                  not valid; Search has history_search, Texts the texts that turns stand for
--   Agent.HistBptree
--                  src/agent/hist_bptree.c: a leaf of the index as the words that it has in memory, and its
--                  split
--   Agent.HmsCache src/agent/hms_cache.c: an entry, a table and its replacement as KvEntry, HmsKv, l1_evict
--                  and lru_evict; Levels has the three tables with their gets and puts
--   Clib.Str       src/lib/string.c: strlen, strnlen, strncpy, strcmp, strncmp, strchr, strrchr,
--                  strstr, and the decimal digits of _emit_uint
--   Clib.Lz4       src/lib/lz4.c: compress_from is the loop of lz4_compress, step a round of
--                  lz4_decompress, lz4_written what it leaves in the output, also when it fails
--   Clib.Hashmap   src/lib/hashmap.c: the table of chains; Count has the numbers of entries, from which
--                  Find tells what a lookup gives
--   Kernel.Pmm     src/kernel/mm/pmm.c: the bitmap of pages, allocation, release and pmm_init
--   Kernel.Vmm     src/kernel/mm/vmm.c for x86_64: the walk, vmm_map_page, vmm_unmap_page, vmm_get_phys over
--                  the words of the physical pages; Context has vmm_init and the contexts of agents. Tree
--                  says when page tables form a tree
--   Kernel.CapIpc  src/kernel/ipc/cap_ipc.c: the table of capability tokens
--   Kernel.Slab    src/kernel/mm/slab.c: the caches and slabs behind kmalloc, kfree, krealloc and kcalloc, on
--                  top of Kernel.Pmm
--   Kernel.Coroutine
--                  src/kernel/sched/coroutine.c: run queues as linked lists, picking, waking, coro_yield,
--                  coro_sleep, coro_exit and the timer tick; Run has coro_create, coro_init
--                  and a round of scheduler_run
--   Container.Ifc  src/container/ifc.c: the policy matrix of lc_ifc_init, flow_allowed, grant, revoke
--   Container.Docker
--                  src/container/lc_container.c and oci_runtime.c: slots and bundles with run, stop, rm, ps,
--                  which ask Container.Ifc
--   Container.Sandbox
--                  src/container/sandbox.c: the allow lists of the profiles and the gate, which asks
--                  Container.Ifc
--
-- How they interact in the program: the agents write to the mailbox and the event log from coroutines
-- that the scheduler runs, mailbox and event log are used by src/agent/agent_core.c, the page allocator
-- serves src/kernel/mm/vmm.c and the slab allocator, which serves kmalloc to most parts, and the history
-- compresses its turns. In the model each part has its own state, and an operation is a function from a
-- state to a result and a state. The heap and the page tables contain the page allocator, the history
-- calls Clib.Lz4, and
-- the containers and the gate ask Container.Ifc. What a part takes from any other one is an argument:
-- the time of timer_get_ticks, or whether an allocation succeeds.
--
-- Numbers are native naturals. A machine word has its wrap-around written out where the code can reach
-- it, and the comment at the head of each file says where sums cannot reach it. A lock is taken for the
-- whole of a call, so a call is one step. A C string is the list of its bytes up to the terminator, and
-- memory at a pointer is the list of what follows.
--
-- Loops are structural recursion on a list or on the number of rounds left, except three. The loops of
-- lz4_compress and lz4_decompress take fuel, the length of the source and one more than it, and theorems
-- say that it is enough for every input. The walk to the end of a run queue in enqueue takes fuel as an
-- argument: it ends if the fuel is at least the number of queued coroutines and the queue is intact, and
-- a damaged queue makes it run out of any fuel.
--
-- Not modelled: the context switch and the first stack frame of a coroutine, the memory functions,
-- the rest of the number conversion and snprintf of string.c, and all parts of the program not
-- named above: drivers, network, boot, architectures and user interface, which are device and
-- memory-mapped access, the LLM runtime and the vector index, which are floating-point, and files,
-- JSON, the internal nodes of the index of the history, and its serialization.
pub mod Common
pub mod Clib
pub mod Kernel
pub mod Agent
pub mod Container
