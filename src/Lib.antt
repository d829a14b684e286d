-- ===== src/Lib.antt =====
-- AgentC: the Edict language, the arenas of its values and the Root1 coordination layer.
--
-- Edict is a small stack language. A source goes through the tokenizer and the compiler into
-- bytecode (edict/edict_compiler.cpp), which the virtual machine reads instruction by instruction
-- (edict/edict_vm_core.cpp). In the interactive loop the lines of a block are collected first, by the
-- block accumulator (edict/block_accumulator.cpp). A logic engine searches for answers to goals
-- (kanren/kanren.cpp). Programs that run side by side share resources
-- through the Root1 broker (core/root1_resource_broker.cpp), which keeps the owner of each resource
-- in a word, a queue of waiters beside it, leases that end at a tick, and a mailbox for each
-- participant; slots of a coordination slab outlive a broker. Values live in arenas: slabs of slots and
-- slabs of bytes (core/alloc.h), which hold trees of names and rings (core/container.h) and are saved
-- as images (core/alloc.cpp).
--
-- Files:
--   Prelude: names of the libraries; Boolean tests on numbers, lists, byte strings, maps.
--   Core/Reader: appendPod, readPod and the other functions of arena_persistence_detail; a reader is a
--     state monad on the cursor and the bytes behind it. Reads: what was written is read.
--   Core/Images: serializeArenaRootState, serializeArenaSlabImage and their readers.
--   Core/Containers: AATree (AaTree, with the order of names in NameOrder) and the saved form of the
--     nodes of AATree and CLL (SavedNodes).
--   Core/BlobAllocator: BlobAllocator on the heap. The memory of a new slab is a parameter.
--   Core/SlotAllocator: Allocator<T> on the heap for a T with a trivial destructor, a slot being its count
--     of references; Transactions has checkpoint, rollback, commit and deallocate.
--   Edict/Opcode, Edict/Bytecode: VMOpcode and the dispatch table of runCodeLoop, BytecodeBuffer
--     (edict/edict_types.h, edict/edict_types.cpp), readByte, readInt, readString and readValue.
--   Edict/Tokenizer: Tokenizer, one definition for each member function; the loops are recursions on
--     the bytes left.
--   Edict/BlockAccumulator: BlockAccumulator.
--   Edict/Compiler: EdictCompiler, as a state and error monad (Monad), the terms (Terms) and the JSON
--     forms (Json); compile itself stands in the parent.
--   Edict/Scanning: the part of runCodeLoop that passes over instructions after & and |. It runs on fuel;
--     one turn for each instruction and one more is enough where the scan ends at all.
--   Kanren/Goal, Kanren/Stream: the goals of kanren/kanren.cpp, StateStream and run. Closures are data: a
--     goal that snooze delays is a key, and the goal of a key, unification and the new variables of
--     call_fresh are the parameters of an engine. next and run have fuel; Ends has the goals for which
--     there is enough, as long as the engine's unification returns.
--   Kanren/Term, Kanren/Unify: values with the numbers of their objects, and State with walk, extend and
--     unify, on fuel, since the recursion of the source need not end.
--   Kanren/Search: the engine of kanren.cpp itself, with State, its unify and call_fresh's variables. A
--     unification out of fuel counts as failed; Returns tells the goals that ask for none, and Agreement
--     that their pulls are then the same with more fuel.
--   Edict/Rewriting: the rewriting of the top of the stack by rules (edict/edict_vm_core.cpp), at most 16
--     times after an instruction.
--   Root1/Mailbox, Root1/Descriptor: MailboxRing, MailboxDescriptor and its payload.
--   Root1/Resource, Root1/Broker, Root1/Leases, Root1/Messages: Root1ResourceBroker, each public
--     operation a function from the broker to its result and the broker after it.
--   Root1/Publication, Root1/Publishing: PublicationDescriptor and its manifest, and the publication
--     layers of the broker. The file system is a parameter.
--   Root1/Polling: attachParticipantPid and pollReadyParticipants. What epoll gives is a parameter.
--   Root1/Await: Root1AwaitScheduler on top of the broker (edict/root1_await_scheduler.cpp). A callback of a
--     continuation is a function from the descriptors to the state it returns.
--   Root1/Broker/Reachable: the broker as a transition system. An acquisition under the lock is a step
--     of its own, since the first attempt is made without the lock.
--   Root1/Broker/Frame, Quiet, Consistent, Recovery; Root1/Leases/Cells: the lemmas of its invariant.
--   Root1/Slab: the slots of CoordinationSlab.
--   Core/Tests, Core/SlotTests, Kanren/Tests, Edict/Tests, Edict/RewritingTests, Root1/Tests, Root1/AwaitTests: runs at concrete inputs.
--
-- Bytes and characters are numbers below 256, positions and lengths natural numbers; counters that
-- the code keeps in 32 or 64 bits are reduced modulo 2 ^ 32 and 2 ^ 64. A std::map or
-- std::unordered_map is an association list. A ResourceState is its word, at an address; the
-- operations on atomics and those under the broker's lock are whole. The compiler's recursion runs
-- on fuel, the length of the source and two more steps: each token takes a byte of it, so that the
-- fuel is enough. The loop that drains a mailbox has 65 rounds for at most 64 items. The search for
-- a free publication layer has 2 ^ 32 rounds, in which it meets every number of a layer. The loops
-- of the allocators run over their 4096 slabs and the 1024 slots of each. What a string or a vector
-- can hold at most is a parameter of the image readers: a longer one is the exception of the
-- container.
--
-- Not modelled: printing and traces; epoll, eventfd, mmap and the other calls of the operating
-- system, of which a wake-up alone is kept, as a log; the broker's participants on a slab; saveState
-- and loadState of the scheduler and callbacks that call it; the virtual machine beyond the reading
-- of instructions, the scan and rewriting; the transactions of the machine, whose rollback runs the
-- destructors of its values; slabs in mapped files, the destructors that a released slot runs, the
-- listree, reify and the list relations of the logic engine, null pointers and frozen values among
-- its terms, and the agent runtime.
pub mod Prelude
pub mod Core
pub mod Edict
pub mod Kanren
pub mod Root1
