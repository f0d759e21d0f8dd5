-- ===== src/Lib.antt =====
-- Agentic OS: a capability kernel. Authority over kernel objects is held in capability tables, every
-- use is checked and audited, messages pass through endpoints, pages come from bitmaps, and drivers
-- that crash are restarted within a budget.
--
-- Which file models which part:
--   Capability (kernel_rs/src/capability.rs, kernel_rs/src/policy.rs): `KernelObject`, `Capability`
--     and the table are records and lists; create_object, grant, resolve, derive, derive_self and
--     revoke are functions of the same names that pass the kernel's state on; Capability/Files has the
--     searches for file capabilities. Capability/World puts
--     them together as the steps of any number of processes.
--   Audit (kernel_rs/src/audit.rs): record is `record_event`. Capability and Ipc write through it.
--   Ipc (kernel_rs/src/ipc.rs): try_send and try_receive go through `resolve` of Capability; their
--     queue parts are `enqueue` and `dequeue`. Ipc/Rendezvous has the blocking send and receive, each
--     access to the endpoint as a step, for one sending and one receiving thread.
--   Bitmap (kernel_common/src/bitmap.rs, kernel_common/src/lib.rs, kernel_common/src/pagetable.rs).
--   Pmm (kernel_rs/src/pmm.rs): alloc_page, free_page and reserve_range over Bitmap.
--   Devices (kernel_rs/src/device_manager.rs, kernel_common/src/supervision.rs): the list of devices
--     and the restart policy; crashes are audited.
--   AuthorityGraph (kernel_common/src/authority_graph.rs,
--     kernel_common/src/impossibility_certificate.rs, kernel_common/src/discovered_envelope.rs).
--   Discovery (kernel_common/src/driver_registry.rs, kernel_common/src/madt.rs).
--   EventQueues (kernel_rs/src/events.rs, kernel_rs/src/input_queue.rs).
--   FileSystem (kernel_common/src/ext2.rs): the allocation bitmaps; FileSystem/Records has inode records
--     and directory entries, Directory their changes, Paths the walk of a path, Parts
--     its components, Parents its last one, Builders the blocks of a new file system.
--   AuditRing (kernel_common/src/audit_ring.rs), Tpm (kernel_common/src/tpm.rs), Geometry
--     (kernel_common/src/geometry.rs), FramePacing (kernel_common/src/frame_pacing.rs).
--   Manifest (kernel_rs/src/manifest.rs): the kinds that an application may hold.
--   Threads (kernel_rs/src/thread.rs): one record of queue, current thread and zombie for each
--     processor. Threads/Schedule is schedule_locked, with `Switch` for what switch_to loads;
--     Threads/Current the calls about the current thread; Threads/Grants the spawns that give
--     capabilities, over Capability and Manifest; Threads/Ports the I/O bitmaps of
--     kernel_rs/src/gdt.rs. Threads/System puts the calls together as steps of any processors.
--   Heap (kernel_rs/src/heap.rs): the free list; Heap/Grow is the allocator over Pmm.
--   Supervisor (kernel_rs/src/supervisor.rs): the registry of drivers over Devices.
--   Base: tests on numbers, lists, rings, results and bitwise laws that the parts share.
--
-- Conventions. Integers are natural numbers with the wrap-around of the release build written out.
-- What runs with interrupts masked and under the kernel's lock is one step; derive, which takes the lock
-- for its check and again for its push, is one step too. An index out of bounds,
-- which panics, is `none`. An output slice is its length and the entries written to its front. Log
-- lines are left out. The address that an allocation returns, and the hash of Tpm, are arguments.
--
-- Bounds and fuel. alloc_page calls itself at most once, so fuel 2 is enough; the walk of the MADT
-- moves on by two bytes in each round, so the number of bytes is enough; the walk of a directory
-- block moves on by eight bytes, so 129 rounds are enough for 1024 bytes; the components of a path
-- are no more than its bytes. Counters of events and
-- generations are u64; where a history must be shorter than 2 ^ 64, the theorem says so.
--
-- Not modelled: pmm's init, the log of switches, system calls, page tables in memory, cryptography,
-- animation, several senders or receivers of one rendezvous at once, drivers, the rest of the user interface and user programs.
pub mod Base
pub mod Audit
pub mod Capability
pub mod FileSystem
pub mod Ipc
pub mod Bitmap
pub mod Pmm
pub mod Manifest
pub mod Supervisor
pub mod Heap
pub mod AuditRing
pub mod Tpm
pub mod Geometry
pub mod FramePacing
pub mod Threads
pub mod Devices
pub mod AuthorityGraph
pub mod Discovery
pub mod EventQueues
