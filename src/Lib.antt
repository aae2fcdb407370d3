-- ===== src/Lib.antt =====
-- A verification library for the hypervisor: an EL2 program on AArch64 that runs guests under
-- Stage-2 translation and lets them share memory and send messages through an FF-A proxy.
--
-- The parts that are modelled, and how they interact:
--
-- * src/scheduler.rs, the vCPU scheduler: Scheduler. The state is a record with the source's three
--   fields; each method is a function on it.
-- * src/mm/allocator.rs, the page allocator: Mm.Allocator. `Heap` is the allocator and the memory
--   that it hands out, as 64-bit words by address (Mm.Words), since the free list runs through the
--   free pages themselves.
-- * src/ffa/stage2_walker.rs, the walker over Stage-2 tables: Ffa.Stage2Walker, with map_page and
--   unmap_page in Ffa.Stage2Walker.MapPage. Tables are in the memory of a `Heap`, from which new
--   tables come. Ffa.Stage2Walker.Tree has the translation of the architecture as a specification.
-- * src/ffa/mod.rs, memory.rs, mailbox.rs, descriptors.rs, notifications.rs and stub_spmc.rs: the
--   modules Ffa.Ids, Ffa.Memory, Ffa.Mailbox, Ffa.Descriptors, Ffa.Notifications and Ffa.StubSpmc.
-- * src/ffa/proxy.rs, the calls of the guests: Ffa.Proxy. `Proxy` in Ffa.Proxy.State gathers the
--   statics that the handlers read and write, over the state of the modules above; each handler takes
--   the caller's registers and that record and returns both. Ffa.Proxy.Dispatch is `handle_ffa_call`.
-- * src/vswitch.rs, the virtual switch: Vswitch. Vswitch.RxRing has the ring of a port,
--   Vswitch.MacTable the learnt addresses, Vswitch.Forward the switching over the rings of two ports.
--
-- * src/sp_context.rs and spmc_handler.rs, the partition manager at S-EL2: Spmc. `World` in
--   Spmc.World is its state; Spmc.Context has a partition and the store of partitions, Spmc.Replies
--   the answers without state, Spmc.Dispatch the dispatch and the event loop. Entering a partition
--   is an argument, a function from its Stage-2 base, registers and memory to what it leaves.
-- * src/arch/aarch64/regs.rs, hypervisor/decode.rs and `handle_mmio_abort` of hypervisor/exception.rs:
--   Arch.Regs, Arch.Decode and Arch.Abort, the way of an access of a guest to a device.
-- * src/devices/mod.rs, the device manager: Devices.Manager routes over an interface of devices, the
--   trait, and Devices.Board fills that interface with the devices of the enumeration.
-- * src/devices/virtio, the paravirtual devices: Devices.Virtio, with the queues in guest memory
--   (Queue, Used), the loop over a queue (Drain), the devices (Net, Blk) behind an interface (Backend) and
--   the transport (Mmio, Inject).
-- * src/devices/gic, pl011/emulator.rs and pl031.rs, the other devices: Devices.Gic, Devices.Pl011 and
--   Devices.Pl031.
-- * src/vm.rs, vcpu.rs, vcpu_interrupt.rs and global.rs, the run loop of the VMs on one processor: Vm.
--   Vm.Global has the state of a VM that its handlers share, Vm.Interrupts and Vm.Vcpu a vCPU,
--   Vm.Lifecycle a VM and its states, Vm.Machine the world of all VMs with their devices, Vm.Pending the
--   delivery of pending interrupts, Vm.Run an iteration of the loop, Vm.Loops the loops of one VM and of
--   several. `Host` in Vm.Run is a VM on its processor; entering a guest is an argument, `Guest`.
-- * src/arch/aarch64/vcpu_arch_state.rs and the list registers of peripherals/gicv3.rs: Vm.ArchState and
--   Vm.ListRegisters, with the live registers of the processor as a value.
-- * PSCI, hypercalls and the routing of SMCs in hypervisor/exception.rs: Vm.Psci, over the scheduler's
--   client in Vm.Run and Ffa.Proxy.Dispatch. The traps for SGIs, for WFI and for physical interrupts of
--   the same file: Vm.Traps. Trapped system registers and `handle_exception`, which leads an exception
--   to all of these and to Arch.Abort: Vm.Exceptions, over the state `Handlers`.
--
-- Conventions. Numbers are native naturals. A sum that the source computes in a machine word wraps
-- (`% 2 ^ w`) as in a release build, and a cast is a remainder. Sums of an offset and a size that are
-- small compared with their word are written without a wrap. `Result` and `Option` are the source's.
-- A global behind a cell or an atomic is a field of the state, so one call runs at a time, as the
-- comments of the source require. Bit operations are those of the machine; Bits relates them to
-- remainders and quotients.
--
-- Bounds. Loops over arrays and ranges are structural recursion on lists or on the number of rounds
-- left, so every function is total. Fuel is needed where the source loops for as long as there is
-- work. The loop of a virtio device over its queue runs while the guest has chains: it has 2^16 rounds,
-- and an index of 16 bits cannot be further ahead than that. The drains of the rings before a vCPU runs
-- have 9 rounds for frames and 64 for characters; the rings hold at most 8 and 63. The loops that run
-- VMs have a number of rounds as an argument, and what is shown of them holds for every number.
-- Array sizes are the source's (8 vCPUs, 16 shares of 4 ranges,
-- 8 endpoints of 8 binds, 16 ranges of a descriptor, 4 mailboxes, 9 slots of a ring, 16 learnt
-- addresses, 4 partitions, 8 devices, 2 queues). Handles of shares are 64 bits wide; where a theorem
-- needs that they last, it says so.
--
-- Memory is split in two that do not alias: words for page tables and the free list, and bytes for
-- guest memory, in which the TX and RX buffers lie.
--
-- Panics are values: `none` for a partition's state that does not change as expected, a `Stop` for a
-- remainder by a queue size of zero, a `Panic` for an empty slot in the run loop, a `Halt` for too many
-- exceptions. What a device does to the hardware (characters sent, writes passed on to the distributor,
-- interrupts injected) is part of the state after an access.
--
-- Not modelled: the SMC to EL3 (a parameter of the proxy and of the event loop), the run of a guest or a
-- partition (a parameter), TLB and cache maintenance, the build with `tfa_boot`, in which the list of
-- partitions is relayed, the build for several processors, the construction of Stage-2 tables, drivers
-- of the hardware, boot and loading. The last three are hardware access and glue, or components that no
-- file here depends on.
pub mod Prelude
pub mod Bits
pub mod Mm
pub mod Scheduler
pub mod Ffa
pub mod Vswitch
pub mod Arch
pub mod Spmc
pub mod Devices
pub mod Vm
