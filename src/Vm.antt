-- ===== src/Vm.antt =====
-- src/vm.rs, src/vcpu.rs, src/global.rs and src/arch/aarch64/hypervisor/exception.rs: the virtual
-- machines, their vCPUs, the interrupts and requests that wait for them, and the handlers of exceptions.
pub mod ListRegisters
pub mod ArchState
pub mod Interrupts
pub mod Vcpu
pub mod Machine
pub mod Lifecycle
pub mod Run
pub mod Loops
pub mod Psci
pub mod Traps
pub mod Exceptions
pub mod Isolation
pub mod Pending
pub mod Moves
pub mod Delivery
pub mod Valid
pub mod Narrowing
pub mod Iteration
pub mod Boot
pub mod Targets
pub mod Running
pub mod Online
pub mod Present
pub mod Endless
pub mod Global
mod Tests
