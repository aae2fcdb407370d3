-- ===== src/Ffa/Ids.antt =====
-- src/ffa/mod.rs: error codes and partition IDs.
use hypervisor.Prelude.{
  ℕ, ◌+◌, ◌-◌, ◌%◌, ◌^◌, ◌<◌, ◌≡◌, arith, Bool, true, false, ◌&&◌, Option, none, some, leb,
  if◌then◌else◌,
}

-- The error codes that the proxy returns.
pub data FfaError : Type 0 where
  not_supported invalid_parameters no_memory busy denied no_data : FfaError

-- An `i32` error code as the 32-bit pattern that x2 gets.
unfoldable pub code : FfaError → ℕ
code not_supported = 2 ^ 32 - 1
code invalid_parameters = 2 ^ 32 - 2
code no_memory = 2 ^ 32 - 3
code busy = 2 ^ 32 - 4
code denied = 2 ^ 32 - 6
code no_data = 2 ^ 32 - 8

abbrev pub ffa_max_vms : ℕ
ffa_max_vms = 4

-- `FFA_SPMC_ID`.
abbrev pub ffa_spmc_id : ℕ
ffa_spmc_id = 0x8000

unfoldable pub vm_id_to_partition_id : ℕ → ℕ
vm_id_to_partition_id vm = (vm + 1) % 2 ^ 16

unfoldable pub partition_id_to_vm_id : ℕ → Option ℕ
partition_id_to_vm_id part = if leb 1 part && leb part ffa_max_vms then some (part - 1) else none

unfoldable pub is_vm_partition : ℕ → Bool
unfolding partition_id_to_vm_id
is_vm_partition part = elim (partition_id_to_vm_id part) [ none ↦ false | some v ↦ true ]

-- The IDs of the VMs and their partitions are in bijection.
pub partition_id-vm_id :
    (vm part : ℕ)
    → (vm < ffa_max_vms → partition_id_to_vm_id (vm_id_to_partition_id vm) ≡ some vm)
      × (partition_id_to_vm_id part ≡ some vm
          → (vm < ffa_max_vms) × (vm_id_to_partition_id vm ≡ part))
unfolding partition_id_to_vm_id vm_id_to_partition_id
partition_id-vm_id vm part = (λ h. ground arith, λ h. (ground arith, ground arith))
