-- ===== src/Vm/Present.antt =====
-- src/vm.rs: a vCPU that is online and exists, over a boot and a round of the scheduler.
use hypervisor.Prelude.{
  ℕ, zero, suc, ◌+◌, ◌*◌, ◌^◌, ◌≤◌, ◌<◌, ◌≡◌, refl, ◌∙◌, ap, sym, arith, subst, Bool, true, not,
  ◌&&◌, ◌||◌, ltb, Option, none, some, get_or, set, get_or-set, get_or_out, Bool-cases, inl, inr,
  bit_and, ℕ_discrete,
}
use hypervisor.Scheduler.{Scheduler, max_vcpus}
use hypervisor.Bits.Test.{bit, bit-bit_or, bit-le_one, bit_and-pow}
use native.Mathlib.Nat.{one-le-pow}
use hypervisor.Vm.Vcpu.{Vcpu}
use hypervisor.Vm.Global.{VmGlobalState, take_request}
use hypervisor.Vm.Global
use hypervisor.Vm.Machine.{World, with_state}
use hypervisor.Vm.Lifecycle.{Vm, vcpu_at, exists}
use hypervisor.Vm.Run.{Host, boot, boot_secondary_vcpu, is_online, unblock_online}
use hypervisor.Vm.Online.{online}

-- Some vCPU below the eighth is online and exists.
pub record HasOnline (vm : Vm) (w : World) : Type 0 where
  pub vcpu : ℕ
  pub below : vcpu < max_vcpus
  pub marked : bit vcpu (online w vm.id) ≡ 1
  pub there : exists (vcpu_at vm vcpu) ≡ true

-- A vCPU that is put into a slot takes none away.
pub put-there :
    (vm : Vm) (id : ℕ) (v : Vcpu) (j : ℕ)
    → exists (vcpu_at vm j) ≡ true
    → exists (get_or (set vm.vcpus id (some v)) j none) ≡ true
put-there vm id v j e =
    ground (arith, get_or-set vm.vcpus id j (some v) none, get_or_out vm.vcpus j none, e)

with_state_grows :
    (w : World) (k : ℕ) (g : VmGlobalState) (j : ℕ)
    → bit j (online w k) ≡ 1
    → bit j g.vcpu_online_mask ≡ 1
    → bit j (online (with_state w k g) k) ≡ 1
with_state_grows w k g j before after =
    ground (arith, get_or-set w.vm_states k k g Global.new, get_or_out w.vm_states k Global.new)

pub boot-HasOnline :
    (h : Host) (o : Option (ℕ × ℕ × ℕ))
    → HasOnline h.vm h.world
    → HasOnline (boot h o).vm (boot h o).world × ((boot h o).vm.id ≡ h.vm.id)
unfolding boot_secondary_vcpu
boot-HasOnline h none some_vcpu = (some_vcpu, refl)
boot-HasOnline h (some (target, entry, ctx)) some_vcpu =
    elim (Bool-cases
      (ltb (bit_and target 0xFF) max_vcpus && not (exists (vcpu_at h.vm (bit_and target 0xFF))))) [
        | inl goes ↦ rw goes (
          record {
            vcpu = some_vcpu.vcpu;
            below = some_vcpu.below;
            marked = with_state_grows h.world h.vm.id _ some_vcpu.vcpu some_vcpu.marked (
                omega (
                  arith,
                  some_vcpu.marked,
                  bit-bit_or some_vcpu.vcpu (online h.world h.vm.id) (2 ^ bit_and target 0xFF),
                  bit-le_one some_vcpu.vcpu (2 ^ bit_and target 0xFF),
                ));
            there = put-there h.vm (bit_and target 0xFF) _ some_vcpu.vcpu some_vcpu.there;
          },
          refl,
        )
        | inr stays ↦ rw stays (some_vcpu, refl)
      ]

pub is_online-true :
    (vm : Vm) (word j : ℕ)
    → bit j word ≡ 1
    → exists (vcpu_at vm j) ≡ true
    → is_online vm word j ≡ true
is_online-true vm word j on there =
    let value : bit_and word (2 ^ j) ≡ 1 * 2 ^ j =
      bit_and-pow j word ∙ ap (λ (t : ℕ). t * 2 ^ j) on in
    ground (arith, value, one-le-pow j 2, there)

found_stays :
    (n id : ℕ) (vm : Vm) (word : ℕ) (s : Scheduler) (found : Bool)
    → found ≡ true
    → (unblock_online n id vm word s found).1 ≡ true
unfolding unblock_online
found_stays zero id vm word s found e = e
found_stays (suc n) id vm word s found e =
    found_stays n (id + 1) vm word _ (is_online vm word id || found) (ground (arith, e))

pub unblock_online-found :
    (n id : ℕ) (vm : Vm) (word : ℕ) (s : Scheduler) (found : Bool) (j : ℕ)
    → id ≤ j
    → j < id + n
    → is_online vm word j ≡ true
    → (unblock_online n id vm word s found).1 ≡ true
unfolding unblock_online
unblock_online-found zero id vm word s found j from below on = absurd (omega arith)
unblock_online-found (suc n) id vm word s found j from below on = elim (ℕ_discrete id j) [
  | yes e ↦
      found_stays n (id + 1) vm word _ (is_online vm word id || found)
        (rw (subst (λ k. is_online vm word k ≡ true) (sym e) on) refl)
  | no n' ↦ unblock_online-found n (id + 1) vm word _ _ j (omega arith) (omega arith) on
]
