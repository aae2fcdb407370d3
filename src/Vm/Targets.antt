-- ===== src/Vm/Targets.antt =====
-- src/arch/aarch64/hypervisor/exception.rs: which vCPUs an SGI of a guest reaches.
use hypervisor.Prelude.{
  ℕ, zero, suc, ◌+◌, ◌/◌, ◌^◌, ◌<◌, ◌≡◌, refl, ◌∙◌, ap, arith, Bool, true, false, not, ◌&&◌, List,
  length, get_or, get_or-set, length-set, bit_and, bit_or, leb, ltb, ◌==◌, if◌then◌else◌,
  Bool-cases, inl, inr, ℕ_discrete,
}
use hypervisor.Scheduler.{max_vcpus}
use hypervisor.Vm.Global.{VmGlobalState}
use hypervisor.Vm.Traps.{pend_sgi, inject_live, sgi_to_others, sgi_to_targets, handle_sgi_trap}

-- The fields of a value of ICC_SGI1R_EL1.
abbrev pub intid_of : ℕ → ℕ
intid_of value = bit_and (value / 2 ^ 24) 0xF

abbrev pub to_all : ℕ → Bool
to_all value = bit_and (value / 2 ^ 40) 1 == 1

abbrev pub has_bit : ℕ → ℕ → Bool
has_bit word j = not (bit_and word (2 ^ j) == 0)

-- The word of vCPU `j` after an SGI to the vCPUs that `test` holds of.
abbrev pub word_after : (test : Bool) → (intid j : ℕ) → VmGlobalState → ℕ
word_after test intid j g =
    if test then bit_or (get_or g.pending_sgis j 0) (2 ^ intid) else get_or g.pending_sgis j 0

-- What a loop leaves alone.
abbrev pub Rest : VmGlobalState → VmGlobalState → Type 0
Rest g g' =
    (g'.pending_spis ≡ g.pending_spis)
    × (g'.terminal_exit ≡ g.terminal_exit)
    × (g'.vcpu_online_mask ≡ g.vcpu_online_mask)
    × (g'.current_vcpu_id ≡ g.current_vcpu_id)
    × (g'.pending_cpu_on ≡ g.pending_cpu_on)
    × (g'.preemption_exit ≡ g.preemption_exit)
    × (length g'.pending_sgis ≡ length g.pending_sgis)

-- One round.
pend_if : (b : Bool) → (id intid : ℕ) → VmGlobalState → VmGlobalState
pend_if b id intid g = if b then pend_sgi g id intid else g

pend_if-Rest : (b : Bool) (id intid : ℕ) (g : VmGlobalState) → Rest g (pend_if b id intid g)
unfolding pend_if
pend_if-Rest true id intid g = (refl, refl, refl, refl, refl, refl, length-set g.pending_sgis id _)
pend_if-Rest false id intid g = (refl, refl, refl, refl, refl, refl, refl)

pend_if-word :
    (b : Bool) (id intid : ℕ) (g : VmGlobalState) (j : ℕ)
    → j < length g.pending_sgis
    → get_or (pend_if b id intid g).pending_sgis j 0 ≡ word_after (b && id == j) intid j g
unfolding pend_if
pend_if-word false id intid g j below = refl
pend_if-word true id intid g j below = elim (ℕ_discrete id j) [
  | yes e ↦
      ground (
        arith,
        get_or-set g.pending_sgis id j (bit_or (get_or g.pending_sgis id 0) (2 ^ intid)) 0,
        e,
      )
  | no n ↦
      ground (
        arith,
        get_or-set g.pending_sgis id j (bit_or (get_or g.pending_sgis id 0) (2 ^ intid)) 0,
        n,
      )
]

-- The loop with a test that does not change.
pend_all : (test : ℕ → Bool) → (n id intid : ℕ) → VmGlobalState → VmGlobalState
pend_all test zero id intid g = g
pend_all test (suc n) id intid g = pend_all test n (id + 1) intid (pend_if (test id) id intid g)

pend_all-Rest :
    (test : ℕ → Bool) (n id intid : ℕ) (g : VmGlobalState) → Rest g (pend_all test n id intid g)
unfolding pend_all
pend_all-Rest test zero id intid g = (refl, refl, refl, refl, refl, refl, refl)
pend_all-Rest test (suc n) id intid g =
    let a = pend_if-Rest (test id) id intid g in
    let b = pend_all-Rest test n (id + 1) intid (pend_if (test id) id intid g) in
    (b.0 ∙ a.0, b.1 ∙ a.1, b.2 ∙ a.2, b.3 ∙ a.3, b.4 ∙ a.4, b.5 ∙ a.5, b.6 ∙ a.6)

abbrev in_loop : (n id j : ℕ) → Bool
in_loop n id j = leb id j && ltb j (id + n)

pend_all-word :
    (test : ℕ → Bool) (n id intid : ℕ) (g : VmGlobalState) (j : ℕ)
    → j < length g.pending_sgis
    → get_or (pend_all test n id intid g).pending_sgis j 0
      ≡ word_after (in_loop n id j && test j) intid j g
unfolding pend_all
pend_all-word test zero id intid g j below = ground arith
pend_all-word test (suc n) id intid g j below =
    let step = pend_if (test id) id intid g in
    let known : j < length step.pending_sgis =
      omega (arith, below, (pend_if-Rest (test id) id intid g).6) in
    let later = pend_all-word test n (id + 1) intid step j known in
    let first = pend_if-word (test id) id intid g j below in
    elim (ℕ_discrete id j) [
      | yes e ↦ ground (arith, later, first, ap test e)
      | no n ↦ ground (arith, later, first)
    ]

-- The two loops of the handler have such a test.
sgi_to_others-pend_all :
    (n id intid own online : ℕ) (g : VmGlobalState)
    → g.current_vcpu_id ≡ own
    → g.vcpu_online_mask ≡ online
    → sgi_to_others n id intid g ≡ pend_all (λ j. not (j == own) && has_bit online j) n id intid g
unfolding sgi_to_others pend_all pend_if
sgi_to_others-pend_all zero id intid own online g c m = refl
sgi_to_others-pend_all (suc n) id intid own online g c m =
    let rest = pend_if-Rest (not (id == own) && has_bit online id) id intid g in
    ap (λ b. sgi_to_others n (id + 1) intid (pend_if b id intid g))
      (λ i. not (id == c i) && has_bit (m i) id)
    ∙ sgi_to_others-pend_all n (id + 1) intid own online
        (pend_if (not (id == own) && has_bit online id) id intid g) (rest.3 ∙ c) (rest.2 ∙ m)

sgi_to_targets-pend_all :
    (vtr n id targets intid own : ℕ) (lrs : List ℕ) (g : VmGlobalState)
    → g.current_vcpu_id ≡ own
    → (sgi_to_targets vtr n id targets intid lrs g).1
      ≡ pend_all (λ j. has_bit targets j && not (j == own)) n id intid g
unfolding sgi_to_targets pend_all pend_if
sgi_to_targets-pend_all vtr zero id targets intid own lrs g c = refl
sgi_to_targets-pend_all vtr (suc n) id targets intid own lrs g c =
    let rest = pend_if-Rest (has_bit targets id && not (id == own)) id intid g in
    ap
      (λ b.
        (sgi_to_targets vtr n (id + 1) targets intid
          (if has_bit targets id && id == g.current_vcpu_id then inject_live vtr lrs intid else lrs)
          (pend_if b id intid g)).1)
      (λ i. has_bit targets id && not (id == c i))
    ∙ sgi_to_targets-pend_all vtr n (id + 1) targets intid own _
        (pend_if (has_bit targets id && not (id == own)) id intid g) (rest.3 ∙ c)

pub handle_sgi_trap-Rest :
    (vtr value : ℕ) (lrs : List ℕ) (g : VmGlobalState) → Rest g (handle_sgi_trap vtr value lrs g).1
unfolding handle_sgi_trap
handle_sgi_trap-Rest vtr value lrs g = elim (Bool-cases (to_all value)) [
  | inl every ↦
      rw
        (
          every,
          sgi_to_others-pend_all 8 0 (intid_of value) g.current_vcpu_id g.vcpu_online_mask g refl
              refl,
        )
        (pend_all-Rest _ 8 0 (intid_of value) g)
  | inr listed ↦
      rw
        (
          listed,
          sgi_to_targets-pend_all vtr 8 0 (bit_and value 0xFFFF) (intid_of value) g.current_vcpu_id
              lrs g refl,
        )
        (pend_all-Rest _ 8 0 (intid_of value) g)
]

-- Which vCPUs a value of the register names, as the code reads it: all online but the sender if bit 40
-- is set, else the others of the list in bits 0 to 15. The affinity and range fields are not looked at.
abbrev pub is_target : (value : ℕ) → VmGlobalState → ℕ → Bool
is_target value g j =
    if to_all value
    then not (j == g.current_vcpu_id) && has_bit g.vcpu_online_mask j
    else has_bit (bit_and value 0xFFFF) j && not (j == g.current_vcpu_id)

-- An SGI of a guest, with its number in bits 24 to 27 of the value, becomes pending at exactly these
-- vCPUs other than the sender: with bit 40 set, all that are online; else those of the eight whose bit
-- in the list of bits 0 to 15 is set, whatever the affinity and range fields say. At these no other bit
-- changes, and nothing else in the state of the VM does.
pub handle_sgi_trap-Reaches :
    (vtr value : ℕ) (lrs : List ℕ) (g : VmGlobalState)
    → length g.pending_sgis ≡ max_vcpus
    → ((j : ℕ)
        → j < max_vcpus
        → get_or (handle_sgi_trap vtr value lrs g).1.pending_sgis j 0
          ≡ word_after (is_target value g j) (intid_of value) j g)
      × Rest g (handle_sgi_trap vtr value lrs g).1
unfolding handle_sgi_trap
handle_sgi_trap-Reaches vtr value lrs g size = (
  elim (Bool-cases (to_all value)) [
    | inl every ↦
        rw
          (
            every,
            sgi_to_others-pend_all 8 0 (intid_of value) g.current_vcpu_id g.vcpu_online_mask g refl
                refl,
          )
          (reaches _ (intid_of value) g size)
    | inr listed ↦
        rw
          (
            listed,
            sgi_to_targets-pend_all vtr 8 0 (bit_and value 0xFFFF) (intid_of value)
                g.current_vcpu_id lrs g refl,
          )
          (reaches _ (intid_of value) g size)
  ],
  handle_sgi_trap-Rest vtr value lrs g,
)
  where
    reaches :
        (test : ℕ → Bool) (intid : ℕ) (h : VmGlobalState)
        → length h.pending_sgis ≡ max_vcpus
        → (j : ℕ) → j < max_vcpus
        → get_or (pend_all test max_vcpus 0 intid h).pending_sgis j 0
          ≡ word_after (test j) intid j h
    reaches test intid h known j below =
        let inside : in_loop 8 0 j ≡ true = ground arith in
        pend_all-word test 8 0 intid h j (omega arith)
        ∙ ap (λ b. word_after (b && test j) intid j h) inside
