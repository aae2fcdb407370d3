-- ===== src/Ffa/Proxy/History.antt =====
-- src/ffa/proxy.rs: sequences of calls and guest stores.
use hypervisor.Prelude.{ℕ, ◌≡◌, refl, ◌∙◌, arith, true, List, [], ◌∷◌, ◌==◌, if◌then◌else◌}
use hypervisor.Ffa.Proxy.State.{Regs, Proxy, is_guest_ram}
use hypervisor.Ffa.Proxy.Dispatch.{function_of, handle_ffa_call}
use hypervisor.Ffa.Proxy.Containment.{IsSafe, SameOutside}
use hypervisor.Ffa.Proxy.Safety.{call-Contained}

-- What happens between two states of the proxy: a VM makes a call, on a vCPU with these registers
-- and Stage-2 tables, or a guest stores a byte to guest RAM.
pub data Event : Type 0 where
  call_from : (vm vttbr : ℕ) → Regs → Event
  guest_store : (a v : ℕ) → is_guest_ram a 1 ≡ true → Event

unfoldable pub happen : (Regs → Regs) → Proxy → Event → Proxy
happen smc s (call_from vm vttbr r) =
    (handle_ffa_call smc r (record s { vm = vm; vttbr = vttbr })).1
happen smc s (guest_store a v ram) = record s { ram = λ b. if a == b then v else s.ram b }

unfoldable pub history : (Regs → Regs) → Proxy → List Event → Proxy
unfolding happen
history smc s [] = s
history smc s (e ∷ es) = history smc (happen smc s e) es

happen-IsSafe :
    (smc : Regs → Regs) (s : Proxy) (e : Event)
    → IsSafe s
    → IsSafe (happen smc s e) × SameOutside s.ram (happen smc s e).ram
unfolding happen handle_ffa_call
happen-IsSafe smc s (call_from vm vttbr r) h =
    let c = call-Contained smc (function_of r.x0) r (record s { vm = vm; vttbr = vttbr }) h in
    (c.safe, c.outside)
happen-IsSafe smc s (guest_store a v ram) h = (h, λ b o. ground (arith, ram, o))

-- From a state in which the registered buffers lie in guest RAM, whatever calls the guests make and
-- whatever bytes of guest RAM they write between them, the registered buffers still lie in guest
-- RAM, and every byte outside guest RAM is what it was.
pub history-IsSafe :
    (smc : Regs → Regs) (s : Proxy) (es : List Event)
    → IsSafe s
    → IsSafe (history smc s es) × SameOutside s.ram (history smc s es).ram
unfolding history
history-IsSafe smc s [] h = (h, λ a o. refl)
history-IsSafe smc s (e ∷ es) h =
    let one = happen-IsSafe smc s e h in
    let rest = history-IsSafe smc (happen smc s e) es (one.0) in
    (rest.0, λ a o. rest.1 a o ∙ one.1 a o)
