-- ===== src/Devices/Virtio/Drain.antt =====
-- src/devices/virtio: the loop `while let Some(chain) = queue.get_avail_desc()` of the devices.
use hypervisor.Prelude.{ℕ, zero, suc, ◌<◌, ◌≡◌, ap, ◌∙◌, arith, Option, none, some, Result, ok, err}
use hypervisor.Devices.Virtio.Queue.{Stop, out_of_fuel}

module _ {S : Type 0} where
  -- What follows a round: the rest of the loop, its end, or its stop.
  abbrev pub continue : (S → Result Stop S) → S → Result Stop (Option S) → Result Stop S
  continue rest s (err e) = err e
  continue rest s (ok none) = ok s
  continue rest s (ok (some s')) = rest s'

  -- A loop of at most `n` rounds; a round gives the state after it, or `none` at the end.
  unfoldable pub drain : (S → Result Stop (Option S)) → ℕ → S → Result Stop S
  drain round zero s = err out_of_fuel
  drain round (suc n) s = continue (λ t. drain round n t) s (round s)

  -- A loop that ends: where it ends, and after how many rounds.
  pub record Ends {κ} (P : S → Type κ) (out : Result Stop S) : Type κ where
    pub last : S
    pub returns : out ≡ ok last
    pub holds : P last

  -- One round from `s` that reaches a state with `P`.
  pub record Rounds {κ} (P : S → Type κ) (out : Result Stop (Option S)) : Type κ where
    pub next : S
    pub returns : out ≡ ok (some next)
    pub holds : P next

module _ {κ} {S : Type 0} (round : S → Result Stop (Option S)) (P : ℕ → S → Type κ)
    (stop : (s : S) → P 0 s → round s ≡ ok none)
    (go : (k : ℕ) (s : S) → P (suc k) s → Rounds (P k) (round s)) where
  -- A state with exactly `k` rounds left ends the loop in a state with none left.
  pub drain-Ends : (n k : ℕ) (s : S) → k < n → P k s → Ends (P 0) (drain round n s)
  unfolding drain
  drain-Ends zero k s h p = absurd (omega arith)
  drain-Ends (suc n) zero s h p = record {
    last = s;
    returns = ap (continue (λ t. drain round n t) s) (stop s p);
    holds = p;
  }
  drain-Ends (suc n) (suc k) s h p =
      let r = go k s p in
      let e = drain-Ends n k r.next (omega arith) r.holds in
      record {
        last = e.last;
        returns = ap (continue (λ t. drain round n t) s) r.returns ∙ e.returns;
        holds = e.holds;
      }
