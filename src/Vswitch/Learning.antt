-- ===== src/Vswitch/Learning.antt =====
-- src/vswitch.rs: the MAC table as a map from addresses to ports.
use hypervisor.Prelude.{
  ℕ, ◌≤◌, ◌≡◌, refl, sym, ap, ◌∙◌, arith, Bool, true, false, not, none, some, List, [], ◌∷◌, All,
  update_first, ltb, if◌then◌else◌, Bool-cases, inl, inr, ◌⊎◌,
}
use hypervisor.Vswitch.MacTable.{
  Mac, MacEntry, VSwitch, mac_table_size, same_mac, matches, insert_entry, learn_new, or_learn,
  learn, find_port, lookup,
}

same_mac-eq : (a b : Mac) → same_mac a b ≡ true → a ≡ b
unfolding same_mac
same_mac-eq [] [] h = refl
same_mac-eq [] (y ∷ ys) h = absurd (cc)
same_mac-eq (x ∷ xs) [] h = absurd (cc)
same_mac-eq (x ∷ xs) (y ∷ ys) h = λ i. first i ∷ same_mac-eq xs ys rest i
  where
    first : x ≡ y
    first = ground (arith, h)

    rest : same_mac xs ys ≡ true
    rest = ground (arith, h)

-- Two addresses that compare equal are told from a third alike.
same_mac-same : (a b m : Mac) → same_mac a b ≡ true → same_mac a m ≡ same_mac b m
same_mac-same a b m h = ap (λ c. same_mac c m) (same_mac-eq a b h)

same_mac-other : (a b m : Mac) → same_mac a b ≡ false → same_mac b m ≡ true → same_mac a m ≡ false
same_mac-other a b m h e = ap (λ c. same_mac a c) (sym (same_mac-eq b m e)) ∙ h

module _ (mac : Mac) (port : ℕ) where
  abbrev moved : List MacEntry → List MacEntry × Bool
  moved es = update_first (matches mac) (λ e. record e { port_id = port }) es

  abbrev added : List MacEntry → List MacEntry × Bool
  added es =
      update_first (λ (e : MacEntry). not e.valid)
        (λ e. record { mac = mac; port_id = port; valid = true }) es

  find-moved :
      (m : Mac) (es : List MacEntry)
      → (moved es).1 ≡ true
      → find_port m (moved es).0 ≡ (if same_mac mac m then some port else find_port m es)
  unfolding find_port update_first
  find-moved m [] h = absurd (cc)
  find-moved m (e ∷ es) h =
      ground (arith, h, find-moved m es, same_mac-same e.mac mac m, same_mac-other e.mac mac m)

  find-unmoved : (es : List MacEntry) → (moved es).1 ≡ false → find_port mac es ≡ none
  unfolding find_port update_first
  find-unmoved [] h = refl
  find-unmoved (e ∷ es) h = ground (arith, h, find-unmoved es)

  find-added :
      (m : Mac) (es : List MacEntry)
      → (added es).1 ≡ true
      → find_port mac es ≡ none
      → find_port m (added es).0 ≡ (if same_mac mac m then some port else find_port m es)
  unfolding find_port update_first
  find-added m [] h n = absurd (cc)
  find-added m (e ∷ es) h n = ground (arith, h, n, find-added m es, same_mac-other e.mac mac m)

-- What the switch knows after it has learnt an address: the address has the port, and every other
-- address is as before; or nothing has changed, the address was not known, and the table is full by
-- its count or by its entries.
abbrev pub Learnt : Mac → ℕ → VSwitch → VSwitch → Type 0
Learnt mac port v v' =
    ((m : Mac) → lookup v' m ≡ (if same_mac mac m then some port else lookup v m))
    ⊎ ((v' ≡ v)
        × (lookup v mac ≡ none)
        × ((mac_table_size ≤ v.mac_count) ⊎ All (λ (e : MacEntry). e.valid ≡ true) v.mac_table))

module _ (mac : Mac) (port : ℕ) where
  all_valid :
      (es : List MacEntry)
      → (added mac port es).1 ≡ false
      → All (λ (e : MacEntry). e.valid ≡ true) es
  unfolding update_first
  all_valid [] h = tt
  all_valid (e ∷ es) h = (ground (arith, h), all_valid es (ground (arith, h)))

  insert-Learnt :
      (v : VSwitch) (o : List MacEntry × Bool)
      → o ≡ added mac port v.mac_table
      → lookup v mac ≡ none
      → Learnt mac port v (insert_entry v o)
  unfolding lookup
  insert-Learnt v (t, true) e n = inl λ m.
      ap (λ (p : List MacEntry × Bool). find_port m p.0) e
      ∙ find-added mac port m v.mac_table (sym (ap (λ p. p.1) e)) n
  insert-Learnt v (t, false) e n =
      inr (refl, n, inr (all_valid v.mac_table (sym (ap (λ p. p.1) e))))

  learn_new-Learnt : (v : VSwitch) → lookup v mac ≡ none → Learnt mac port v (learn_new v mac port)
  learn_new-Learnt v n = elim (Bool-cases (ltb v.mac_count mac_table_size)) [
    | inl c ↦ rw c (insert-Learnt v (added mac port v.mac_table) refl n)
    | inr c ↦ rw c (inr (refl, n, inl (ground (arith, c))))
  ]

  or_learn-Learnt :
      (v : VSwitch) (o : List MacEntry × Bool)
      → o ≡ moved mac port v.mac_table
      → Learnt mac port v (or_learn v mac port o)
  unfolding lookup
  or_learn-Learnt v (t, true) e = inl λ m.
      ap (λ (p : List MacEntry × Bool). find_port m p.0) e
      ∙ find-moved mac port m v.mac_table (sym (ap (λ p. p.1) e))
  or_learn-Learnt v (t, false) e =
      learn_new-Learnt v (find-unmoved mac port v.mac_table (sym (ap (λ p. p.1) e)))

-- Learning an address makes the switch know its port and forget nothing, unless the address is new
-- and the table is full, and then it changes nothing.
pub learn-Learnt : (v : VSwitch) (mac : Mac) (port : ℕ) → Learnt mac port v (learn v mac port)
unfolding learn
learn-Learnt v mac port = or_learn-Learnt mac port v (moved mac port v.mac_table) refl
