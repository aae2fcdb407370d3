-- ===== src/Spmc/Store.antt =====
-- src/sp_context.rs: what a read of the store finds after a write.
use hypervisor.Prelude.{
  ℕ, ◌≡◌, ◌≢◌, refl, subst, ap, arith, true, false, Option, none, some, List, [], ◌∷◌, ◌==◌,
  update_first, inl, inr, Bool-cases, All, map,
}
use hypervisor.Spmc.Context.{SpContext, Slots, get_sp, put_sp, is_registered_sp}

pub get_sp-id : (slots : Slots) (id : ℕ) (sp : SpContext) → get_sp slots id ≡ some sp → sp.id ≡ id
unfolding get_sp
get_sp-id [] id sp h = absurd (cc)
get_sp-id (none ∷ slots) id sp h = get_sp-id slots id sp h
get_sp-id (some t ∷ slots) id sp h = ground (arith, get_sp-id slots id sp)

pub get_sp-put_sp :
    (slots : Slots) (id : ℕ) (sp0 sp : SpContext)
    → get_sp slots id ≡ some sp0
    → sp.id ≡ id
    → get_sp (put_sp slots id sp) id ≡ some sp
unfolding get_sp put_sp update_first
get_sp-put_sp [] id sp0 sp h e = absurd (cc)
get_sp-put_sp (none ∷ slots) id sp0 sp h e = get_sp-put_sp slots id sp0 sp h e
get_sp-put_sp (some t ∷ slots) id sp0 sp h e = ground (arith, get_sp-put_sp slots id sp0 sp)

pub get_sp-put_sp_ne :
    (slots : Slots) (id j : ℕ) (sp : SpContext)
    → sp.id ≡ id
    → j ≢ id
    → get_sp (put_sp slots id sp) j ≡ get_sp slots j
unfolding get_sp put_sp update_first
get_sp-put_sp_ne [] id j sp e n = refl
get_sp-put_sp_ne (none ∷ slots) id j sp e n = get_sp-put_sp_ne slots id j sp e n
get_sp-put_sp_ne (some t ∷ slots) id j sp e n = ground (arith, get_sp-put_sp_ne slots id j sp e n)

pub is_registered_sp-get_sp :
    (slots : Slots) (id : ℕ)
    → is_registered_sp slots id ≡ elim (get_sp slots id) [ none ↦ false | some sp ↦ true ]
unfolding get_sp is_registered_sp
is_registered_sp-get_sp [] id = refl
is_registered_sp-get_sp (none ∷ slots) id = is_registered_sp-get_sp slots id
is_registered_sp-get_sp (some t ∷ slots) id = ground (arith, is_registered_sp-get_sp slots id)

module _ {ℓ} (P : Option SpContext → Type ℓ) where
  pub All-get_sp :
      (slots : Slots) (id : ℕ) (sp : SpContext)
      → All P slots
      → get_sp slots id ≡ some sp
      → P (some sp)
  unfolding get_sp
  All-get_sp [] id sp a h = absurd (cc)
  All-get_sp (none ∷ slots) id sp a h = All-get_sp slots id sp a.1 h
  All-get_sp (some t ∷ slots) id sp a h = elim (Bool-cases (t.id == id)) [
    | inl c ↦ subst P (ground (arith, c, h)) a.0
    | inr c ↦ All-get_sp slots id sp a.1 (ground (arith, c, h))
  ]

  pub All-put_sp :
      (slots : Slots) (id : ℕ) (sp : SpContext)
      → P (some sp)
      → All P slots
      → All P (put_sp slots id sp)
  unfolding put_sp update_first
  All-put_sp [] id sp p a = tt
  All-put_sp (none ∷ slots) id sp p a = (a.0, All-put_sp slots id sp p a.1)
  All-put_sp (some t ∷ slots) id sp p a = elim (Bool-cases (t.id == id)) [
    | inl c ↦
        subst (All P) {x = some sp ∷ slots} {y = put_sp (some t ∷ slots) id sp} (ground (arith, c))
          (p, a.1)
    | inr c ↦
        subst (All P) {x = some t ∷ put_sp slots id sp} {y = put_sp (some t ∷ slots) id sp}
          (ground (arith, c)) (a.0, All-put_sp slots id sp p a.1)
  ]

-- What stays the same of a partition: its identifier, entry point, Stage-2 base and UUID.
unfoldable pub identity : Option SpContext → Option (ℕ × ℕ × ℕ × List ℕ)
identity none = none
identity (some sp) = some (sp.id, sp.entry, sp.vsttbr, sp.uuid)

pub identity-put_sp :
    (slots : Slots) (id : ℕ) (sp0 sp : SpContext)
    → get_sp slots id ≡ some sp0
    → identity (some sp) ≡ identity (some sp0)
    → map identity (put_sp slots id sp) ≡ map identity slots
unfolding get_sp put_sp update_first identity
identity-put_sp [] id sp0 sp h e = absurd (cc)
identity-put_sp (none ∷ slots) id sp0 sp h e =
    ap (λ l. none ∷ l) (identity-put_sp slots id sp0 sp h e)
identity-put_sp (some t ∷ slots) id sp0 sp h e = ground (arith, identity-put_sp slots id sp0 sp, e)
