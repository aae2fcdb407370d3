-- ===== src/Vswitch/MacTable.antt =====
-- src/vswitch.rs: the MAC table of `VSwitch`.
use hypervisor.Prelude.{
  ℕ, ◌+◌, Bool, true, false, ◌&&◌, not, Option, none, some, List, [], ◌∷◌, update_first, replicate,
  ltb, ◌==◌, if◌then◌else◌, map,
}

abbrev pub mac_table_size : ℕ
mac_table_size = 16

-- The six bytes of an address.
abbrev pub Mac : Type 0
Mac = List ℕ

unfoldable pub same_mac : Mac → Mac → Bool
same_mac [] [] = true
same_mac [] (y ∷ ys) = false
same_mac (x ∷ xs) [] = false
same_mac (x ∷ xs) (y ∷ ys) = x == y && same_mac xs ys

pub record MacEntry : Type 0 where
  pub mac : Mac
  pub port_id : ℕ
  pub valid : Bool

unfoldable pub new_entry : MacEntry
new_entry = record { mac = replicate 6 0; port_id = 0; valid = false }

pub record VSwitch : Type 0 where
  pub mac_table : List MacEntry
  pub mac_count : ℕ
  pub port_count : ℕ

unfoldable pub new : VSwitch
new = record { mac_table = replicate mac_table_size new_entry; mac_count = 0; port_count = 0 }

unfoldable pub reset : VSwitch → VSwitch
reset v = record {
  mac_table = map (λ (e : MacEntry). record e { valid = false }) v.mac_table;
  mac_count = 0;
  port_count = 0;
}

unfoldable pub add_port : VSwitch → VSwitch
add_port v = record v { port_count = v.port_count + 1 }

abbrev pub matches : Mac → MacEntry → Bool
matches mac e = e.valid && same_mac e.mac mac

abbrev pub insert_entry : VSwitch → List MacEntry × Bool → VSwitch
insert_entry v (t, true) = record v { mac_table = t; mac_count = v.mac_count + 1 }
insert_entry v (t, false) = v

abbrev pub learn_new : VSwitch → Mac → ℕ → VSwitch
learn_new v mac port =
    if ltb v.mac_count mac_table_size
    then insert_entry v (
        update_first (λ (e : MacEntry). not e.valid)
          (λ e. record { mac = mac; port_id = port; valid = true }) v.mac_table)
    else v

abbrev pub or_learn : VSwitch → Mac → ℕ → List MacEntry × Bool → VSwitch
or_learn v mac port (t, true) = record v { mac_table = t }
or_learn v mac port (t, false) = learn_new v mac port

-- An entry of the address gets the port; otherwise the first free one, if there is one.
unfoldable pub learn : VSwitch → Mac → ℕ → VSwitch
unfolding update_first
learn v mac port =
    or_learn v mac port (update_first (matches mac) (λ e. record e { port_id = port }) v.mac_table)

unfoldable pub find_port : Mac → List MacEntry → Option ℕ
find_port mac [] = none
find_port mac (e ∷ es) = if matches mac e then some e.port_id else find_port mac es

unfoldable pub lookup : VSwitch → Mac → Option ℕ
unfolding find_port
lookup v mac = find_port mac v.mac_table
