-- ===== src/Slot/Manager/Named.antt =====
-- Which slot stands under a name.

use mcsm.Common.{
  ℕ, ◌≡◌, refl, sym, ap, ap₂, ◌∙◌, Bool-cases, Option-cases, inl, inr, Option, none, some, String,
  str_eq, str_eq_iff, str_eq_refl, List, [], ◌∷◌, ◌++◌, append-nil, append_assoc, map,
  if◌then◌else◌, arith,
}
use mcsm.Slot.Record.{Slot, SlotConfig, new}
use mcsm.Slot.Manager.{Manager, put, find, add_slots, new_manager, get, slots_in_order}

-- The last of the configured slots with the name.
unfoldable pub last_named : String → List SlotConfig → Option SlotConfig
last_named n [] = none
last_named n (sc ∷ scs) = elim (last_named n scs) [
  | some later ↦ some later
  | none ↦ if str_eq sc.name n then some sc else none
]

find-put :
    (n name : String) (s : Slot) (xs : List (String × Slot))
    → find n (put name s xs) ≡ (if str_eq name n then some s else find n xs)
unfolding find put
find-put n name s [] = refl
find-put n name s ((m, old) ∷ xs) = elim (Bool-cases (str_eq m name)) [
  | inl t ↦ let e : m ≡ name = (str_eq_iff m name).0 t in rw (t, e) (ground arith)
  | inr f ↦
      rw (f, find-put n name s xs)
        (elim (Bool-cases (str_eq m n)) [
          | inl p ↦ elim (Bool-cases (str_eq name n)) [
            | inl q ↦
                ground (arith, f, str_eq_refl name, (str_eq_iff m n).0 p, (str_eq_iff name n).0 q)
            | inr q ↦ rw (p, q) refl
          ]
          | inr p ↦ rw p refl
        ])
]

module _ (instance_name host : String) (now : ℕ) where
  abbrev pub made : Option SlotConfig → Option Slot
  made none = none
  made (some sc) = some (new sc instance_name host now)

  abbrev or_made : Option SlotConfig → Option Slot → Option Slot
  or_made none o = o
  or_made (some sc) o = some (new sc instance_name host now)

  find-add_slots :
      (n : String) (scs : List SlotConfig) (m : Manager)
      → find n (add_slots instance_name host now scs m).slots
        ≡ or_made (last_named n scs) (find n m.slots)
  unfolding add_slots last_named
  find-add_slots n [] m = refl
  find-add_slots n (sc ∷ scs) m =
      let s = new sc instance_name host now in
      find-add_slots n scs
        (record { slots = put sc.name s m.slots; order = m.order ++ sc.name ∷ [] })
      ∙ ap (or_made (last_named n scs)) (find-put n sc.name s m.slots)
      ∙ elim (Option-cases (last_named n scs)) [
        | inl e ↦ rw e (ground arith)
        | inr (later, e) ↦ rw e refl
      ]

  order-add_slots :
      (scs : List SlotConfig) (m : Manager)
      → (add_slots instance_name host now scs m).order
        ≡ m.order ++ map (λ (sc : SlotConfig). sc.name) scs
  unfolding add_slots
  order-add_slots [] m = sym (append-nil m.order)
  order-add_slots (sc ∷ scs) m = order-add_slots scs _ ∙ append_assoc m.order (sc.name ∷ []) _

  or_made-none : (o : Option SlotConfig) → or_made o none ≡ made o
  or_made-none none = refl
  or_made-none (some sc) = refl

  abbrev empty : Manager
  empty = record { slots = []; order = [] }

  found :
      (scs : List SlotConfig) (name : String)
      → find name (add_slots instance_name host now scs empty).slots ≡ made (last_named name scs)
  unfolding find
  found scs name = find-add_slots name scs empty ∙ or_made-none (last_named name scs)

  all_found :
      (scs ns : List SlotConfig)
      → map
          (λ (n : String). find n (add_slots instance_name host now scs empty).slots)
          (map (λ (sc : SlotConfig). sc.name) ns)
        ≡ map (λ (sc : SlotConfig). made (last_named sc.name scs)) ns
  all_found scs [] = refl
  all_found scs (sc ∷ ns) = ap₂ ◌∷◌ (found scs sc.name) (all_found scs ns)

  -- The manager's slots are idle slots of the last configuration with each name: Get finds the one
  -- under the name it is given or none if no configuration has the name, and List gives one for each
  -- configuration, in their order.
  pub new_manager-finds :
      (scs : List SlotConfig) (name : String)
      → (get (new_manager scs instance_name host now) name ≡ made (last_named name scs))
        × (slots_in_order (new_manager scs instance_name host now)
            ≡ map (λ (sc : SlotConfig). made (last_named sc.name scs)) scs)
  unfolding get new_manager slots_in_order
  new_manager-finds scs name = (
    found scs name,
    ap (map (λ (n : String). find n (add_slots instance_name host now scs empty).slots))
          (order-add_slots scs empty)
        ∙ all_found scs scs,
  )
