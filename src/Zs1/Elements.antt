-- ===== src/Zs1/Elements.antt =====
-- The gates of a list of triggers, and the elements that they name (libaqmd3/src/cstzs1context.cpp).
use aq_md3_acquisition_conso.Common.{
  ℕ, ◌+◌, ◌<◌, ◌≡◌, List, [], ◌∷◌, ◌++◌, length, update_back, length-append, arith,
}
use aq_md3_acquisition_conso.Stream.{GateData, TriggerData}
use aq_md3_acquisition_conso.Zs1.{add_gate}

abbrev pub gates_elements : List GateData → ℕ
gates_elements [] = 0
gates_elements (g ∷ gs) = g.element_count + gates_elements gs

-- The elements that the gates of some triggers name, and how many gates there are.
abbrev pub total_elements : List TriggerData → ℕ
total_elements [] = 0
total_elements (t ∷ ts) = gates_elements t.gate_data + total_elements ts

abbrev pub total_gates : List TriggerData → ℕ
total_gates [] = 0
total_gates (t ∷ ts) = length t.gate_data + total_gates ts

pub gates_elements-append :
    (gs hs : List GateData) → gates_elements (gs ++ hs) ≡ gates_elements gs + gates_elements hs
gates_elements-append [] hs = omega arith
gates_elements-append (g ∷ gs) hs = omega (arith, gates_elements-append gs hs)

pub total_elements-append :
    (ts us : List TriggerData) → total_elements (ts ++ us) ≡ total_elements ts + total_elements us
total_elements-append [] us = omega arith
total_elements-append (t ∷ ts) us = omega (arith, total_elements-append ts us)

pub total_gates-append :
    (ts us : List TriggerData) → total_gates (ts ++ us) ≡ total_gates ts + total_gates us
total_gates-append [] us = omega arith
total_gates-append (t ∷ ts) us = omega (arith, total_gates-append ts us)

pub total_elements-add_gate :
    (g : GateData) (ts : List TriggerData)
    → 0 < length ts
    → total_elements (update_back (add_gate g) ts) ≡ total_elements ts + g.element_count
total_elements-add_gate g [] h = absurd (omega arith)
total_elements-add_gate g (t ∷ []) h = omega (arith, gates_elements-append t.gate_data (g ∷ []))
total_elements-add_gate g (t ∷ u ∷ us) h =
    omega (arith, total_elements-add_gate g (u ∷ us) (omega arith))

pub total_gates-add_gate :
    (g : GateData) (ts : List TriggerData)
    → 0 < length ts
    → total_gates (update_back (add_gate g) ts) ≡ total_gates ts + 1
total_gates-add_gate g [] h = absurd (omega arith)
total_gates-add_gate g (t ∷ []) h = omega (arith, length-append t.gate_data (g ∷ []))
total_gates-add_gate g (t ∷ u ∷ us) h = omega (arith, total_gates-add_gate g (u ∷ us) (omega arith))
