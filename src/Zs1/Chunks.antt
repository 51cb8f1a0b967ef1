-- ===== src/Zs1/Chunks.antt =====
-- What is left of a walk or of an acquire (libaqmd3/src/cstzs1context.cpp) if the cuts between its
-- fetches are forgotten.
use aq_md3_acquisition_conso.Common.{
  ℕ, zero, suc, ◌≡◌, refl, sym, ap, ◌∙◌, List, [], ◌∷◌, ◌++◌, arith, drop,
}
use aq_md3_acquisition_conso.Buffer.{create_sized}
use aq_md3_acquisition_conso.Stream.{Failure}
use aq_md3_acquisition_conso.Zs1.{
  Zs1Context, Walk, note_trigger, note_gate, entry_step, entries_step, gate_hunk_step,
  trigger_hunk_step, hunk_step, Walked, onward, full, failed, and_then,
}
use aq_md3_acquisition_conso.Zs1.Hunks.{walk_list}
use aq_md3_acquisition_conso.Zs1.Acquire.{Outcome, returned, threw, waiting}

-- A context or a walk without the markers buffer and the count of fetches.
abbrev pub erase_context : Zs1Context → Zs1Context
erase_context c = record c { markers_buffer = create_sized 0; frame_fetches = 0 }

abbrev pub erase : Walk → Walk
erase s = record s { context = erase_context s.context }

-- The result of a call, so erased.
pub data Summary : Type 0 where
  complete : Walk → Summary
  broken : Failure → Zs1Context → Summary
  unfinished : Summary

abbrev pub of_walked : Walked → Summary
of_walked (onward s) = unfinished
of_walked (full s) = complete (erase s)
of_walked (failed e c) = broken e (erase_context c)

abbrev pub of_outcome : Outcome Walk → Summary
of_outcome (returned s fs) = complete (erase s)
of_outcome (threw e c) = broken e (erase_context c)
of_outcome waiting = unfinished

abbrev erase_walked : Walked → Walked
erase_walked (onward s) = onward (erase s)
erase_walked (full s) = full (erase s)
erase_walked (failed e c) = failed e (erase_context c)

entry_step-erase :
    (r : ℕ) (l : List ℕ) (s : Walk) → erase (entry_step r l s) ≡ entry_step r l (erase s)
unfolding entry_step note_gate
entry_step-erase r l s = ground arith

entries_step-erase :
    (n r : ℕ) (l : List ℕ) (s : Walk) → erase (entries_step n r l s) ≡ entries_step n r l (erase s)
unfolding entries_step
entries_step-erase zero r l s = refl
entries_step-erase (suc n) r l s =
    entries_step-erase n r (drop 4 l) (entry_step r l s)
    ∙ ap (entries_step n r (drop 4 l)) (entry_step-erase r l s)

gate_hunk_step-erase :
    (r : ℕ) (h : List ℕ) (s : Walk)
    → erase (gate_hunk_step r h s) ≡ erase (gate_hunk_step r h (erase s))
unfolding gate_hunk_step
gate_hunk_step-erase r h s = entries_step-erase 4 r h s ∙ sym (entries_step-erase 4 r h (erase s))

hunk_step-erase :
    (t r : ℕ) (h : List ℕ) (s : Walk)
    → erase_walked (hunk_step t r h s) ≡ erase_walked (hunk_step t r h (erase s))
unfolding hunk_step trigger_hunk_step note_trigger
hunk_step-erase t r h s = ground (arith, gate_hunk_step-erase r h s)

-- Walks that agree but for the buffer end alike.
abbrev Alike : Walked → Walked → Type 0
Alike v w = erase_walked v ≡ erase_walked w

and_then-of_walked :
    (v w : Walked) (k : Walk → Walked)
    → Alike v w
    → ((s s' : Walk) → erase s ≡ erase s' → of_walked (k s) ≡ of_walked (k s'))
    → of_walked (and_then v k) ≡ of_walked (and_then w k)
and_then-of_walked (onward s) (onward s') k e h = h s s' (onward-injective e)
  where
    onward-injective : onward (erase s) ≡ onward (erase s') → erase s ≡ erase s'
    onward-injective p = cc
and_then-of_walked (onward s) (full s') k e h = cc
and_then-of_walked (onward s) (failed d c) k e h = cc
and_then-of_walked (full s) (onward s') k e h = cc
and_then-of_walked (full s) (full s') k e h = cc
and_then-of_walked (full s) (failed d c) k e h = cc
and_then-of_walked (failed d c) (onward s') k e h = cc
and_then-of_walked (failed d c) (full s') k e h = cc
and_then-of_walked (failed d c) (failed d' c') k e h = cc

pub walk_list-alike :
    (t r : ℕ) (hs : List (List ℕ)) (s s' : Walk)
    → erase s ≡ erase s'
    → of_walked (walk_list t r hs s) ≡ of_walked (walk_list t r hs s')
unfolding walk_list
walk_list-alike t r [] s s' e = refl
walk_list-alike t r (h ∷ hs) s s' e =
    and_then-of_walked (hunk_step t r h s) (hunk_step t r h s') (λ u. walk_list t r hs u)
      (hunk_step-erase t r h s
        ∙ ap (λ u. erase_walked (hunk_step t r h u)) e
        ∙ sym (hunk_step-erase t r h s'))
      (λ u u' e'. walk_list-alike t r hs u u' e')

pub walk_list-append :
    (t r : ℕ) (hs hs' : List (List ℕ)) (s : Walk)
    → walk_list t r (hs ++ hs') s ≡ and_then (walk_list t r hs s) (λ u. walk_list t r hs' u)
unfolding walk_list
walk_list-append t r [] hs' s = refl
walk_list-append t r (h ∷ hs) hs' s = go (hunk_step t r h s) (λ u. walk_list-append t r hs hs' u)
  where
    go :
        (w : Walked)
        → ((u : Walk)
            → walk_list t r (hs ++ hs') u
              ≡ and_then (walk_list t r hs u) (λ u. walk_list t r hs' u))
        → and_then w (λ u. walk_list t r (hs ++ hs') u)
          ≡ and_then (and_then w (λ u. walk_list t r hs u)) (λ u. walk_list t r hs' u)
    go (onward u) ih = ih u
    go (full u) ih = refl
    go (failed e c) ih = refl
