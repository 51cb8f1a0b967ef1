-- ===== src/Config/Slope.antt =====
-- The text of a trigger slope (AqMD3_console/src/aqmd3_console.cpp).
use aq_md3_acquisition_conso.Common.{ℕ, ◌≡◌, refl, ap, ◌∙◌, true, [], ◌∷◌, ◌++◌, All, arith}
use aq_md3_acquisition_conso.Config.{Text}
use aq_md3_acquisition_conso.Config.Startup.{is_blank, to_lower, trim_end, lower, slope_of}

abbrev pub IsBlank : ℕ → Type 0
IsBlank c = is_blank c ≡ true

trim_end-blank : (ws : Text) → All IsBlank ws → trim_end ws ≡ []
unfolding trim_end
trim_end-blank [] h = refl
trim_end-blank (w ∷ ws) h = ground (arith, h.0, trim_end-blank ws h.1)

trim_end-append : (v ws : Text) → All IsBlank ws → trim_end (v ++ ws) ≡ trim_end v
unfolding trim_end
trim_end-append [] ws h = trim_end-blank ws h
trim_end-append (c ∷ cs) ws h = ground (arith, trim_end-append cs ws h)

to_lower_again : (c : ℕ) → to_lower (to_lower c) ≡ to_lower c
to_lower_again c = ground arith

blank-to_lower : (c : ℕ) → is_blank (to_lower c) ≡ is_blank c
blank-to_lower c = ground arith

lower_again : (t : Text) → lower (lower t) ≡ lower t
unfolding lower
lower_again [] = refl
lower_again (c ∷ cs) = λ k. to_lower_again c k ∷ lower_again cs k

trim_end-lower : (t : Text) → trim_end (lower t) ≡ lower (trim_end t)
unfolding trim_end lower
trim_end-lower [] = refl
trim_end-lower (c ∷ cs) = ground (arith, trim_end-lower cs, blank-to_lower c)

-- Neither the case of a slope's letters nor blanks behind it matter.
pub slope_of-lower : (v ws : Text) → All IsBlank ws → slope_of (lower v ++ ws) ≡ slope_of v
unfolding slope_of
slope_of-lower v ws h =
    let same : lower (trim_end (lower v ++ ws)) ≡ lower (trim_end v) =
      ap lower (trim_end-append (lower v) ws h ∙ trim_end-lower v) ∙ lower_again (trim_end v) in
    rw same refl
