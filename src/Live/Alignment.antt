-- ===== src/Live/Alignment.antt =====
-- When ZmqAcquiredDataSubscriber::check_alignment reports a frame
-- (AqMD3_console/src/zmqacquireddatasubscriber.cpp), and what its status lines look like.
use aq_md3_acquisition_conso.Common.{
  ℕ, zero, suc, ◌≤◌, ◌≡◌, ◌≢◌, ◌↔◌, refl, ap, subst, Bool, true, false, List, [], ◌∷◌, All, length,
  if◌then◌else◌, ◌==◌, arith,
}
use mathlib.Core.List.{cons-ne-nil}
use aq_md3_acquisition_conso.Common.Int.{ℤ, pos, negsuc, ◌≤ℤ◌, ltb_ℤ}
use aq_md3_acquisition_conso.Encode.{EncodedResult, UimfFrame}
use aq_md3_acquisition_conso.Live.{
  Sent, samples_misaligned, ZmqAcquiredDataSubscriber, Openings, see_value, see_values, see_rows,
  check_alignment, one_line,
}

-- Every sample that opens a gate, which is the first of a row or the first after a run of empty
-- bins, is at or above the floor.
unfoldable pub OpensAbove : ℤ → Bool → List ℤ → Type 0
OpensAbove floor opening [] = Unit
OpensAbove floor opening (negsuc n ∷ vals) = OpensAbove floor true vals
OpensAbove floor true (pos v ∷ vals) = (floor ≤ℤ pos v) × OpensAbove floor false vals
OpensAbove floor false (pos v ∷ vals) = OpensAbove floor false vals

abbrev pub AllOpenAbove : ℤ → List EncodedResult → Type 0
AllOpenAbove floor [] = Unit
AllOpenAbove floor (er ∷ rows) = OpensAbove floor true er.encoded_spectra × AllOpenAbove floor rows

-- The count of gates below only grows, and counts nothing exactly if they all open above.
see_values-below :
    (floor : ℤ) (vals : List ℤ) (g b : ℕ) (opening : Bool)
    → (b ≤ (see_values floor vals (record { gates = g; below = b; opening = opening })).below)
      × (((see_values floor vals (record { gates = g; below = b; opening = opening })).below ≡ b)
          ↔ OpensAbove floor opening vals)
unfolding see_values see_value OpensAbove
see_values-below floor [] g b opening = (omega arith, ((λ e. tt), (λ t. refl)))
see_values-below floor (negsuc n ∷ vals) g b opening = see_values-below floor vals g b true
see_values-below floor (pos v ∷ vals) g b false = see_values-below floor vals g b false
see_values-below floor (pos v ∷ vals) g b true =
    go (see_values-below floor vals (suc g) (suc b) false)
      (see_values-below floor vals (suc g) b false) (ltb_ℤ (pos v) floor) refl
  where
    Below : ℕ → Type 0
    Below b' =
        (b' ≤ (see_values floor vals (record { gates = suc g; below = b'; opening = false })).below)
        × (((see_values floor vals (record { gates = suc g; below = b'; opening = false })).below
              ≡ b')
            ↔ OpensAbove floor false vals)

    go :
        Below (suc b)
        → Below b
        → (x : Bool) → ltb_ℤ (pos v) floor ≡ x
        → (b
            ≤ (see_values floor vals
                (record { gates = suc g; below = if x then suc b else b; opening = false })).below)
          × (((see_values floor vals
                  (record { gates = suc g; below = if x then suc b else b; opening = false })).below
                ≡ b)
              ↔ ((floor ≤ℤ pos v) × OpensAbove floor false vals))
    go up on true e = (
      omega (arith, up.0),
      ((λ q. absurd (omega (arith, q, up.0))), (λ q. absurd (ground (arith, e, q.0)))),
    )
    go up on false e = (on.0, ((λ q. (ground (arith, e), on.1.0 q)), (λ q. on.1.1 q.1)))

see_rows-below :
    (floor : ℤ) (rows : List EncodedResult) (o : Openings)
    → (o.below ≤ (see_rows floor rows o).below)
      × (((see_rows floor rows o).below ≡ o.below) ↔ AllOpenAbove floor rows)
unfolding see_rows
see_rows-below floor [] o = (omega arith, ((λ e. tt), (λ t. refl)))
see_rows-below floor (er ∷ rows) o =
    let seen = see_values floor er.encoded_spectra (record o { opening = true }) in
    let (grows, same) = see_values-below floor er.encoded_spectra o.gates o.below true in
    let (grows', same') = see_rows-below floor rows seen in
    (
      omega (arith, grows, grows'),
      (
        (λ q.
            (same.0 (omega (arith, q, grows, grows')), same'.0 (omega (arith, q, grows, grows')))),
        (λ q. omega (arith, same.1 q.0, same'.1 q.1)),
      ),
    )

not_zero : (n : ℕ) → (suc n == 0) ≡ false
not_zero n = ground arith

silent_iff : (n : ℕ) (message : Sent) → ((if n == 0 then [] else message ∷ []) ≡ []) ↔ (n ≡ 0)
silent_iff zero message = ((λ e. refl), (λ e. refl))
silent_iff (suc n) message = (
  (λ e. absurd (
      cons-ne-nil message []
        (subst (λ (x : Bool). (if x then [] else message ∷ []) ≡ []) (not_zero n) e))),
  (λ e. absurd (omega arith)),
)

-- A frame passes the alignment check without a message exactly if in every row each sample that
-- opens a gate, the first or the first after a run of empty bins, is at or above the floor.
pub check_alignment_silent_iff :
    (s : ZmqAcquiredDataSubscriber) (item : UimfFrame)
    → (check_alignment s item ≡ []) ↔ AllOpenAbove s.first_sample_floor item.encoded_data
unfolding check_alignment
check_alignment_silent_iff s item =
    let o =
      see_rows s.first_sample_floor item.encoded_data
        (record { gates = 0; below = 0; opening = true }) in
    let (grows, same) =
      see_rows-below s.first_sample_floor item.encoded_data
        (record { gates = 0; below = 0; opening = true }) in
    let (nothing, empty) =
      silent_iff o.below (samples_misaligned o.below o.gates item.parameters.frame_number) in
    ((λ e. same.0 (nothing e)), (λ h. empty (same.1 h)))

abbrev pub IsInLine : ℕ → Type 0
IsInLine character = (character ≢ 13) × ((character ≢ 10) × (character ≢ 9))

-- A status text is one line of the length of what it tells.
pub one_line-InLine :
    (text : List ℕ) → All IsInLine (one_line text) × (length (one_line text) ≡ length text)
unfolding one_line
one_line-InLine [] = (tt, refl)
one_line-InLine (c ∷ text) =
    let (h, l) = one_line-InLine text in
    (((ground arith, (ground arith, ground arith)), h), ap suc l)
