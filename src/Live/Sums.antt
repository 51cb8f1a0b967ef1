-- ===== src/Live/Sums.antt =====
-- What the sums of ZmqAcquiredDataSubscriber::on_notify hold
-- (AqMD3_console/src/zmqacquireddatasubscriber.cpp).
use aq_md3_acquisition_conso.Common.{
  ℕ, zero, suc, ◌+◌, ◌-◌, ◌^◌, ◌<◌, ◌≡◌, refl, sym, subst, ◌∙◌, List, [], ◌∷◌, length, replicate,
  get_or, length-set, ◌==◌, ltb, if◌then◌else◌, arith,
}
use aq_md3_acquisition_conso.Common.Int.{ℤ, pos, negsuc}
use aq_md3_acquisition_conso.Common.Word.{u32}
use aq_md3_acquisition_conso.Encode.{EncodedResult}
use aq_md3_acquisition_conso.Encode.Reader.{bins, read}
use aq_md3_acquisition_conso.Live.{summed, add_at, add_values}

get_or-add_at :
    (xs : List ℕ) (i j v : ℕ)
    → i < length xs
    → get_or (add_at xs i v) j 0 ≡ (if j == i then u32 (get_or xs j 0 + v) else get_or xs j 0)
get_or-add_at [] i j v h = absurd (omega arith)
get_or-add_at (x ∷ xs) zero zero v h = ground arith
get_or-add_at (x ∷ xs) zero (suc j) v h = ground arith
get_or-add_at (x ∷ xs) (suc i) zero v h = ground arith
get_or-add_at (x ∷ xs) (suc i) (suc j) v h = ground (arith, get_or-add_at xs i j v (omega arith))

pub get_or-replicate : (n i : ℕ) → get_or {A = ℕ} (replicate n 0) i 0 ≡ (let z : ℕ = 0 in z)
get_or-replicate zero i = refl
get_or-replicate (suc n) zero = refl
get_or-replicate (suc n) (suc i) = get_or-replicate n i

-- The sums are words of 32 bits.
abbrev IsWords : List ℕ → Type 0
IsWords vec = (i : ℕ) → get_or vec i 0 < 2 ^ 32

add_at-IsWords :
    (vec : List ℕ) (index v : ℕ) → index < length vec → IsWords vec → IsWords (add_at vec index v)
add_at-IsWords vec index v h w i = ground (arith, get_or-add_at vec index i v h, w i)

-- No skip of the row reaches the end of the vector, and no value lies past it.
unfoldable pub Fits : ℕ → ℕ → List ℤ → Type 0
Fits size index [] = Unit
Fits size index (negsuc n ∷ vals) = (index + suc n < size) × Fits size (index + suc n) vals
Fits size index (pos v ∷ vals) = (index < size) × Fits size (suc index) vals

-- Where a reader of the row that starts at `index` finds bin `i`.
abbrev pub read_from : ℕ → List ℤ → ℕ → ℕ
read_from index vals i = if ltb i index then 0 else read vals (i - index)

pub add_values-Fits :
    (vals : List ℤ) (index : ℕ) (vec : List ℕ)
    → Fits (length vec) index vals
    → IsWords vec
    → (out : List ℕ) × ((add_values vals index vec ≡ summed out)
        × ((length out ≡ length vec)
            × ((i : ℕ) → get_or out i 0 ≡ u32 (get_or vec i 0 + read_from index vals i))))
unfolding add_values Fits read bins
add_values-Fits [] index vec h w = (vec, (refl, (refl, λ i. ground (arith, w i))))
add_values-Fits (negsuc n ∷ vals) index vec h w =
    let (out, (e, (l, g))) = add_values-Fits vals (index + suc n) vec h.1 w in
    (out, (ground (arith, e, h.0), (l, λ i. ground (arith, g i))))
add_values-Fits (pos v ∷ vals) index vec h w =
    let (out, (e, (l, g))) =
      add_values-Fits vals (suc index) (add_at vec index v)
        (subst (λ k. Fits k (suc index) vals)
          (sym (length-set vec index (u32 (get_or vec index 0 + v)))) h.1)
        (add_at-IsWords vec index v h.0 w) in
    (
      out,
      (
        ground (arith, e, h.0),
        (
          l ∙ length-set vec index (u32 (get_or vec index 0 + v)),
          λ i. ground (arith, g i, get_or-add_at vec index i v h.0),
        ),
      ),
    )

abbrev pub AllFit : ℕ → List EncodedResult → Type 0
AllFit size [] = Unit
AllFit size (er ∷ rows) = Fits size 0 er.encoded_spectra × AllFit size rows

-- What a reader of every row finds at a bin, together.
unfoldable pub read_all : List EncodedResult → ℕ → ℕ
read_all [] i = 0
read_all (er ∷ rows) i = read er.encoded_spectra i + read_all rows i
