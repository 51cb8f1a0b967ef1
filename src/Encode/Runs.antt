-- ===== src/Encode/Runs.antt =====
-- The runs and the samples that UimfAcquisitionRecord::process writes
-- (AqMD3_console/src/uimfacquisitionrecord.cpp).
use aq_md3_acquisition_conso.Common.{
  ℕ, ◌+◌, ◌^◌, ◌<◌, ◌≡◌, ◌⊎◌, inl, inr, ◌-◌, ◌≢◌, refl, sym, subst, List, [], ◌∷◌, push_back, All,
  All-append, arith,
}
use aq_md3_acquisition_conso.Common.Int.{ℤ, pos, negsuc, pos_part}
use aq_md3_acquisition_conso.Buffer.{AcquisitionBuffer}
use aq_md3_acquisition_conso.Encode.{sample_value, push_gap}
use aq_md3_acquisition_conso.Encode.Reader.{
  width, bins, stored, total, read, read-push_back_below, width-push_back, stored-push_back_negsuc,
  total-push_back,
}

-- A stored sample is a number of 16 bits: it is never taken for a run.
pub sample_value-Fits :
    (b : AcquisitionBuffer) (ptr i : ℕ) → (v : ℕ) × ((sample_value b ptr i ≡ pos v) × (v < 2 ^ 16))
unfolding sample_value
sample_value-Fits b ptr i = (pos_part (sample_value b ptr i), (ground arith, ground arith))

-- The run length that UIMF-Library reads in two ways.
abbrev pub IsUnambiguous : ℤ → Type 0
IsUnambiguous (pos v) = Unit
IsUnambiguous (negsuc n) = n ≢ 32767

-- What `push_gap` writes.
push_gap-cases :
    (n : ℕ) (xs : List ℤ)
    → (push_gap (pos n) xs ≡ push_back (push_back xs (negsuc 32766)) (negsuc 0)) × (n ≡ 32768)
      ⊎ (push_gap (pos n) xs ≡ push_back xs (negsuc (n - 1))) × ((0 < n) × (n ≢ 32768))
      ⊎ (push_gap (pos n) xs ≡ xs) × (n ≡ 0)
unfolding push_gap
push_gap-cases n xs = ground arith

-- What holds of every run but -32768 holds of what a gap adds.
pub All-push_gap :
    (P : ℤ → Type 0) (h : (n : ℕ) → n ≢ 32767 → P (negsuc n)) (gap : ℤ) (xs : List ℤ)
    → All P xs
    → All P (push_gap gap xs)
unfolding push_gap
All-push_gap P h (negsuc n) xs hs = hs
All-push_gap P h (pos n) xs hs = elim (push_gap-cases n xs) [
  | inl e ↦ subst (All P) (sym e.0) (
      All-append P (push_back xs (negsuc 32766)) (negsuc 0 ∷ [])
        (All-append P xs (negsuc 32766 ∷ []) hs (h 32766 (omega arith), tt))
        (h 0 (omega arith), tt))
  | inr (inl e) ↦
      subst (All P) (sym e.0)
        (All-append P xs (negsuc (n - 1) ∷ []) hs (h (n - 1) (omega arith), tt))
  | inr (inr e) ↦ subst (All P) (sym e.0) hs
]

pub width-push_gap : (gap : ℕ) (xs : List ℤ) → width (push_gap (pos gap) xs) ≡ width xs + gap
unfolding push_gap bins
width-push_gap gap xs = ground (
  arith,
  width-push_back xs (negsuc 32766),
  width-push_back (push_back xs (negsuc 32766)) (negsuc 0),
  width-push_back xs (negsuc (gap - 1)),
)

pub stored-push_gap : (gap : ℤ) (xs : List ℤ) → stored (push_gap gap xs) ≡ stored xs
unfolding push_gap bins
stored-push_gap (negsuc n) xs = refl
stored-push_gap (pos gap) xs = ground (
  arith,
  stored-push_back_negsuc xs 32766,
  stored-push_back_negsuc (push_back xs (negsuc 32766)) 0,
  stored-push_back_negsuc xs (gap - 1),
)

pub total-push_gap : (gap : ℤ) (xs : List ℤ) → total (push_gap gap xs) ≡ total xs
unfolding push_gap bins
total-push_gap (negsuc n) xs = refl
total-push_gap (pos gap) xs = ground (
  arith,
  total-push_back xs (negsuc 32766),
  total-push_back (push_back xs (negsuc 32766)) (negsuc 0),
  total-push_back xs (negsuc (gap - 1)),
)

-- A gap hides nothing that was written, and puts no intensity in.
pub read-push_gap_below :
    (gap : ℤ) (xs : List ℤ) (i : ℕ) → i < width xs → read (push_gap gap xs) i ≡ read xs i
unfolding push_gap
read-push_gap_below (negsuc n) xs i h = refl
read-push_gap_below (pos gap) xs i h = ground (
  arith,
  width-push_back xs (negsuc 32766),
  read-push_back_below xs (negsuc 32766) i h,
  read-push_back_below (push_back xs (negsuc 32766)) (negsuc 0) i
      (omega (arith, width-push_back xs (negsuc 32766))),
  read-push_back_below xs (negsuc (gap - 1)) i h,
)
