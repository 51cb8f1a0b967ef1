-- ===== src/Encode/Reader.antt =====
-- A reader of an encoded spectrum, as the subscribers and the file's readers walk it: a value below
-- zero skips that many bins, any other fills one. `UimfAcquisitionRecord::process` writes for it.
use aq_md3_acquisition_conso.Common.{
  ℕ, suc, ◌+◌, ◌-◌, ◌<◌, ◌≡◌, refl, List, [], ◌∷◌, push_back, ltb, if◌then◌else◌, arith,
}
use aq_md3_acquisition_conso.Common.Int.{ℤ, pos, negsuc}

unfoldable pub bins : ℤ → ℕ
bins (pos v) = 1
bins (negsuc n) = suc n

-- The bins that a spectrum covers.
unfoldable pub width : List ℤ → ℕ
width [] = 0
width (x ∷ xs) = bins x + width xs

abbrev pub intensity : ℤ → ℕ
intensity (pos v) = v
intensity (negsuc n) = 0

-- The intensity at a bin.
unfoldable pub read : List ℤ → ℕ → ℕ
read [] i = 0
read (x ∷ xs) i = if ltb i (bins x) then intensity x else read xs (i - bins x)

-- The samples stored, and their sum.
unfoldable pub stored : List ℤ → ℕ
stored [] = 0
stored (pos v ∷ xs) = suc (stored xs)
stored (negsuc n ∷ xs) = stored xs

unfoldable pub total : List ℤ → ℕ
total [] = 0
total (x ∷ xs) = intensity x + total xs

pub width-push_back : (xs : List ℤ) (x : ℤ) → width (push_back xs x) ≡ width xs + bins x
unfolding width
width-push_back [] x = omega arith
width-push_back (y ∷ xs) x = omega (arith, width-push_back xs x)

pub stored-push_back_pos : (xs : List ℤ) (v : ℕ) → stored (push_back xs (pos v)) ≡ suc (stored xs)
unfolding stored
stored-push_back_pos [] v = refl
stored-push_back_pos (pos w ∷ xs) v = omega (arith, stored-push_back_pos xs v)
stored-push_back_pos (negsuc n ∷ xs) v = stored-push_back_pos xs v

pub stored-push_back_negsuc : (xs : List ℤ) (n : ℕ) → stored (push_back xs (negsuc n)) ≡ stored xs
unfolding stored
stored-push_back_negsuc [] n = refl
stored-push_back_negsuc (pos w ∷ xs) n = omega (arith, stored-push_back_negsuc xs n)
stored-push_back_negsuc (negsuc m ∷ xs) n = stored-push_back_negsuc xs n

pub total-push_back : (xs : List ℤ) (x : ℤ) → total (push_back xs x) ≡ total xs + intensity x
unfolding total
total-push_back [] x = omega arith
total-push_back (y ∷ xs) x = omega (arith, total-push_back xs x)

-- Writing on leaves what is covered as it was.
pub read-push_back_below :
    (xs : List ℤ) (x : ℤ) (i : ℕ) → i < width xs → read (push_back xs x) i ≡ read xs i
unfolding read width
read-push_back_below [] x i h = absurd (omega arith)
read-push_back_below (y ∷ xs) x i h = ground (arith, read-push_back_below xs x (i - bins y))

pub read-push_back_at : (xs : List ℤ) (v : ℕ) → read (push_back xs (pos v)) (width xs) ≡ v
unfolding read width bins
read-push_back_at [] v = ground arith
read-push_back_at (y ∷ xs) v = ground (arith, read-push_back_at xs v)
