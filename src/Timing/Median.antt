-- ===== src/Timing/Median.antt =====
-- The median difference and the calls of the measurement
-- (AqMD3_console/src/massspec/toftiminginformation.cpp).
use aq_md3_acquisition_conso.Common.{
  ℕ, zero, suc, ◌+◌, ◌*◌, ◌/◌, ◌≤◌, ◌<◌, ◌≡◌, refl, ◌⊎◌, inl, inr, Bool, ◌&&◌, List, [], ◌∷◌, arith,
  length, get_or, leb, if◌then◌else◌, All, Bool-cases,
}
use aq_md3_acquisition_conso.Stream.{TriggerData}
use aq_md3_acquisition_conso.Timing.{
  differences, insert_sorted, sort, nth_element, period_of, ok, Session, Call, starts, acquires,
  stops, hanging, measure,
}

abbrev pub in_band : ℕ → ℕ → ℕ → Bool
in_band lo hi x = leb lo x && leb x hi

-- How many of some numbers lie between `lo` and `hi`.
abbrev pub count_in : ℕ → ℕ → List ℕ → ℕ
count_in lo hi [] = 0
count_in lo hi (x ∷ xs) = (if in_band lo hi x then 1 else 0) + count_in lo hi xs

insert_sorted-count :
    (lo hi x : ℕ) (xs : List ℕ) → count_in lo hi (insert_sorted x xs) ≡ count_in lo hi (x ∷ xs)
unfolding insert_sorted
insert_sorted-count lo hi x [] = refl
insert_sorted-count lo hi x (y ∷ ys) = ground (arith, insert_sorted-count lo hi x ys)

sort-count : (lo hi : ℕ) (xs : List ℕ) → count_in lo hi (sort xs) ≡ count_in lo hi xs
unfolding sort
sort-count lo hi [] = refl
sort-count lo hi (x ∷ xs) =
    omega (arith, insert_sorted-count lo hi x (sort xs), sort-count lo hi xs)

insert_sorted-length : (x : ℕ) (xs : List ℕ) → length (insert_sorted x xs) ≡ suc (length xs)
unfolding insert_sorted
insert_sorted-length x [] = refl
insert_sorted-length x (y ∷ ys) = ground (arith, insert_sorted-length x ys)

sort-length : (xs : List ℕ) → length (sort xs) ≡ length xs
unfolding sort
sort-length [] = refl
sort-length (x ∷ xs) = omega (arith, insert_sorted-length x (sort xs), sort-length xs)

abbrev IsAscending : List ℕ → Type 0
IsAscending [] = Unit
IsAscending (x ∷ xs) = All (λ y. x ≤ y) xs × IsAscending xs

All-le_trans : (a b : ℕ) (xs : List ℕ) → a ≤ b → All (λ y. b ≤ y) xs → All (λ y. a ≤ y) xs
All-le_trans a b [] h v = tt
All-le_trans a b (x ∷ xs) h v = (omega (arith, v.0), All-le_trans a b xs h v.1)

insert_sorted-All :
    (a x : ℕ) (xs : List ℕ) → a ≤ x → All (λ y. a ≤ y) xs → All (λ y. a ≤ y) (insert_sorted x xs)
unfolding insert_sorted
insert_sorted-All a x [] h v = (h, tt)
insert_sorted-All a x (y ∷ ys) h v = ground (arith, insert_sorted-All a x ys h v.1)

insert_sorted-IsAscending :
    (x : ℕ) (xs : List ℕ) → IsAscending xs → IsAscending (insert_sorted x xs)
unfolding insert_sorted
insert_sorted-IsAscending x [] v = (tt, tt)
insert_sorted-IsAscending x (y ∷ ys) v = elim (Bool-cases (leb x y)) [
  | inl le ↦ let h : x ≤ y = ground arith in rw le ((h, All-le_trans x y ys h v.0), v)
  | inr gt ↦
      let h : y ≤ x = ground arith in
      rw gt (insert_sorted-All y x ys h v.0, insert_sorted-IsAscending x ys v.1)
]

sort-IsAscending : (xs : List ℕ) → IsAscending (sort xs)
unfolding sort
sort-IsAscending [] = tt
sort-IsAscending (x ∷ xs) = insert_sorted-IsAscending x (sort xs) (sort-IsAscending xs)

count_in-le : (lo hi : ℕ) (xs : List ℕ) → count_in lo hi xs ≤ length xs
count_in-le lo hi [] = omega arith
count_in-le lo hi (x ∷ xs) = ground (arith, count_in-le lo hi xs)

count_in_above : (lo hi a : ℕ) (xs : List ℕ) → hi < a → All (λ y. a ≤ y) xs → count_in lo hi xs ≡ 0
count_in_above lo hi a [] h v = refl
count_in_above lo hi a (x ∷ xs) h v = ground (arith, count_in_above lo hi a xs h v.1)

get_or-All : (a k : ℕ) (xs : List ℕ) → k < length xs → All (λ y. a ≤ y) xs → a ≤ get_or xs k 0
get_or-All a k [] h v = absurd (omega arith)
get_or-All a zero (x ∷ xs) h v = v.0
get_or-All a (suc k) (x ∷ xs) h v = get_or-All a k xs (omega arith) v.1

-- In ascending order, an element above the band has all later ones above it, and one below it has
-- all earlier ones below it.
count_before :
    (lo hi k : ℕ) (xs : List ℕ)
    → IsAscending xs
    → k < length xs
    → hi < get_or xs k 0
    → count_in lo hi xs ≤ k
count_before lo hi k [] v h b = absurd (omega arith)
count_before lo hi zero (x ∷ xs) v h b = ground (arith, count_in_above lo hi x xs b v.0)
count_before lo hi (suc k) (x ∷ xs) v h b =
    ground (arith, count_before lo hi k xs v.1 (omega arith) b)

count_after :
    (lo hi k : ℕ) (xs : List ℕ)
    → IsAscending xs
    → k < length xs
    → get_or xs k 0 < lo
    → count_in lo hi xs + k < length xs
count_after lo hi k [] v h b = absurd (omega arith)
count_after lo hi zero (x ∷ xs) v h b = ground (arith, count_in-le lo hi xs)
count_after lo hi (suc k) (x ∷ xs) v h b =
    let small : x ≤ get_or xs k 0 = get_or-All x k xs (omega arith) v.0 in
    ground (arith, count_after lo hi k xs v.1 (omega arith) b)

majority_sorted :
    (lo hi k : ℕ) (xs : List ℕ)
    → IsAscending xs
    → k ≡ length xs / 2
    → length xs < 2 * count_in lo hi xs
    → (lo ≤ get_or xs k 0) × (get_or xs k 0 ≤ hi)
majority_sorted lo hi k xs v e most =
    let inside : k < length xs = omega (arith, count_in-le lo hi xs) in
    ground (arith, count_before lo hi k xs v inside, count_after lo hi k xs v inside)

-- If more than half of the differences lie in a band, so does the period that is measured, whatever
-- the others are.
pub period_rides_out_minority :
    (lo hi : ℕ) (stamps : List TriggerData)
    → 2 ≤ length stamps
    → length (differences stamps) < 2 * count_in lo hi (differences stamps)
    → (period : ℕ) × (period_of stamps ≡ ok period) × (lo ≤ period) × (period ≤ hi)
unfolding period_of nth_element
period_rides_out_minority lo hi stamps enough most =
    let ds = differences stamps in
    let same = sort-length ds in
    let band =
      majority_sorted lo hi (length ds / 2) (sort ds) (sort-IsAscending ds) (rw same)
        (omega (arith, same, sort-count lo hi ds)) in
    (get_or (sort ds) (length ds / 2) 0, ground arith, band.0, band.1)

abbrev pub EndsStopped : List Call → Type 0
EndsStopped [] = ⊥
EndsStopped (c ∷ []) = c ≡ stops
EndsStopped (c ∷ d ∷ cs) = EndsStopped (d ∷ cs)

abbrev pub acquisitions : List Call → ℕ
acquisitions [] = 0
acquisitions (acquires ∷ cs) = suc (acquisitions cs)
acquisitions (starts ∷ cs) = acquisitions cs
acquisitions (stops ∷ cs) = acquisitions cs

-- The measurement makes one or two attempts at most, and unless an acquire never comes back, the
-- last call it makes is a stop, whatever failed.
pub measure_stops :
    (s : Session)
    → (acquisitions (measure s).1 ≤ 2) × (((measure s).0 ≡ hanging) ⊎ EndsStopped (measure s).1)
unfolding measure
measure_stops s = ground arith
