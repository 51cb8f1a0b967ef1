-- ===== src/Encode/Tallies.antt =====
-- What a run of empty bins and the samples of a gate do to the tally of a trigger
-- (AqMD3_console/src/uimfacquisitionrecord.cpp).
use aq_md3_acquisition_conso.Common.{
  ℕ, zero, suc, ◌+◌, ◌^◌, ◌≤◌, ◌<◌, ◌≡◌, ◌⊎◌, inl, inr, refl, sym, ap, subst, ◌∙◌, List,
  if◌then◌else◌, [], ◌∷◌, push_back, All, All-append, ltb, arith,
}
use aq_md3_acquisition_conso.Common.Int.{ℤ, pos, ◌+ℤ◌}
use aq_md3_acquisition_conso.Common.Word.{u64, signed32, int32}
use aq_md3_acquisition_conso.Buffer.{AcquisitionBuffer}
use aq_md3_acquisition_conso.Encode.{
  Tally, fresh_tally, skip_gap, store_sample, store_samples, sample_value,
}
use aq_md3_acquisition_conso.Encode.Reader.{
  width, bins, intensity, read, stored, total, width-push_back, stored-push_back_pos,
  total-push_back, read-push_back_below, read-push_back_at,
}
use aq_md3_acquisition_conso.Encode.Runs.{
  IsUnambiguous, sample_value-Fits, width-push_gap, stored-push_gap, total-push_gap,
  read-push_gap_below, All-push_gap,
}

abbrev pub IsBelow : ℕ → ℤ → Type 0
IsBelow peak v = intensity v ≤ peak

-- A tally that describes the spectrum it carries, to one who reads that spectrum.
pub record IsTrue (t : Tally) : Type 0 where
  pub zeros : ℕ
  pub zeros_kept : t.zero_count ≡ pos zeros
  pub covered : width t.encoded_samples ≡ t.non_zero_count + zeros
  pub counted : stored t.encoded_samples ≡ t.non_zero_count
  pub summed : t.tic ≡ u64 (total t.encoded_samples)
  pub unambiguous : All IsUnambiguous t.encoded_samples
  pub peak : ℕ
  pub peak_kept : t.bpi ≡ pos peak
  pub highest : All (IsBelow peak) t.encoded_samples
  pub peak_bin : ℕ
  pub bin_kept : t.index_max_intensity ≡ pos peak_bin
  pub read_there :
      (peak ≡ 0) ⊎ (peak_bin < width t.encoded_samples) × (read t.encoded_samples peak_bin ≡ peak)

pub fresh-True : IsTrue fresh_tally
unfolding width stored total
fresh-True = record {
  zeros = 0;
  zeros_kept = refl;
  covered = refl;
  counted = refl;
  summed = omega arith;
  unambiguous = tt;
  peak = 0;
  peak_kept = refl;
  highest = tt;
  peak_bin = 0;
  bin_kept = refl;
  read_there = inl refl;
}

raise-Below : (p q : ℕ) (xs : List ℤ) → p ≤ q → All (IsBelow p) xs → All (IsBelow q) xs
raise-Below p q [] h a = tt
raise-Below p q (x ∷ xs) h a = (omega arith, raise-Below p q xs h a.1)

zeros_and :
    (z : ℤ) (empty n : ℕ)
    → z ≡ pos empty
    → empty + n < 2 ^ 31
    → int32 (z +ℤ pos n) ≡ pos (empty + n)
zeros_and z empty n e h = ground arith

pub skip_gap-True :
    (n : ℕ) (t : Tally)
    → width t.encoded_samples + n < 2 ^ 31
    → IsTrue t
    → IsTrue (skip_gap (pos n) t)
unfolding skip_gap
skip_gap-True n t room h = record {
  zeros = h.zeros + n;
  zeros_kept = zeros_and t.zero_count h.zeros n h.zeros_kept (omega (arith, h.covered));
  covered = omega (arith, width-push_gap n t.encoded_samples);
  counted = stored-push_gap (pos n) t.encoded_samples ∙ h.counted;
  summed = h.summed ∙ ap u64 (sym (total-push_gap (pos n) t.encoded_samples));
  unambiguous = All-push_gap IsUnambiguous (λ k p. p) (pos n) t.encoded_samples h.unambiguous;
  peak = h.peak;
  peak_kept = h.peak_kept;
  highest = All-push_gap (IsBelow h.peak) (λ k p. omega arith) (pos n) t.encoded_samples h.highest;
  peak_bin = h.peak_bin;
  bin_kept = h.bin_kept;
  read_there = elim h.read_there [
    | inl e ↦ inl e
    | inr e ↦ inr (
      omega (arith, width-push_gap n t.encoded_samples),
      read-push_gap_below (pos n) t.encoded_samples h.peak_bin e.0 ∙ e.1,
    )
  ];
}

-- The place of the sample that comes next.
place_of :
    (t : Tally) (h : IsTrue t)
    → suc (width t.encoded_samples) < 2 ^ 31
    → int32 (signed32 t.non_zero_count +ℤ t.zero_count) ≡ pos (t.non_zero_count + h.zeros)
place_of t h room = ground (arith, h.covered, h.zeros_kept)

store_sample-True :
    (v : ℕ) (t : Tally)
    → suc (width t.encoded_samples) < 2 ^ 31
    → IsTrue t
    → IsTrue (store_sample (pos v) t)
unfolding store_sample bins
store_sample-True v t room h = record {
  zeros = h.zeros;
  zeros_kept = h.zeros_kept;
  covered = omega (arith, h.covered, width-push_back t.encoded_samples (pos v));
  counted = omega (arith, h.covered, h.counted, stored-push_back_pos t.encoded_samples v);
  summed = ground (arith, total-push_back t.encoded_samples (pos v));
  unambiguous = All-append IsUnambiguous t.encoded_samples (pos v ∷ []) h.unambiguous (tt, tt);
  peak = if ltb h.peak v then v else h.peak;
  peak_kept = ground (arith, h.peak_kept);
  highest =
      All-append (IsBelow (if ltb h.peak v then v else h.peak)) t.encoded_samples (pos v ∷ [])
        (raise-Below h.peak (if ltb h.peak v then v else h.peak) t.encoded_samples (ground arith)
          h.highest)
        (ground arith, tt);
  peak_bin = if ltb h.peak v then t.non_zero_count + h.zeros else h.peak_bin;
  bin_kept = ground (arith, h.peak_kept, place_of t h room, h.bin_kept);
  read_there = elim h.read_there [
    | inl e ↦ ground (
      arith,
      width-push_back t.encoded_samples (pos v),
      subst (λ w. read (push_back t.encoded_samples (pos v)) w ≡ v) h.covered
          (read-push_back_at t.encoded_samples v),
    )
    | inr e ↦ ground (
      arith,
      width-push_back t.encoded_samples (pos v),
      subst (λ w. read (push_back t.encoded_samples (pos v)) w ≡ v) h.covered
          (read-push_back_at t.encoded_samples v),
      read-push_back_below t.encoded_samples (pos v) h.peak_bin e.0,
    )
  ];
}

width-store_sample :
    (b : AcquisitionBuffer) (ptr i : ℕ) (t : Tally)
    → width (store_sample (sample_value b ptr i) t).encoded_samples ≡ suc (width t.encoded_samples)
unfolding store_sample bins
width-store_sample b ptr i t =
    let (v, (e, p)) = sample_value-Fits b ptr i in
    subst (λ x. width (push_back t.encoded_samples x) ≡ suc (width t.encoded_samples)) (sym e)
      (omega (arith, width-push_back t.encoded_samples (pos v)))

pub width-store_samples :
    (b : AcquisitionBuffer) (ptr i n : ℕ) (t : Tally)
    → width (store_samples b ptr i n t).encoded_samples ≡ width t.encoded_samples + n
unfolding store_samples
width-store_samples b ptr i zero t = omega arith
width-store_samples b ptr i (suc n) t = omega (
  arith,
  width-store_sample b ptr i t,
  width-store_samples b ptr (suc i) n (store_sample (sample_value b ptr i) t),
)

pub store_samples-True :
    (b : AcquisitionBuffer) (ptr i n : ℕ) (t : Tally)
    → width t.encoded_samples + n < 2 ^ 31
    → IsTrue t
    → IsTrue (store_samples b ptr i n t)
unfolding store_samples
store_samples-True b ptr i zero t room h = h
store_samples-True b ptr i (suc n) t room h =
    let (v, (e, p)) = sample_value-Fits b ptr i in
    store_samples-True b ptr (suc i) n (store_sample (sample_value b ptr i) t)
      (omega (arith, width-store_sample b ptr i t))
      (subst (λ x. IsTrue (store_sample x t)) (sym e) (store_sample-True v t (omega arith) h))
