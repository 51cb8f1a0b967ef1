-- ===== src/Cst/Found.antt =====
-- The scan for trigger headers in libaqmd3/src/cstcontext.cpp beside the triggers of the stream.
use aq_md3_acquisition_conso.Common.{
  ℕ, zero, suc, ◌+◌, ◌/◌, ◌%◌, ◌^◌, ◌≤◌, ◌<◌, ◌≡◌, refl, sym, ap, ◌∙◌, inl, inr, List, [], ◌∷◌,
  ◌++◌, arith, length, take, drop, leb, ◌==◌, if◌then◌else◌, Bool-cases, length-append,
  append_assoc, append-nil,
}
use aq_md3_acquisition_conso.Stream.{TriggerData, Fetch}
use aq_md3_acquisition_conso.Zs1.Marker.{tag}
use aq_md3_acquisition_conso.Zs1.Hunks.{hunks}
use aq_md3_acquisition_conso.Zs1.Delivery.{fetch_hunks, hunks-prefix, drop-prefix, length-dropped}
use aq_md3_acquisition_conso.Cst.{decode_trigger, Scan, scan_hunks, scan_fetch, overwrite}

-- The trigger hunks of a stream, decoded.
unfoldable pub triggers_of : List (List ℕ) → List TriggerData
triggers_of [] = []
triggers_of (h ∷ hs) = if tag h == 0x01 then decode_trigger h ∷ triggers_of hs else triggers_of hs

pub triggers_of-append :
    (hs hs' : List (List ℕ)) → triggers_of (hs ++ hs') ≡ triggers_of hs ++ triggers_of hs'
unfolding triggers_of
triggers_of-append [] hs' = refl
triggers_of-append (h ∷ hs) hs' = ground (arith, triggers_of-append hs hs')

pub take_append {ℓ} :
    {A : Type ℓ} (n : ℕ) (xs ys : List A) → take n (take n xs ++ ys) ≡ take n (xs ++ ys)
take_append zero xs ys = refl
take_append (suc n) [] ys = refl
take_append (suc n) (x ∷ xs) ys = ap (◌∷◌ x) (take_append n xs ys)

pub take_all {ℓ} : {A : Type ℓ} (n : ℕ) (xs ys : List A) → length xs ≡ n → take n (xs ++ ys) ≡ xs
take_all zero [] ys h = refl
take_all zero (x ∷ xs) ys h = absurd (omega arith)
take_all (suc n) [] ys h = absurd (omega arith)
take_all (suc n) (x ∷ xs) ys h = ap (◌∷◌ x) (take_all n xs ys (omega arith))

pub take_short {ℓ} : {A : Type ℓ} (n : ℕ) (xs : List A) → length xs ≤ n → take n xs ≡ xs
take_short zero [] h = refl
take_short zero (x ∷ xs) h = absurd (omega arith)
take_short (suc n) [] h = refl
take_short (suc n) (x ∷ xs) h = ap (◌∷◌ x) (take_short n xs (omega arith))

pub length_capped {ℓ} : {A : Type ℓ} (n : ℕ) (xs : List A) → length (take n xs) ≤ n
length_capped zero xs = omega arith
length_capped (suc n) [] = omega arith
length_capped (suc n) (x ∷ xs) = omega (arith, length_capped n xs)

scan_hunks-found :
    (t n : ℕ) (ptr : List ℕ) (s : Scan)
    → tag (take 16 ptr) ≡ 0x01
    → scan_hunks t (suc n) ptr s ≡ (
        if leb t (length (s.stamps ++ decode_trigger (take 16 ptr) ∷ []))
        then record s { stamps = s.stamps ++ decode_trigger (take 16 ptr) ∷ [] }
        else scan_hunks t n
            (drop 16 ptr)
            (record s { stamps = s.stamps ++ decode_trigger (take 16 ptr) ∷ [] }))
unfolding scan_hunks
scan_hunks-found t n ptr s e = ground arith

scan_hunks-stamps :
    (t n : ℕ) (ptr : List ℕ) (s : Scan)
    → length s.stamps < t
    → (scan_hunks t n ptr s).stamps ≡ take t (s.stamps ++ triggers_of (hunks n ptr))
unfolding scan_hunks triggers_of
scan_hunks-stamps t zero ptr s h =
    sym (ap (take t) (append-nil s.stamps) ∙ take_short t s.stamps (omega arith))
scan_hunks-stamps t (suc n) ptr s h =
    let seg = take 16 ptr in
    let found = s.stamps ++ decode_trigger seg ∷ [] in
    let more = triggers_of (hunks n (drop 16 ptr)) in
    elim (Bool-cases (tag seg == 0x01)) [
      | inl one ↦
          let joined : take t (found ++ more) ≡ take t (s.stamps ++ decode_trigger seg ∷ more) =
            ap (take t) (append_assoc s.stamps (decode_trigger seg ∷ []) more) in
          elim (Bool-cases (leb t (length found))) [
            | inl enough ↦
                let exact : length found ≡ t =
                  ground (arith, length-append s.stamps (decode_trigger seg ∷ [])) in
                ground (arith, joined, take_all t found more exact)
            | inr few ↦
                let below : length found < t = ground arith in
                ground (
                  arith,
                  joined,
                  scan_hunks-stamps t n (drop 16 ptr) (record s { stamps = found }) below,
                )
          ]
      | inr other ↦ ground (
        arith,
        scan_hunks-stamps t n (drop 16 ptr)
            (record s { hunks_skipped = (s.hunks_skipped + 1) % 2 ^ 64 }) h,
      )
    ]

-- An answer with its valid elements among the words that it wrote.
abbrev pub IsInside : Fetch → Type 0
IsInside f = f.first_valid_element + f.actual_elements ≤ length f.words

pub scan_fetch-stamps :
    (t : ℕ) (f : Fetch) (s : Scan)
    → IsInside f
    → length s.stamps < t
    → (scan_fetch t f s).stamps ≡ take t (s.stamps ++ triggers_of (fetch_hunks f))
unfolding scan_fetch
scan_fetch-stamps t f s i h =
    scan_hunks-stamps t (f.actual_elements / 16)
      (drop f.first_valid_element (overwrite f.words s.markers_buffer))
      (record s { markers_buffer = overwrite f.words s.markers_buffer }) h
    ∙ ap (λ hs. take t (s.stamps ++ triggers_of hs))
        (ap (hunks (f.actual_elements / 16)) (
            drop-prefix f.first_valid_element f.words (drop (length f.words) s.markers_buffer)
              (omega arith))
          ∙ hunks-prefix (f.actual_elements / 16) (drop f.first_valid_element f.words) _
              (omega (arith, length-dropped f.first_valid_element f.words)))
