-- ===== src/Cst/Clock.antt =====
-- A trigger's timestamp as libaqmd3/src/cstcontext.cpp and libaqmd3/src/cstzs1context.cpp read it.
use aq_md3_acquisition_conso.Common.{
  ℕ, ◌+◌, ◌-◌, ◌*◌, ◌/◌, ◌%◌, ◌^◌, ◌≤◌, ◌<◌, ◌≡◌, ◌↔◌, List, arith,
}
use aq_md3_acquisition_conso.Common.Bits.{bit_or_add}
use aq_md3_acquisition_conso.Zs1.Marker.{word_at}
use aq_md3_acquisition_conso.Zs1.Marker
use aq_md3_acquisition_conso.Cst.{trigger_timestamp}

timestamp-sum :
    (seg : List ℕ)
    → word_at seg 2 < 2 ^ 32
    → trigger_timestamp seg ≡ word_at seg 2 * 2 ^ 24 + word_at seg 1 / 2 ^ 8 % 2 ^ 24
unfolding trigger_timestamp
timestamp-sum seg h =
    let fits : word_at seg 2 * 2 ^ 24 % 2 ^ 64 ≡ word_at seg 2 * 2 ^ 24 = omega arith in
    rw fits (bit_or_add 24 (word_at seg 2) (word_at seg 1 / 2 ^ 8 % 2 ^ 24) (omega arith))

-- A high word with its top bit set is carried up and shifted: 2 ^ 64 - 2 ^ 56 too much.
signed-timestamp-low :
    (seg : List ℕ)
    → word_at seg 1 < 2 ^ 32
    → word_at seg 2 < 2 ^ 31
    → Marker.trigger_timestamp seg ≡ word_at seg 2 * 2 ^ 24 + word_at seg 1 / 2 ^ 8 % 2 ^ 24
unfolding Marker.trigger_timestamp
signed-timestamp-low seg l h =
    ground (arith, bit_or_add 24 (word_at seg 2) (word_at seg 1 / 2 ^ 8 % 2 ^ 24))

signed-timestamp-high :
    (seg : List ℕ)
    → word_at seg 1 < 2 ^ 32
    → 2 ^ 31 ≤ word_at seg 2
    → word_at seg 2 < 2 ^ 32
    → Marker.trigger_timestamp seg
      ≡ (word_at seg 2 + (2 ^ 40 - 2 ^ 32)) * 2 ^ 24 + word_at seg 1 / 2 ^ 8 % 2 ^ 24
unfolding Marker.trigger_timestamp
signed-timestamp-high seg l h u =
    ground
      (arith, bit_or_add 24 (word_at seg 2 + (2 ^ 40 - 2 ^ 32)) (word_at seg 1 / 2 ^ 8 % 2 ^ 24))

-- The two readings of a hunk's timestamp agree exactly while the top bit of its third word is clear.
pub timestamps_agree_iff :
    (seg : List ℕ)
    → word_at seg 1 < 2 ^ 32
    → word_at seg 2 < 2 ^ 32
    → (Marker.trigger_timestamp seg ≡ trigger_timestamp seg) ↔ (word_at seg 2 < 2 ^ 31)
timestamps_agree_iff seg l u =
    ground (arith, timestamp-sum seg, signed-timestamp-low seg, signed-timestamp-high seg)
