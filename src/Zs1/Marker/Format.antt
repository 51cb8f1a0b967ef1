-- ===== src/Zs1/Marker/Format.antt =====
-- The layout of a marker, written out from the fields, and what the decoder makes of it.
use aq_md3_acquisition_conso.Common.{
  ℕ, ◌+◌, ◌-◌, ◌*◌, ◌/◌, ◌%◌, ◌^◌, ◌≤◌, ◌<◌, ◌≡◌, List, [], ◌∷◌, arith, replicate,
}
use aq_md3_acquisition_conso.Common.Int.{pos}
use aq_md3_acquisition_conso.Common.Bits.{bit_or_add}
use aq_md3_acquisition_conso.Zs1.Marker.{
  tag, trigger_timestamp, trigger_index, trigger_subsample, decode_trigger, block_index,
  block_position, memory_blocks, unwrapped_end, gate_elements, decode_gate,
}

-- A trigger hunk: the tag below a 24-bit index, the fraction below the low 24 bits of the timestamp,
-- and the rest of the timestamp.
abbrev pub trigger_hunk : ℕ → ℕ → ℕ → List ℕ
trigger_hunk timestamp index fraction =
    (index * 2 ^ 8 + 1)
    ∷ (timestamp % 2 ^ 24 * 2 ^ 8 + fraction)
    ∷ (timestamp / 2 ^ 24)
    ∷ replicate 13 0

-- A gate entry: the tag, then the 32-bit block index over two words with the position on top.
abbrev pub gate_entry : ℕ → ℕ → ℕ → ℕ → List ℕ
gate_entry start_block start_pos end_block end_pos =
    (start_block % 2 ^ 8 * 2 ^ 24 + 4)
    ∷ (start_pos * 2 ^ 24 + start_block / 2 ^ 8)
    ∷ (end_block % 2 ^ 8 * 2 ^ 24)
    ∷ (end_pos * 2 ^ 24 + end_block / 2 ^ 8)
    ∷ []

block_index-sum : (lo hi : ℕ) → block_index lo hi ≡ hi % 2 ^ 24 * 2 ^ 8 + lo / 2 ^ 24 % 2 ^ 8
unfolding block_index
block_index-sum lo hi = bit_or_add 8 (hi % 2 ^ 24) (lo / 2 ^ 24 % 2 ^ 8) (omega arith)

-- A trigger laid out in the words of `trigger_hunk` is read back whole while its timestamp has 55 bits, the fraction aside:
-- the sub-sample position is 0 whatever the fraction is.
pub decode_trigger-trigger_hunk :
    (timestamp index fraction : ℕ)
    → timestamp < 2 ^ 55
    → index < 2 ^ 24
    → fraction < 2 ^ 8
    → (tag (trigger_hunk timestamp index fraction) ≡ 1)
      × (decode_trigger (trigger_hunk timestamp index fraction)
          ≡ record { timestamp = timestamp; subsample_pos = pos 0; index = index; gate_data = [] })
unfolding decode_trigger trigger_timestamp trigger_index trigger_subsample
decode_trigger-trigger_hunk timestamp index fraction t i f = (
  omega arith,
  ground (arith, bit_or_add 24 (timestamp / 2 ^ 24) (timestamp % 2 ^ 24) (omega arith)),
)

-- A gate laid out in the words of `gate_entry` is read back with the number of elements from its first block to its
-- last, in whole chunks of 16.
pub decode_gate-gate_entry :
    (start_block start_pos end_block end_pos : ℕ)
    → start_block < 2 ^ 32
    → end_block < 2 ^ 32
    → start_pos < 2 ^ 8
    → end_pos < 2 ^ 8
    → start_block ≤ end_block
    → let g = decode_gate (gate_entry start_block start_pos end_block end_pos) in
      (tag (gate_entry start_block start_pos end_block end_pos) ≡ 4)
      × (g.gate_start_block_index ≡ start_block)
      × (g.gate_start_sample_pos ≡ start_pos)
      × (g.gate_stop_block_index ≡ end_block)
      × (g.gate_stop_sample_pos ≡ end_pos)
      × (gate_elements (gate_entry start_block start_pos end_block end_pos)
          ≡ ((end_block - start_block) * 4 + 15) / 16 * 16)
unfolding decode_gate gate_elements block_position unwrapped_end memory_blocks
decode_gate-gate_entry sb sp eb ep hsb heb hsp hep le = ground (
  arith,
  block_index-sum (sb % 2 ^ 8 * 2 ^ 24 + 4) (sp * 2 ^ 24 + sb / 2 ^ 8),
  block_index-sum (eb % 2 ^ 8 * 2 ^ 24) (ep * 2 ^ 24 + eb / 2 ^ 8),
)

-- The count of elements that a gate asks for is always a multiple of 16.
pub gate_elements_aligned : (l : List ℕ) → gate_elements l % 16 ≡ 0
unfolding gate_elements memory_blocks
gate_elements_aligned l = ground arith

-- An end below the start is put right in the gate that is kept, but the count of elements is taken
-- before that: it comes out above 2 ^ 63, a number that no fetch accepts.
pub gate_elements_backward :
    (start_block start_pos end_block end_pos : ℕ)
    → start_block < 2 ^ 32
    → start_pos < 2 ^ 8
    → end_pos < 2 ^ 8
    → end_block + 4 ≤ start_block
    → 2 ^ 63 < gate_elements (gate_entry start_block start_pos end_block end_pos)
unfolding gate_elements memory_blocks
gate_elements_backward sb sp eb ep hsb hsp hep lt = ground (
  arith,
  block_index-sum (sb % 2 ^ 8 * 2 ^ 24 + 4) (sp * 2 ^ 24 + sb / 2 ^ 8),
  block_index-sum (eb % 2 ^ 8 * 2 ^ 24) (ep * 2 ^ 24 + eb / 2 ^ 8),
)
