-- ===== src/Zs1/Marker.antt =====
-- One marker hunk, 16 words, of libaqmd3/src/cstzs1context.cpp: how its trigger and its gate entries
-- are decoded. A field that is `(a << k) | b` with `b` below 2 ^ k is written with `bit_or`.
pub mod Format
use Prim.Native.Nat.{bit_or}
use aq_md3_acquisition_conso.Common.{
  ℕ, ◌+◌, ◌-◌, ◌*◌, ◌/◌, ◌%◌, ◌^◌, List, ◌==◌, ltb, if◌then◌else◌, get_or,
}
use aq_md3_acquisition_conso.Common.Int.{ℤ, neg_ℕ, div_ℤ}
use aq_md3_acquisition_conso.Common.Word.{u32, u64, sub64, sign_extend}
use aq_md3_acquisition_conso.Stream.{GateData, TriggerData, trigger_data}

abbrev pub markers_hunk_size : ℕ
markers_hunk_size = 16

abbrev pub word_at : List ℕ → ℕ → ℕ
word_at seg i = get_or seg i 0

-- `header & 0x000000FF`
abbrev pub tag : List ℕ → ℕ
tag seg = word_at seg 0 % 2 ^ 8

-- `uint64_t low = seg[1]` and `high = seg[2]` widen signed words, so the sign bit is carried up.
unfoldable pub trigger_timestamp : List ℕ → ℕ
trigger_timestamp seg =
    let low = sign_extend (word_at seg 1) in
    let high = sign_extend (word_at seg 2) in bit_or (u64 (high * 2 ^ 24)) (low / 2 ^ 8 % 2 ^ 24)

unfoldable pub trigger_index : List ℕ → ℕ
trigger_index seg = word_at seg 0 / 2 ^ 8

-- `(-1 * (seg[1] & 0x000000ff)) / 256`, in `int`s.
unfoldable pub trigger_subsample : List ℕ → ℤ
trigger_subsample seg = div_ℤ (neg_ℕ (word_at seg 1 % 2 ^ 8)) 256

unfoldable pub decode_trigger : List ℕ → TriggerData
decode_trigger seg =
    trigger_data (trigger_timestamp seg) (trigger_index seg) (trigger_subsample seg)

-- The two 32-bit words of a block index and of the position within the block.
unfoldable pub block_index : ℕ → ℕ → ℕ
block_index lo hi = bit_or (hi % 2 ^ 24 * 2 ^ 8) (lo / 2 ^ 24 % 2 ^ 8)

unfoldable pub block_position : ℕ → ℕ
block_position hi = hi / 2 ^ 24 % 2 ^ 8

-- `to_acquire_memory_blocks_f`: the difference of the blocks as read, before an end below the start
-- is put right, rounded up to a multiple of 16.
unfoldable pub memory_blocks : ℕ → ℕ → ℕ
memory_blocks start_block end_block =
    let blocks = u64 (sub64 end_block start_block * 4) in
    if blocks % 16 == 0 then blocks else u64 ((blocks / 16 + 1) * 16)

-- An end below the start has the largest `unsigned int` added.
unfoldable pub unwrapped_end : ℕ → ℕ → ℕ
unwrapped_end start_block end_block =
    if ltb end_block start_block then u64 (end_block + (2 ^ 32 - 1)) else end_block

-- `to_acquire_memory_blocks_f` of a gate entry.
unfoldable pub gate_elements : List ℕ → ℕ
gate_elements l =
    memory_blocks (block_index (word_at l 0) (word_at l 1))
      (block_index (word_at l 2) (word_at l 3))

-- `GateData` keeps the count in 32 bits.
unfoldable pub decode_gate : List ℕ → GateData
decode_gate l =
    let start_block = block_index (word_at l 0) (word_at l 1) in
    let end_block = block_index (word_at l 2) (word_at l 3) in
    record {
      gate_start_block_index = start_block;
      gate_start_sample_pos = block_position (word_at l 1);
      gate_stop_block_index = unwrapped_end start_block end_block;
      gate_stop_sample_pos = block_position (word_at l 3);
      element_count = u32 (gate_elements l);
    }
