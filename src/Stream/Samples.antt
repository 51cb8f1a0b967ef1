-- ===== src/Stream/Samples.antt =====
-- What the sample indices of a gate come to where nothing wraps.
use aq_md3_acquisition_conso.Common.{◌+◌, ◌*◌, ◌^◌, ◌≤◌, ◌<◌, ◌≡◌, arith}
use aq_md3_acquisition_conso.Stream.{GateData, get_start_sample_index, get_stop_sample_index}

-- A gate as the card writes it: blocks counted from 1, positions inside a block, and an end that is
-- not before the record's own first block is full.
pub record IsPlaced (g : GateData) : Type 0 where
  pub start_block : 1 ≤ g.gate_start_block_index
  pub stop_block : 2 ≤ g.gate_stop_block_index
  pub start_bound : g.gate_start_block_index < 2 ^ 32
  pub stop_bound : g.gate_stop_block_index < 2 ^ 32
  pub start_pos : g.gate_start_sample_pos < 2 ^ 8
  pub stop_pos : g.gate_stop_sample_pos ≤ 8

pub placed_start :
    (g : GateData)
    → IsPlaced g
    → get_start_sample_index g + 8 ≡ g.gate_start_block_index * 8 + g.gate_start_sample_pos
unfolding get_start_sample_index
placed_start g p = omega arith

pub placed_stop :
    (g : GateData)
    → IsPlaced g
    → get_stop_sample_index g + 16 ≡ g.gate_stop_block_index * 8 + g.gate_stop_sample_pos
unfolding get_stop_sample_index
placed_stop g p = omega arith
