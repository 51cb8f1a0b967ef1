-- ===== src/Examples/Pools.antt =====
-- A pool of two buffers (libaqmd3/src/acquisitionbufferpool.cpp).
use aq_md3_acquisition_conso.Common.{[], ◌∷◌}
use aq_md3_acquisition_conso.Buffer.{create}
use aq_md3_acquisition_conso.Pool.{AcquisitionBufferPool, get_buffer, held}
use aq_md3_acquisition_conso.Pool.Laws.{Grants, get_buffer-Grants}

-- One buffer is held, the other is free.
abbrev one_free : AcquisitionBufferPool
one_free = record {
  samples_buffer_pool =
      held (record { buffer = create 2 8; holders = 0 })
      ∷ record { buffer = create 2 8; holders = 0 }
      ∷ [];
  buffer_takes = 1;
  buffer_max_count = 5;
  buffer_initial_count = 2;
  max_triggers_per_read = 2;
  samples_per_trigger = 8;
}

get_buffer-Grants_example : Grants one_free (get_buffer one_free).0 (get_buffer one_free).1
get_buffer-Grants_example = get_buffer-Grants one_free
