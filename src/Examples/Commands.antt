-- ===== src/Examples/Commands.antt =====
-- A frame acquired, a request answered, and a payload handled
-- (AqMD3_console/src/acquirepublisher.cpp, AqMD3_console/src/server.cpp,
-- AqMD3_console/src/aqmd3_console.cpp).
use aq_md3_acquisition_conso.Common.{
  ℕ, ◌≡◌, ◌⊎◌, refl, true, false, some, [], ◌∷◌, length-replicate, replicate, arith,
}
use aq_md3_acquisition_conso.Common.Int.{pos}
use aq_md3_acquisition_conso.Buffer
use aq_md3_acquisition_conso.Stream.{trigger_data}
use aq_md3_acquisition_conso.Encode.{UimfFrameParameters}
use aq_md3_acquisition_conso.Publish.{delivered, Context, Control, work, stuck}
use aq_md3_acquisition_conso.Publish.Turns.{Delivers}
use aq_md3_acquisition_conso.Publish.Frame.{IsFrame, work-Frame}
use aq_md3_acquisition_conso.Console
use aq_md3_acquisition_conso.Console.{Word, Devices, Settings, Console, handle}
use aq_md3_acquisition_conso.Console.Controller.{IsDefined, handle-IsDefined}

-- A context that counts its calls, and delivers what it is asked for.
abbrev steady : Context ℕ
steady = record {
  get_is_acquiring = λ s. some (false, s);
  start = λ s. some s;
  stop = λ s. some 0;
  acquire = λ n s. (
    delivered (record {
      stamps = replicate n (trigger_data 5 0 (pos 0));
      samples_buffer = Buffer.create 4 64;
      samples_count = 64;
    }),
    1,
  );
  should_stop = λ s. false;
}

abbrev three_scans : UimfFrameParameters
three_scans = record {
  start_trigger = 0;
  nbr_samples = 64;
  nbr_accumulations = 1;
  frame_length = 3;
  frame_number = 1;
  offset_bins = 5;
  file_name = [];
}

steady-Delivers : (n s : ℕ) → Delivers ⊥ n (steady.acquire n s)
steady-Delivers n s = length-replicate n (trigger_data 5 0 (pos 0))

-- In segments of two scans.
work-Frame_example :
    ((work steady 2 5 three_scans 0 ≡ stuck) × ⊥)
    ⊎ IsFrame steady three_scans (work steady 2 5 three_scans 0)
work-Frame_example =
    work-Frame steady 2 three_scans ⊥ (omega arith) steady-Delivers 5 0 0 0 (omega arith) refl refl

abbrev running : Control
running = record { should_stop = false; completed = false; joinable = true }

-- Devices that accept every call.
abbrev accepting : Devices ℕ
accepting = record { perform = λ c w. (Console.gave Console.nothing, 1) }

abbrev pub settings : Settings
settings = record {
  zero_suppress_threshold = pos 0;
  zero_suppress_hysteresis = 100;
  control_io_port = 2;
}

abbrev pub console : Console ℕ
console = record {
  world = 0;
  has_controller = true;
  has_pool = false;
  avg_tof_period_samples = 0;
  calculated_post_trigger_samples = 0;
}

handle-IsDefined_example :
    IsDefined (handle accepting settings (Console.info ∷ Console.acquire_frame ∷ []) console)
handle-IsDefined_example =
    handle-IsDefined accepting settings (Console.info ∷ Console.acquire_frame ∷ []) console refl
