-- ===== src/Console.antt =====
-- The commands of the console: the handler that `main` registers
-- (AqMD3_console/src/aqmd3_console.cpp, lines 362-688), in the build without TEST_ACQUIRE.
-- A word of a payload is a command's own text, the texts "true" and "false", or another text. The
-- work of a command on the card, the publisher and the other libraries is a sequence of calls, each
-- of which answers or throws; what they do is a parameter, `Devices`, over a state `W`.
pub mod Every
pub mod Answers
pub mod Controller
use aq_md3_acquisition_conso.Common.{
  ℕ, ◌+◌, ◌==◌, Bool, true, false, List, [], ◌∷◌, length, if◌then◌else◌,
}
use aq_md3_acquisition_conso.Common.Int.{ℤ, pos, ◌+ℤ◌}

pub data Word : Type 0 where
  num_instruments info firmware serial init horizontal vertical trig_class trig_source mode
        config_digitizer post_samples pre_samples setup_array acquire_frame acquire tof_width stop
        invert reset_timestamps enable_io_port disable_io_port true_text :
      Word
  other : List ℕ → Word

pub data Port : Type 0 where
  control_io_1 control_io_2 control_io_3 : Port

pub data Call : Type 0 where
  find_instruments get_info set_trigger_parameters : Call
  -- `std::stod` and `std::stoi` of a word.
  parse_number parse_int : Word → Call
  -- 1.0 / of the number that was read last.
  set_sampling_rate_of_resolution set_channel_parameters : Call
  -- Uncompress and parse a frame's request.
  parse_frame : Word → Call
  -- `controller->start` with what was parsed last.
  start_frame : Call
  create_timing_information : Call
  set_record_size : ℕ → Call
  get_publisher : Call
  -- Segment size and the average period.
  make_pool : ℕ → Call
  configure_cst : ℤ → ℕ → Call
  -- The chain of publishers and subscribers: the period, the live vector's size, its floor. It takes
  -- the place of the controller before it, which is destroyed.
  build_chain : ℕ → ℕ → ℤ → Call
  start_infinite : Call
  controller_stop : Bool → Call
  set_inversion : Bool → Call
  enable_port disable_port : Port → Call

-- What a call answers: nothing, a text, or the record size, the post-trigger samples and the samples
-- per trigger.
pub data Value : Type 0 where
  nothing : Value
  text : List ℕ → Value
  timing : ℕ → ℕ → ℕ → Value

-- A call answers, throws, or ends the process: a std::thread that was not joined is destroyed with the
-- object it stands in, and std::terminate is called.
pub data Outcome : Type 0 where
  gave : Value → Outcome
  failed killed : Outcome

pub record Devices (W : Type 0) : Type 0 where
  pub perform : Call → W → Outcome × W

pub record Settings : Type 0 where
  pub zero_suppress_threshold : ℤ
  pub zero_suppress_hysteresis : ℕ
  pub control_io_port : ℕ

-- The variables of `main` and of the file that the handler sets. `has_controller` and `has_pool` say
-- that the pointer is not null.
pub record Console (W : Type 0) : Type 0 where
  pub world : W
  pub has_controller : Bool
  pub has_pool : Bool
  pub avg_tof_period_samples : ℕ
  pub calculated_post_trigger_samples : ℕ

pub data Response : Type 0 where
  ack : Response
  -- The text that the last call answered.
  told : Value → Response
  -- The message with `num_samples` and `pusher_pulse_width`, and its hash: two frames.
  tof_width_message : ℕ → ℕ → Response

-- `undefined` is a call of a null controller, `terminated` the end of the process in a call.
pub data Ending : Type 0 where
  returned thrown undefined terminated : Ending

pub record Handled (W : Type 0) : Type 0 where
  pub responses : List Response
  pub ending : Ending
  pub after : Console W

abbrev pub done : {W : Type 0} → Console W → Handled W
done k = record { responses = []; ending = returned; after = k }

abbrev pub crash : {W : Type 0} → Console W → Handled W
crash k = record { responses = []; ending = undefined; after = k }

abbrev pub respond : {W : Type 0} → Response → Handled W → Handled W
respond r h = record { responses = r ∷ h.responses; ending = h.ending; after = h.after }

unfoldable pub answer :
    {W : Type 0} → Outcome × W → Console W → (Value → Console W → Handled W) → Handled W
answer (failed, w) k rest = record {
  responses = [];
  ending = thrown;
  after = record k { world = w };
}
answer (killed, w) k rest = record {
  responses = [];
  ending = terminated;
  after = record k { world = w };
}
answer (gave v, w) k rest = rest v (record k { world = w })

-- A call whose throw is caught.
unfoldable pub attempt :
    {W : Type 0} → Outcome × W → Console W → (Console W → Handled W) → Handled W
attempt (failed, w) k rest = rest (record k { world = w })
attempt (killed, w) k rest = record {
  responses = [];
  ending = terminated;
  after = record k { world = w };
}
attempt (gave v, w) k rest = rest (record k { world = w })

unfoldable pub control_io_port_name : Settings → Port
control_io_port_name s =
    if s.control_io_port == 1
    then control_io_1
    else if s.control_io_port == 3
    then control_io_3
    else control_io_2

abbrev pub is_acquire : Word → Bool
is_acquire acquire = true
is_acquire _ = false

abbrev pub is_true : Word → Bool
is_true true_text = true
is_true _ = false

module _ {W : Type 0} (d : Devices W) (s : Settings) where
  abbrev pub call : Call → Console W → (Value → Console W → Handled W) → Handled W
  call c k rest = answer (d.perform c k.world) k rest

  abbrev pub acknowledge : Console W → Handled W
  acknowledge k = respond ack (done k)

  -- A command that acts on the one argument of a payload of two words, and is acknowledged.
  abbrev pub with_argument : List Word → (Word → Console W → Handled W) → Console W → Handled W
  with_argument (command ∷ argument ∷ []) act k = act argument k
  with_argument [] act k = acknowledge k
  with_argument (command ∷ []) act k = acknowledge k
  with_argument (command ∷ argument ∷ _ ∷ _) act k = acknowledge k

  unfoldable pub handle_horizontal : Word → Console W → Handled W
  handle_horizontal argument k =
      call (parse_number argument) k
        λ _ k. call set_sampling_rate_of_resolution k λ _ k. acknowledge k

  unfoldable pub handle_vertical : Word → Console W → Handled W
  handle_vertical argument k =
      call (parse_number argument) k λ _ k. call set_channel_parameters k λ _ k. acknowledge k

  unfoldable pub handle_acquire_frame : Word → Console W → Handled W
  handle_acquire_frame argument k =
      call (parse_frame argument) k
        λ _ k. if k.has_controller then (call start_frame k λ _ k. acknowledge k) else crash k

  unfoldable pub handle_invert : Word → Console W → Handled W
  handle_invert argument k = call (set_inversion (is_true argument)) k λ _ k. acknowledge k

  unfoldable pub handle_enable : Word → Console W → Handled W
  handle_enable argument k =
      call (parse_int argument) k
        λ _ k. call (enable_port (control_io_port_name s)) k λ _ k. acknowledge k

  unfoldable pub handle_disable : Word → Console W → Handled W
  handle_disable argument k =
      call (parse_int argument) k
        λ _ k. call (disable_port (control_io_port_name s)) k λ _ k. acknowledge k

  -- `record_size`, `post_trigger_samples` and `tof_width` of what was measured.
  abbrev pub timing_of : Value → ℕ × (ℕ × ℕ)
  timing_of (timing r p t) = (r, (p, t))
  timing_of nothing = (0, (0, 0))
  timing_of (text x) = (0, (0, 0))

  unfoldable pub handle_tof_width : Console W → Handled W
  handle_tof_width k = call create_timing_information k λ v k.
      let (record_size, (post_trigger, width)) = timing_of v in
      call (set_record_size record_size) k
        λ _ k. respond (tof_width_message (record_size + post_trigger) width) (done k)

  unfoldable pub ensure_pool : ℕ → Console W → (Console W → Handled W) → Handled W
  ensure_pool width k rest =
      if k.has_pool
      then rest k
      else call (make_pool width) k λ _ k. rest (record k { has_pool = true })

  -- The controller is set before it is started.
  unfoldable pub handle_acquire : Console W → Handled W
  handle_acquire k = call create_timing_information k λ v k.
      let (record_size, (post_trigger, width)) = timing_of v in
      call (set_record_size record_size) k λ _ k.
        call get_publisher
          (record k {
            avg_tof_period_samples = width;
            calculated_post_trigger_samples = post_trigger;
          })
          λ _ k. ensure_pool width k λ k.
            call (configure_cst s.zero_suppress_threshold s.zero_suppress_hysteresis) k λ _ k.
              call
                (build_chain width (record_size + post_trigger)
                  (s.zero_suppress_threshold +ℤ pos 32768))
                k
                λ _ k.
                  call start_infinite (record k { has_controller = true })
                    λ _ k. respond (tof_width_message (record_size + post_trigger) width) (done k)

  -- A throw of the controller is logged, and the command acknowledged all the same.
  unfoldable pub handle_stop : List Word → Console W → Handled W
  handle_stop (command ∷ argument ∷ []) k =
      if k.has_controller
      then (attempt (d.perform (controller_stop (is_acquire argument)) k.world) k
          λ k. acknowledge k)
      else acknowledge k
  handle_stop [] k = done k
  handle_stop (command ∷ []) k = done k
  handle_stop (command ∷ argument ∷ _ ∷ _) k = done k

  -- One word: `rest` is the turns of the words after it.
  unfoldable pub handle_word : List Word → Word → Console W → (Console W → Handled W) → Handled W
  handle_word payload num_instruments k rest =
      call find_instruments k λ v k. respond (told v) (done k)
  handle_word payload info k rest = call get_info k λ v k. respond (told v) (rest k)
  handle_word payload firmware k rest = call get_info k λ v k. respond (told v) (rest k)
  handle_word payload serial k rest = call get_info k λ v k. respond (told v) (rest k)
  handle_word payload init k rest = call set_trigger_parameters k λ _ k. respond ack (rest k)
  handle_word payload horizontal k rest = with_argument payload handle_horizontal k
  handle_word payload vertical k rest = with_argument payload handle_vertical k
  handle_word payload trig_class k rest = rest k
  handle_word payload trig_source k rest = rest k
  handle_word payload mode k rest = rest k
  handle_word payload config_digitizer k rest = rest k
  handle_word payload post_samples k rest = rest k
  handle_word payload pre_samples k rest = rest k
  handle_word payload setup_array k rest = acknowledge k
  handle_word payload acquire_frame k rest = with_argument payload handle_acquire_frame k
  handle_word payload acquire k rest = handle_acquire k
  handle_word payload tof_width k rest = handle_tof_width k
  handle_word payload stop k rest = handle_stop payload k
  handle_word payload invert k rest = with_argument payload handle_invert k
  handle_word payload reset_timestamps k rest = done k
  handle_word payload enable_io_port k rest = with_argument payload handle_enable k
  handle_word payload disable_io_port k rest = with_argument payload handle_disable k
  handle_word payload true_text k rest = rest k
  handle_word payload (other x) k rest = rest k

  unfoldable pub handle_words : List Word → List Word → Console W → Handled W
  handle_words payload [] k = done k
  handle_words payload (word ∷ words) k =
      handle_word payload word k (λ k'. handle_words payload words k')

  unfoldable pub handle : List Word → Console W → Handled W
  handle payload k = handle_words payload payload k
