-- ===== src/Dialogue/Words.antt =====
-- The words of the commands, as their characters' codes (AqMD3_console/src/aqmd3_console.cpp).
use aq_md3_acquisition_conso.Common.{List, [], ◌∷◌}
use aq_md3_acquisition_conso.Config.{Text}
use aq_md3_acquisition_conso.Console.{
  Word, num_instruments, info, firmware, serial, init, horizontal, vertical, trig_class,
  trig_source, mode, config_digitizer, post_samples, pre_samples, setup_array, acquire_frame,
  acquire, tof_width, stop, invert, reset_timestamps, enable_io_port, disable_io_port, true_text,
}

-- "num instruments"
abbrev pub num_instruments_word : Text
num_instruments_word =
    110 ∷ 117 ∷ 109 ∷ 32 ∷ 105 ∷ 110 ∷ 115 ∷ 116 ∷ 114 ∷ 117 ∷ 109 ∷ 101 ∷ 110 ∷ 116 ∷ 115 ∷ []

-- "info"
abbrev pub info_word : Text
info_word = 105 ∷ 110 ∷ 102 ∷ 111 ∷ []

-- "firmware"
abbrev pub firmware_word : Text
firmware_word = 102 ∷ 105 ∷ 114 ∷ 109 ∷ 119 ∷ 97 ∷ 114 ∷ 101 ∷ []

-- "serial"
abbrev pub serial_word : Text
serial_word = 115 ∷ 101 ∷ 114 ∷ 105 ∷ 97 ∷ 108 ∷ []

-- "init"
abbrev pub init_word : Text
init_word = 105 ∷ 110 ∷ 105 ∷ 116 ∷ []

-- "horizontal"
abbrev pub horizontal_word : Text
horizontal_word = 104 ∷ 111 ∷ 114 ∷ 105 ∷ 122 ∷ 111 ∷ 110 ∷ 116 ∷ 97 ∷ 108 ∷ []

-- "vertical"
abbrev pub vertical_word : Text
vertical_word = 118 ∷ 101 ∷ 114 ∷ 116 ∷ 105 ∷ 99 ∷ 97 ∷ 108 ∷ []

-- "trig class"
abbrev pub trig_class_word : Text
trig_class_word = 116 ∷ 114 ∷ 105 ∷ 103 ∷ 32 ∷ 99 ∷ 108 ∷ 97 ∷ 115 ∷ 115 ∷ []

-- "trig source"
abbrev pub trig_source_word : Text
trig_source_word = 116 ∷ 114 ∷ 105 ∷ 103 ∷ 32 ∷ 115 ∷ 111 ∷ 117 ∷ 114 ∷ 99 ∷ 101 ∷ []

-- "mode"
abbrev pub mode_word : Text
mode_word = 109 ∷ 111 ∷ 100 ∷ 101 ∷ []

-- "config digitizer"
abbrev pub config_digitizer_word : Text
config_digitizer_word =
    99 ∷ 111 ∷ 110 ∷ 102 ∷ 105 ∷ 103 ∷ 32 ∷ 100 ∷ 105 ∷ 103 ∷ 105 ∷ 116 ∷ 105 ∷ 122 ∷ 101 ∷ 114 ∷ []

-- "post samples"
abbrev pub post_samples_word : Text
post_samples_word = 112 ∷ 111 ∷ 115 ∷ 116 ∷ 32 ∷ 115 ∷ 97 ∷ 109 ∷ 112 ∷ 108 ∷ 101 ∷ 115 ∷ []

-- "pre samples"
abbrev pub pre_samples_word : Text
pre_samples_word = 112 ∷ 114 ∷ 101 ∷ 32 ∷ 115 ∷ 97 ∷ 109 ∷ 112 ∷ 108 ∷ 101 ∷ 115 ∷ []

-- "setup array"
abbrev pub setup_array_word : Text
setup_array_word = 115 ∷ 101 ∷ 116 ∷ 117 ∷ 112 ∷ 32 ∷ 97 ∷ 114 ∷ 114 ∷ 97 ∷ 121 ∷ []

-- "acquire frame"
abbrev pub acquire_frame_word : Text
acquire_frame_word = 97 ∷ 99 ∷ 113 ∷ 117 ∷ 105 ∷ 114 ∷ 101 ∷ 32 ∷ 102 ∷ 114 ∷ 97 ∷ 109 ∷ 101 ∷ []

-- "acquire"
abbrev pub acquire_word : Text
acquire_word = 97 ∷ 99 ∷ 113 ∷ 117 ∷ 105 ∷ 114 ∷ 101 ∷ []

-- "tof width"
abbrev pub tof_width_word : Text
tof_width_word = 116 ∷ 111 ∷ 102 ∷ 32 ∷ 119 ∷ 105 ∷ 100 ∷ 116 ∷ 104 ∷ []

-- "stop"
abbrev pub stop_word : Text
stop_word = 115 ∷ 116 ∷ 111 ∷ 112 ∷ []

-- "invert"
abbrev pub invert_word : Text
invert_word = 105 ∷ 110 ∷ 118 ∷ 101 ∷ 114 ∷ 116 ∷ []

-- "reset timestamps"
abbrev pub reset_timestamps_word : Text
reset_timestamps_word =
    114 ∷ 101 ∷ 115 ∷ 101 ∷ 116 ∷ 32 ∷ 116 ∷ 105 ∷ 109 ∷ 101 ∷ 115 ∷ 116 ∷ 97 ∷ 109 ∷ 112 ∷ 115 ∷ []

-- "enable io port"
abbrev pub enable_io_port_word : Text
enable_io_port_word =
    101 ∷ 110 ∷ 97 ∷ 98 ∷ 108 ∷ 101 ∷ 32 ∷ 105 ∷ 111 ∷ 32 ∷ 112 ∷ 111 ∷ 114 ∷ 116 ∷ []

-- "disable io port"
abbrev pub disable_io_port_word : Text
disable_io_port_word =
    100 ∷ 105 ∷ 115 ∷ 97 ∷ 98 ∷ 108 ∷ 101 ∷ 32 ∷ 105 ∷ 111 ∷ 32 ∷ 112 ∷ 111 ∷ 114 ∷ 116 ∷ []

-- "true"
abbrev pub true_word : Text
true_word = 116 ∷ 114 ∷ 117 ∷ 101 ∷ []

-- The texts that the handler compares a word with.
unfoldable pub command_words : List (Text × Word)
command_words =
    (num_instruments_word, num_instruments)
    ∷ (info_word, info)
    ∷ (firmware_word, firmware)
    ∷ (serial_word, serial)
    ∷ (init_word, init)
    ∷ (horizontal_word, horizontal)
    ∷ (vertical_word, vertical)
    ∷ (trig_class_word, trig_class)
    ∷ (trig_source_word, trig_source)
    ∷ (mode_word, mode)
    ∷ (config_digitizer_word, config_digitizer)
    ∷ (post_samples_word, post_samples)
    ∷ (pre_samples_word, pre_samples)
    ∷ (setup_array_word, setup_array)
    ∷ (acquire_frame_word, acquire_frame)
    ∷ (acquire_word, acquire)
    ∷ (tof_width_word, tof_width)
    ∷ (stop_word, stop)
    ∷ (invert_word, invert)
    ∷ (reset_timestamps_word, reset_timestamps)
    ∷ (enable_io_port_word, enable_io_port)
    ∷ (disable_io_port_word, disable_io_port)
    ∷ (true_word, true_text)
    ∷ []
