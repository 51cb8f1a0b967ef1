-- ===== src/Writer/Compressed.antt =====
-- The compressed spectra of the rows written: EncodedResult::get_compressed_spectra
-- (UIMFWriter/src/encodedresult.cpp) and the count of bytes of UimfWriter::write_scan_data
-- (UIMFWriter/src/UIMFWriter.cpp). The compressor is other code: for the values of a spectrum and a
-- buffer's size it gives the bytes used, or 0. Sizes, of C type `int`, do not wrap.
use aq_md3_acquisition_conso.Common.{
  ℕ, ◌+◌, ◌*◌, ◌<◌, ◌≡◌, refl, Bool, true, false, ◌&&◌, ◌||◌, Option, none, some, List, [], ◌∷◌,
  length, ◌==◌, ltb, if◌then◌else◌, arith,
}
use aq_md3_acquisition_conso.Common.Int.{ℤ}
use aq_md3_acquisition_conso.Encode.{EncodedResult, UimfFrame, to_u64}
use aq_md3_acquisition_conso.Writer.{is_written}

abbrev pub Compressor : Type 0
Compressor = List ℤ → ℕ → ℕ

-- What lzf.h says: less than 104% of the original size.
pub record IsBounded (lzf_compress : Compressor) : Type 0 where
  pub bounded :
      (x : ℤ) (xs : List ℤ) (out_len : ℕ)
      → lzf_compress (x ∷ xs) out_len * 25 < length (x ∷ xs) * 4 * 26

abbrev pub encoded_size : EncodedResult → ℕ
encoded_size er = length er.encoded_spectra * 4

-- The size of the compressed data, if the zero put behind it lies inside the buffer: else the write is
-- undefined.
unfoldable pub get_compressed_spectra : Compressor → EncodedResult → Option ℕ
get_compressed_spectra lzf_compress er =
    let processing_buffer_size = encoded_size er * 2 in
    let bytes = lzf_compress er.encoded_spectra processing_buffer_size in
    if ltb bytes processing_buffer_size then some bytes else none

abbrev pub add_bytes : Option ℕ → ℕ → Option ℕ → Option ℕ
add_bytes (some size) count (some rest) = some (size + count + rest)
add_bytes (some size) count none = none
add_bytes none count rest = none

-- The bytes that `write_scan_data` returns, where a row's statement has so many characters.
unfoldable pub bytes_written :
    Compressor → (EncodedResult → ℕ) → UimfFrame → List EncodedResult → Option ℕ
unfolding get_compressed_spectra
bytes_written lzf_compress count frame [] = some 0
bytes_written lzf_compress count frame (er ∷ rows) =
    let rest = bytes_written lzf_compress count frame rows in
    if is_written frame er
    then add_bytes (get_compressed_spectra lzf_compress er) (count er) rest
    else rest

abbrev pub is_undefined : Option ℕ → Bool
is_undefined none = true
is_undefined (some n) = false

-- One of the rows is scan 0 of a frame that starts at trigger 0, and holds no sample.
unfoldable pub has_empty_first : UimfFrame → List EncodedResult → Bool
has_empty_first frame [] = false
has_empty_first frame (er ∷ rows) =
    ((frame.parameters.start_trigger == 0)
      && ((to_u64 er.scan == 0) && (length er.encoded_spectra == 0)))
    || has_empty_first frame rows

compressed_undefined :
    (lzf_compress : Compressor) (er : EncodedResult)
    → IsBounded lzf_compress
    → is_undefined (get_compressed_spectra lzf_compress er) ≡ (length er.encoded_spectra == 0)
unfolding get_compressed_spectra
compressed_undefined lzf_compress er h = go er.encoded_spectra
  where
    go :
        (xs : List ℤ)
        → is_undefined (
            if ltb (lzf_compress xs (length xs * 4 * 2)) (length xs * 4 * 2)
            then some (lzf_compress xs (length xs * 4 * 2))
            else none)
          ≡ (length xs == 0)
    go [] = ground arith
    go (x ∷ xs) = ground (arith, h.bounded x xs (length (x ∷ xs) * 4 * 2))

-- Writing a frame's rows puts a zero outside of a buffer exactly if the frame starts at trigger 0 and
-- its scan 0 holds no sample: that scan alone is written though it is empty. (The compressor keeps
-- to what it says of its output's size.)
pub bytes_written_undefined_iff :
    (lzf_compress : Compressor) (count : EncodedResult → ℕ) (frame : UimfFrame)
    (rows : List EncodedResult)
    → IsBounded lzf_compress
    → is_undefined (bytes_written lzf_compress count frame rows) ≡ has_empty_first frame rows
unfolding bytes_written has_empty_first is_written
bytes_written_undefined_iff lzf_compress count frame [] h = refl
bytes_written_undefined_iff lzf_compress count frame (er ∷ rows) h = ground (
  arith,
  compressed_undefined lzf_compress er h,
  bytes_written_undefined_iff lzf_compress count frame rows h,
)
