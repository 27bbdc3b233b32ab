-- ===== src/Tests/Flushed.antt =====
-- A record that is written with a flush, and then read.
use tracebox.Prelude.{◌≡◌, refl, true, false, some, [], ◌∷◌, ◌++◌, arith, if◌then◌else◌}
use tracebox.Bytes.{Text, text_eq, le_bytes}
use tracebox.Format.{encode_header}
use tracebox.FileIo.{File, on_device, write_file, flush_file}
use tracebox.StreamWriter.{
  World, write, write_variable, append_variable, commit, header_of, header_name,
}
use tracebox.StreamWriter.Images.{data_bytes, data_image, index_image}
use tracebox.Reader.StreamReader.{
  StreamReader, ReaderWorld, open_stream, read_stream, find_text, starts_with,
}
use tracebox.Reader.Open.{readable_file}
use tracebox.Reader.Records.{Fits, sent}
use tracebox.EndToEnd.{OnDisk}
use tracebox.EndToEnd.ReadBack.{write-read_back}
use tracebox.Tests.Files.{
  world, named, h1, h2, left, left_index, left_data, left-Linked, stored_pieces, first, third,
}
use tracebox.Tests.Serving.{index_path, named-IsNamed, first-Fits}

-- Two seconds later.
abbrev later_world : World
later_world = record world { now = 2000000000 }

abbrev new_index : Text
new_index = h1 ++ index_image 49 (stored_pieces ++ third ∷ [])

abbrev new_data : Text
new_data = h2 ++ data_image (stored_pieces ++ third ∷ [])

abbrev index_behind : File
index_behind = record (left_index []) { bytes = new_index; written = 85 }

abbrev data_behind : File
data_behind = record left_data { bytes = new_data; written = 88 }

abbrev later_reader : ReaderWorld
later_reader = record {
  disk = λ path.
      if text_eq path index_path
      then readable_file (on_device index_behind)
      else readable_file (on_device data_behind);
  is_regular = λ path. true;
  beyond_index = [];
  beyond_data = [];
}

later_reader-OnDisk :
    OnDisk later_reader index_path (on_device index_behind) (on_device data_behind)
unfolding find_text starts_with text_eq encode_header le_bytes header_of
later_reader-OnDisk = record {
  ext_pos = 3;
  is_regular = refl;
  extension = refl;
  index = refl;
  payloads = refl;
  index_small = omega arith;
  data_small = omega arith;
}

third-Fits : Fits third
third-Fits = record { time = omega arith; size = omega arith }

write-read_back_example :
    (s : StreamReader) × (read_stream (open_stream later_reader index_path) 2
      ≡ (s, some (sent third)))
unfolding write write_variable append_variable commit write_file flush_file data_bytes encode_header
    le_bytes header_of header_name
write-read_back_example =
    write-read_back named 1000 named-IsNamed later_reader index_path stored_pieces third first refl
      first-Fits third-Fits (λ e. omega (arith, e)) later_world (left [] false) (left_index [])
      left_data index_behind data_behind (left-Linked [] false) (omega arith) (omega arith) refl
      refl (λ e. cc e) refl refl later_reader-OnDisk
