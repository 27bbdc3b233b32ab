-- ===== src/Tests/FixedSize.antt =====
-- A channel of records of two bytes.
use tracebox.Prelude.{◌≡◌, refl, true, false, some, List, [], ◌∷◌, ◌++◌, arith, inl, length}
use tracebox.Bytes.{Text, le_bytes, of_le_bytes, text_eq}
use tracebox.Format.{encode_header, decode_header}
use tracebox.FileIo.{File, Answer, done, fails}
use tracebox.StreamWriter.{StreamWriter, write, header_of, header_name}
use tracebox.StreamWriter.Images.{Piece}
use tracebox.StreamWriter.Fixed.{FixedStep, HoldsFixed, fixed_image, write-FixedStep}
use tracebox.Reader.FileReader.{open_reader, get_header, file_size}
use tracebox.Reader.IndexFile.{open_index, index_of, time_in, read_at, select_record, fixed_size}
use tracebox.Reader.IfStream.{seek, read_bytes}
use tracebox.Reader.Open.{readable_file}
use tracebox.Reader.Records.{sent}
use tracebox.Reader.StreamReader.{StreamReader, open_stream, read_stream, find_text, starts_with}
use tracebox.Reader.FixedOpen.{open_stream-FixedStreamReady}
use tracebox.Reader.Fixed.{FixedStreamReady, read_stream-fixed}
use tracebox.Tests.Files.{named, world, first}
use tracebox.Tests.Serving.{index_path}

abbrev fixed_writer : StreamWriter
fixed_writer = record named { record_size = 2 }

abbrev header : Text
header = encode_header (header_of fixed_writer 1000 1)

abbrev next : Piece
next = record { time_ns = 3000; payload = b'x' ∷ b'y' ∷ [] }

abbrev file_bytes : Text
file_bytes = header ++ (fixed_image (first ∷ next ∷ []) ++ [])

abbrev left_file : List Answer → File
left_file answers = record {
  bytes = file_bytes;
  written = 69;
  is_open = true;
  good = true;
  answers = answers;
}

abbrev left_writer : List Answer → StreamWriter
left_writer answers = record fixed_writer { index = some (left_file answers); offset = 49 }

abbrev file_bytes-Holds : HoldsFixed header 2 file_bytes (first ∷ next ∷ [])
file_bytes-Holds = record { tail = []; split = refl; short = omega arith }

-- The device fails in the payload.
write-FixedStep_example :
    FixedStep header 2
      (left_file (done 0 ∷ fails 1 ∷ []))
      false
      (first ∷ next ∷ [])
      next
      (write world (left_writer (done 0 ∷ fails 1 ∷ [])) 3000 (b'x' ∷ b'y' ∷ []))
write-FixedStep_example =
    write-FixedStep header 2 world (left_writer (done 0 ∷ fails 1 ∷ []))
      (left_file (done 0 ∷ fails 1 ∷ [])) (first ∷ next ∷ []) next
      (record {
        index_is = refl;
        size_is = refl;
        some_size = omega arith;
        is_open = refl;
        holds = file_bytes-Holds;
        in_step = inl refl;
      })

abbrev opened : StreamReader
opened =
    open_stream
      (record {
        disk = λ path. readable_file file_bytes;
        is_regular = λ path. true;
        beyond_index = [];
        beyond_data = [];
      })
      index_path

opened-Ready : FixedStreamReady file_bytes 2 2 opened
unfolding open_stream find_text starts_with text_eq encode_header le_bytes header_of header_name
    open_index index_of open_reader file_size get_header read_bytes decode_header of_le_bytes seek
    read_at select_record time_in fixed_size
opened-Ready = record {
  index = open_index (readable_file file_bytes) [];
  index_is = refl;
  status_is = refl;
  ready = record {
    header = header_of fixed_writer 1000 1;
    header_is = refl;
    header_size = refl;
    record_size = refl;
    some_size = omega arith;
    file_type = refl;
    stream_bytes = refl;
    alive = refl;
    count = refl;
  };
}

length-header : length header ≡ 49
unfolding encode_header le_bytes header_of header_name
length-header = refl

length-file_bytes : length file_bytes ≡ 69
unfolding encode_header le_bytes header_of header_name
length-file_bytes = refl

read_stream-fixed_example :
    (s : StreamReader) × (read_stream opened 1 ≡ (s, some (sent next)))
    × FixedStreamReady file_bytes 2 2 s
read_stream-fixed_example =
    read_stream-fixed file_bytes-Holds length-header (omega (arith, length-file_bytes))
      (refl, (refl, tt)) 1 next refl opened opened-Ready (omega arith) (λ e. omega (arith, e))

open_stream-FixedStreamReady_example : FixedStreamReady file_bytes 2 2 opened
unfolding header_of find_text starts_with text_eq header_name
open_stream-FixedStreamReady_example =
    open_stream-FixedStreamReady file_bytes-Holds (header_of fixed_writer 1000 1)
      (record {
        header_size = omega arith;
        timestamp = omega arith;
        record_size = omega arith;
        name = refl;
      })
      refl refl refl (omega arith) refl (omega (arith, length-file_bytes)) (refl, (refl, tt))
      (record {
        disk = λ path. readable_file file_bytes;
        is_regular = λ path. true;
        beyond_index = [];
        beyond_data = [];
      })
      index_path 3 1 first next refl refl refl refl refl refl (omega arith) (omega arith)
