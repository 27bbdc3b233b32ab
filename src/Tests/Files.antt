-- ===== src/Tests/Files.antt =====
-- One channel, from its first file to the records that a reader finds.
use tracebox.Prelude.{
  Bool, ◌≡◌, refl, true, false, none, some, List, [], ◌∷◌, ◌++◌, arith, pos, inl, ◌⊎◌,
}
use tracebox.Bytes.{Text, le_bytes}
use tracebox.Format.{encode_header}
use tracebox.FileIo.{File, Answer, fails, done, standard_file, open_file, write_file, flush_file}
use tracebox.StreamWriter.{
  StreamWriter, World, returned, raises, eio, header_of, header_name, reopen_file, write, free_name,
  reopen_index, reopen_payloads, open_payloads, write_header,
}
use tracebox.StreamWriter.Images.{Piece, data_image, index_image, data_bytes}
use tracebox.StreamWriter.Linked.{Readable, Linked, InFiles}
use tracebox.StreamWriter.Append.{Appended, write-Appended}
use tracebox.StreamWriter.Log.{Log, Logged, write_each, room_for, write_each-Logged}
use tracebox.StreamWriter.Fault.{Survives, write-Survives}
use tracebox.StreamWriter.Start.{Started, reopen_file-Started}

abbrev pub channel : Text
channel = b'c' ∷ b'a' ∷ b'n' ∷ []

abbrev pub folder : Text
folder = b'd' ∷ []

-- A writer whose `name_` and `record_size_` are set.
abbrev pub named : StreamWriter
named = record {
  folder = folder;
  name = channel;
  record_size = 0;
  offset = 0;
  index = none;
  payloads = none;
  last_flush = 0;
  throws = false;
}

abbrev pub world : World
world = record {
  content = λ path. none;
  now = 0;
  local_time = λ t. record { hour = 7; minute = 5; second = 59 };
  new_index = some (standard_file []);
  new_payloads = some (standard_file []);
}

abbrev pub h1 : Text
h1 = encode_header (header_of named 1000 1)

abbrev pub h2 : Text
h2 = encode_header (header_of named 1000 2)

abbrev pub first : Piece
first = record { time_ns = 1000; payload = b'a' ∷ b'b' ∷ [] }

abbrev pub second : Piece
second = record { time_ns = 2000; payload = [] }

abbrev pub stored_pieces : List Piece
stored_pieces = first ∷ second ∷ []

-- The two files behind two writes.
abbrev pub index_bytes : Text
index_bytes = h1 ++ (index_image 49 stored_pieces ++ [])

abbrev pub data_bytes_on_disk : Text
data_bytes_on_disk = h2 ++ (data_image stored_pieces ++ [])

-- All of it has left the buffers.
abbrev pub left_index : List Answer → File
left_index answers = record {
  bytes = index_bytes;
  written = 73;
  is_open = true;
  good = true;
  answers = answers;
}

abbrev pub left_data : File
left_data = record {
  bytes = data_bytes_on_disk;
  written = 75;
  is_open = true;
  good = true;
  answers = [];
}

-- The writer behind two writes; the index file meets `answers`.
abbrev pub left : List Answer → Bool → StreamWriter
left answers throws = record named {
  index = some (left_index answers);
  payloads = some left_data;
  offset = 75;
  throws = throws;
}

abbrev pub left-Readable : Readable h1 h2 index_bytes data_bytes_on_disk stored_pieces
left-Readable = record {
  tail = [];
  junk = [];
  index_split = refl;
  data_split = refl;
  short = omega arith;
}

pub left-Linked :
    (answers : List Answer) (throws : Bool)
    → Linked h1 h2 (left answers throws) (left_index answers) left_data stored_pieces
unfolding data_bytes
left-Linked answers throws = record {
  index_is = refl;
  payloads_is = refl;
  variable = refl;
  index_open = refl;
  payloads_open = refl;
  readable = left-Readable;
  in_step = inl ((refl, refl), omega arith);
}

left-InFiles : (answers : List Answer) → InFiles h1 h2 (left_index answers) left_data stored_pieces
unfolding encode_header le_bytes header_of header_name
left-InFiles answers = record { index = ([], refl); payloads = ([], refl) }

abbrev pub third : Piece
third = record { time_ns = 3000; payload = b'c' ∷ [] }

reopen_file-Started_example :
    Started (record named { offset = 0 }) 1000 (reopen_file world named 1000)
unfolding reopen_file free_name reopen_index open_file write_header write_file flush_file
    reopen_payloads open_payloads
reopen_file-Started_example = reopen_file-Started world named 1000 refl (pos 98) refl refl

-- The device fails in the second half of the index entry.
write-Appended_example :
    Appended h1 h2
      (left_index (done 0 ∷ fails 2 ∷ []))
      left_data
      false
      stored_pieces
      third
      0
      (write world (left (done 0 ∷ fails 2 ∷ []) false) 3000 (b'c' ∷ []))
unfolding data_bytes
write-Appended_example =
    write-Appended h1 h2 world (left (done 0 ∷ fails 2 ∷ []) false)
      (left_index (done 0 ∷ fails 2 ∷ [])) left_data stored_pieces third
      (left-Linked (done 0 ∷ fails 2 ∷ []) false) (omega arith) (omega arith) refl

write-Survives_example :
    let (w', out) = write world (left [] true) 3000 (b'c' ∷ []) in
    Survives h1 h2 (left_index []) left_data stored_pieces stored_pieces w'
    × ((out ≡ raises) ⊎ (out ≡ returned eio))
write-Survives_example =
    write-Survives h1 h2 world (left [] true) (left_index []) left_data stored_pieces stored_pieces
      third (left-Linked [] true) (left-InFiles []) (omega arith) refl

abbrev log : Log
log = record { accepted = stored_pieces; in_files = stored_pieces }

-- The second of two writes fails behind its data.
write_each-Logged_example : Logged h1 h2 log (
    write_each (left (done 0 ∷ done 5 ∷ fails 2 ∷ []) false) ((world, third) ∷ (world, third) ∷ []))
unfolding data_bytes room_for
write_each-Logged_example =
    write_each-Logged h1 h2 ((world, third) ∷ (world, third) ∷ [])
      (left (done 0 ∷ done 5 ∷ fails 2 ∷ []) false) (left_index (done 0 ∷ done 5 ∷ fails 2 ∷ []))
      left_data log (left-Linked (done 0 ∷ done 5 ∷ fails 2 ∷ []) false)
      (left-InFiles (done 0 ∷ done 5 ∷ fails 2 ∷ [])) (omega arith) (omega arith) refl
