-- ===== src/Format/RoundTrip.antt =====
-- A header read back from the bytes it was written as.
use tracebox.Prelude.{ℕ, ◌+◌, ◌*◌, ◌^◌, ◌<◌, ◌≡◌, arith, length, take_all}
use tracebox.Bytes.{le_bytes, of_le_bytes, of_le_bytes-le_bytes}
use tracebox.Format.Layout.{LogFileHeader, encode_header, decode_header}

-- Each field is in its range, and the name has its 32 bytes.
pub record IsHeader (h : LogFileHeader) : Type 0 where
  pub header_size : h.header_size < 256 ^ 2
  pub timestamp : h.timestamp_ns < 256 ^ 8
  pub record_size : h.record_size < 256 ^ 4
  pub name : length h.name ≡ 32

pub length-encode_header : (h : LogFileHeader) → length h.name ≡ 32 → length (encode_header h) ≡ 49
unfolding encode_header le_bytes
length-encode_header h e = omega (arith, e)

-- A file header whose fields fit their widths and whose name field has 32 bytes is read back from
-- its bytes as it was.
pub decode_header-encode_header :
    (h : LogFileHeader) → IsHeader h → decode_header (encode_header h) ≡ h
unfolding decode_header encode_header le_bytes of_le_bytes
decode_header-encode_header h v = λ i. record {
  header_size = of_le_bytes-le_bytes 2 h.header_size v.header_size i;
  timestamp_ns = of_le_bytes-le_bytes 8 h.timestamp_ns v.timestamp i;
  record_size = of_le_bytes-le_bytes 4 h.record_size v.record_size i;
  major_version = byte h.major_version i;
  minor_version = byte h.minor_version i;
  file_type = byte h.file_type i;
  name = take_all 32 h.name (omega (arith, v.name)) i;
}
  where
    byte : (n : ℕ) → n + 256 * 0 ≡ n
    byte n = omega arith
