-- ===== src/DockerFrame.antt =====
-- backend/src/utils/streamParser.utils.ts: the frames of Docker's attach stream. A Buffer is a list
-- of bytes.
pub mod Extraction
mod Examples
use nexus_ide.Common.{
  ℕ, ◌+◌, ◌*◌, Option, none, some, List, [], ◌∷◌, ltb, if◌then◌else◌, length, get_or, take, drop,
}

pub record Header : Type 0 where
  pub stream_type : ℕ
  pub payload_size : ℕ

pub record Extracted : Type 0 where
  pub payload : List ℕ
  pub stream_type : ℕ
  pub remaining_buffer : List ℕ

-- `buf.readUInt32BE(off)` within bounds
read_uint32_be : List ℕ → ℕ → ℕ
read_uint32_be buf off =
    get_or buf off 0 * 16777216
    + get_or buf (off + 1) 0 * 65536
    + get_or buf (off + 2) 0 * 256
    + get_or buf (off + 3) 0

unfoldable pub parse_docker_frame_header : List ℕ → Option Header
unfolding read_uint32_be
parse_docker_frame_header buf =
    if ltb (length buf) 8
    then none
    else some (record { stream_type = get_or buf 0 0; payload_size = read_uint32_be buf 4 })

extract_with : List ℕ → Option Header → Option Extracted
extract_with buf none = none
extract_with buf (some header) =
    if ltb (length buf) (8 + header.payload_size)
    then none
    else some (record {
      payload = take header.payload_size (drop 8 buf);
      stream_type = header.stream_type;
      remaining_buffer = drop header.payload_size (drop 8 buf);
    })

unfoldable pub extract_docker_payload : List ℕ → Option Extracted
unfolding parse_docker_frame_header extract_with
extract_docker_payload buf = extract_with buf (parse_docker_frame_header buf)
