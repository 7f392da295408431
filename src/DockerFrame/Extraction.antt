-- ===== src/DockerFrame/Extraction.antt =====
-- Frames that Docker writes are read back, and nothing of the stream is lost.
use nexus_ide.Common.{
  ℕ, ◌+◌, ◌*◌, ◌/◌, ◌%◌, ◌≤◌, ◌<◌, ◌≡◌, ap, ◌∙◌, some, List, ◌∷◌, ◌++◌, arith, length,
  length-append, take, drop, take-append-drop, take_left, drop_left, length-take, get_or,
}
use nexus_ide.DockerFrame.{Extracted, extract_docker_payload}

-- A frame on the wire: the stream type, three zero bytes, the big-endian length, the payload.
pub frame : ℕ → List ℕ → List ℕ
frame t payload =
    t ∷ 0 ∷ 0 ∷ 0 ∷ n / 16777216 % 256 ∷ n / 65536 % 256 ∷ n / 256 % 256 ∷ n % 256 ∷ payload
  where
    n : ℕ
    n = length payload

size_bytes :
    (n : ℕ)
    → n < 4294967296
    → n / 16777216 % 256 * 16777216 + n / 65536 % 256 * 65536 + n / 256 % 256 * 256 + n % 256 ≡ n
size_bytes n h = omega arith

-- Extracting from a stream that begins with a frame gives its payload and type, and leaves exactly
-- what follows it, for every payload of less than 2^32 bytes.
pub extract-frame :
    (t : ℕ) (payload rest : List ℕ)
    → length payload < 4294967296
    → extract_docker_payload (frame t payload ++ rest)
      ≡ some (record { payload = payload; stream_type = t; remaining_buffer = rest })
unfolding extract_docker_payload frame
extract-frame t payload rest h = ground (
  arith,
  size_bytes (length payload) h,
  length-append payload rest,
  take_left payload rest,
  drop_left payload rest,
)

module _ (buf : List ℕ) (x : Extracted) where
  split_payload :
      (n : ℕ)
      → 8 ≤ length buf
      → x.payload ≡ take n (drop 8 buf)
      → x.remaining_buffer ≡ drop n (drop 8 buf)
      → (take 8 buf ++ (x.payload ++ x.remaining_buffer) ≡ buf) × (length (take 8 buf) ≡ 8)
  split_payload n h p r = (
    rw (p, r)
        (ap (λ t. take 8 buf ++ t) (take-append-drop n (drop 8 buf)) ∙ take-append-drop 8 buf),
    length-take 8 buf h,
  )

-- An extraction that succeeds splits the buffer into an 8-byte header, the payload and the rest.
pub extract_splits :
    (buf : List ℕ) (x : Extracted)
    → extract_docker_payload buf ≡ some x
    → (take 8 buf ++ (x.payload ++ x.remaining_buffer) ≡ buf) × (length (take 8 buf) ≡ 8)
unfolding extract_docker_payload
extract_splits buf x h =
    let n : ℕ =
      get_or buf 4 0 * 16777216 + get_or buf 5 0 * 65536 + get_or buf 6 0 * 256 + get_or buf 7 0 in
    split_payload buf x n (ground arith) (ground arith) (ground arith)
