-- ===== src/DockerFrame/Examples.antt =====
-- Runs of the frame parser.
use nexus_ide.Common.{ℕ, ◌≡◌, refl, none, some, List, [], ◌∷◌}
use nexus_ide.DockerFrame.{Extracted, extract_docker_payload}

abbrev hello : List ℕ
hello = 104 ∷ 105 ∷ []

abbrev stream : List ℕ
stream = 1 ∷ 0 ∷ 0 ∷ 0 ∷ 0 ∷ 0 ∷ 0 ∷ 2 ∷ 104 ∷ 105 ∷ 2 ∷ []

abbrev first : Extracted
first = record { payload = hello; stream_type = 1; remaining_buffer = 2 ∷ [] }

stream-first : extract_docker_payload stream ≡ some first
unfolding extract_docker_payload
stream-first = refl

short_header : extract_docker_payload (1 ∷ 0 ∷ 0 ∷ []) ≡ none
unfolding extract_docker_payload
short_header = refl

short_payload : extract_docker_payload (1 ∷ 0 ∷ 0 ∷ 0 ∷ 0 ∷ 0 ∷ 0 ∷ 9 ∷ 7 ∷ []) ≡ none
unfolding extract_docker_payload
short_payload = refl
