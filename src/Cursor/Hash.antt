-- ===== src/Cursor/Hash.antt =====
-- The 16-bit hash of a user id against the polynomial that it stands for.
use nexus_ide.Common.{ℕ, ◌+◌, ◌*◌, ◌%◌, ◌≡◌, List, [], ◌∷◌, arith}
use nexus_ide.Cursor.{hash_step, hash_from, hash_user_id_to_uint16}

-- 31 * (… (31 * seed + c₀) …) + cₙ, over unbounded numbers.
pub polynomial : ℕ → List ℕ → ℕ
polynomial seed [] = seed
polynomial seed (c ∷ cs) = polynomial (31 * seed + c) cs

hash_from-mod :
    (seed h : ℕ) (cs : List ℕ) → h ≡ seed % 65536 → hash_from h cs ≡ polynomial seed cs % 65536
unfolding hash_from polynomial hash_step
hash_from-mod seed h [] e = e
hash_from-mod seed h (c ∷ cs) e = hash_from-mod (31 * seed + c) (hash_step h c) cs (omega arith)

-- Masking at every step is masking once at the end: the hash is the base-31 polynomial of the code
-- units modulo 2^16.
pub hash-polynomial : (cs : List ℕ) → hash_user_id_to_uint16 cs ≡ polynomial 0 cs % 65536
unfolding hash_user_id_to_uint16
hash-polynomial cs = hash_from-mod 0 0 cs (omega arith)
