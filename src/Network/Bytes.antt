-- ===== src/Network/Bytes.antt =====
-- Numbers as bytes, the low byte first, and fields of a packet.
use nocturne_os_base.Prelude.{ℕ, zero, suc, ◌+◌, ◌*◌, ◌/◌, ◌%◌, List, [], ◌∷◌, get_or}

abbrev pub bytes16 : ℕ → List ℕ
bytes16 n = n % 256 ∷ n / 256 % 256 ∷ []

-- The `k` low bytes of a number.
abbrev pub le_bytes : ℕ → ℕ → List ℕ
le_bytes zero n = []
le_bytes (suc k) n = n % 256 ∷ le_bytes k (n / 256)

-- The number that `k` bytes of a packet stand for, from a place on.
abbrev pub le_value : ℕ → List ℕ → ℕ → ℕ
le_value zero bytes at = 0
le_value (suc k) bytes at = get_or bytes at 0 + 256 * le_value k bytes (at + 1)
