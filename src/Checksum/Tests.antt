-- ===== src/Checksum/Tests.antt =====
-- The checksums of short data.
use nocturne_os_base.Prelude.{ℕ, ◌+◌, ◌%◌, ◌<◌, List, [], ◌∷◌, replicate, ◌≡◌, refl, arith, ret}
use nocturne_os_base.Checksum.{ipv4_checksum, checksum}
use nocturne_os_base.Checksum.Fold.{total, network_total, checksum-sums, ipv4_checksum-sums}

checksum-sums_example :
    (c : ℕ) × (checksum (69 ∷ 0 ∷ 255 ∷ []) ≡ ret c)
    × (c < 65536)
    × ((total (69 ∷ 0 ∷ 255 ∷ []) + c) % 65535 ≡ 0)
checksum-sums_example =
    checksum-sums (69 ∷ 0 ∷ 255 ∷ []) (omega arith, (omega arith, (omega arith, tt))) (omega arith)

abbrev pair : ℕ × ℕ → List ℕ → List ℕ
pair (a, b) rest = a ∷ b ∷ rest

-- Words that add up to 0x1ffff.
abbrev header : List ℕ
header = pair (255, 255) (pair (255, 255) (pair (0, 1) (replicate 14 0)))

ipv4_checksum-sums_example : (network_total header + ipv4_checksum header) % 65535 ≡ 1
ipv4_checksum-sums_example = ipv4_checksum-sums header (omega arith) refl
