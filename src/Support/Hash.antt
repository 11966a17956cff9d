-- ===== src/Support/Hash.antt =====
-- jules/src/core/support/common.h: FNV-1a over the bytes of a value as they lie in memory.
use jules.Prelude.{ℕ, zero, suc, ◌*◌, ◌/◌, ◌%◌, ◌^◌, bit_xor, List, [], ◌∷◌}

abbrev pub fnv_offset : ℕ
fnv_offset = 1469598103934665603

abbrev pub fnv_prime : ℕ
fnv_prime = 1099511628211

-- One u64 step of the loop: xor the byte in, multiply.
unfoldable pub fnv1a : List ℕ → ℕ → ℕ
fnv1a [] h = h
fnv1a (byte ∷ bytes) h = fnv1a bytes (bit_xor h byte * fnv_prime % 2 ^ 64)

-- The `n` bytes of a value, the lowest first.
unfoldable pub bytes_of : ℕ → ℕ → List ℕ
bytes_of zero v = []
bytes_of (suc n) v = v % 256 ∷ bytes_of n (v / 256)

-- hash_mix(a, b): b is a u64.
unfoldable pub hash_mix : ℕ → ℕ → ℕ
unfolding fnv1a bytes_of
hash_mix a b = fnv1a (bytes_of 8 b) a
