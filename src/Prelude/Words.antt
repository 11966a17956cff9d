-- ===== src/Prelude/Words.antt =====
-- 64-bit words: a u64 is a number below 2 ^ 64, an i64 is its two's complement bit pattern.
use Prim.Native.Nat.{ℕ, ◌+◌, ◌-◌, ◌*◌, ◌/◌, ◌%◌, ◌^◌, ◌<◌}
use mathlib.Core.Bool.{Bool, not}
use jules.Prelude.Tests.{ltb, leb, if◌then◌else◌}

abbrev pub u64_mod : ℕ
u64_mod = 2 ^ 64

abbrev pub sign_bit : ℕ
sign_bit = 2 ^ 63

abbrev pub IsWord : ℕ → Type 0
IsWord x = x < 2 ^ 64

-- static_cast<u64>(v), static_cast<i64>(v)
abbrev pub wrap : ℕ → ℕ
wrap x = x % 2 ^ 64

abbrev pub add64 : ℕ → ℕ → ℕ
add64 x y = (x + y) % 2 ^ 64

abbrev pub sub64 : ℕ → ℕ → ℕ
sub64 x y = (x + 2 ^ 64 - y) % 2 ^ 64

abbrev pub mul64 : ℕ → ℕ → ℕ
mul64 x y = (x * y) % 2 ^ 64

abbrev pub neg64 : ℕ → ℕ
neg64 x = (2 ^ 64 - x) % 2 ^ 64

abbrev pub not64 : ℕ → ℕ
not64 x = 2 ^ 64 - 1 - x

-- x < 0 for an i64
abbrev pub negative : ℕ → Bool
negative x = leb (2 ^ 63) x

-- the distance of an i64 from 0
abbrev pub magnitude : ℕ → ℕ
magnitude x = if negative x then 2 ^ 64 - x else x

-- x < y for i64: flipping the sign bit turns the signed order into the order of the patterns.
abbrev pub slt : ℕ → ℕ → Bool
slt x y = ltb (add64 x (2 ^ 63)) (add64 y (2 ^ 63))

-- C++'s i64 `/` and `%`, which truncate toward 0, at a divisor other than 0.
abbrev pub sdiv : ℕ → ℕ → ℕ
sdiv x y =
    let q = magnitude x / magnitude y in
    if (if negative x then not (negative y) else negative y) then neg64 q else wrap q

abbrev pub smod : ℕ → ℕ → ℕ
smod x y = let r = magnitude x % magnitude y in if negative x then neg64 r else r

abbrev pub shl64 : ℕ → ℕ → ℕ
shl64 x k = (x * 2 ^ k) % 2 ^ 64

abbrev pub shr64 : ℕ → ℕ → ℕ
shr64 x k = x / 2 ^ k

-- `>>` of an i64 fills with the sign.
abbrev pub sar64 : ℕ → ℕ → ℕ
sar64 x k = if negative x then not64 (not64 x / 2 ^ k) else x / 2 ^ k

-- static_cast<i64>(static_cast<i32>(v)) and static_cast<i64>(static_cast<i8>(v))
abbrev pub sext32 : ℕ → ℕ
sext32 x = let w = x % 2 ^ 32 in if ltb w (2 ^ 31) then w else w + (2 ^ 64 - 2 ^ 32)

abbrev pub sext8 : ℕ → ℕ
sext8 x = let w = x % 2 ^ 8 in if ltb w (2 ^ 7) then w else w + (2 ^ 64 - 2 ^ 8)
