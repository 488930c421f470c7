-- ===== src/Prelude/Word.antt =====
-- 32-bit words: `unsigned int` arithmetic, and the value of an `int` with the same bits.
use libvma.Prelude.{ℕ, ◌+◌, ◌-◌, ◌%◌, ◌^◌, ◌≤◌, ◌<◌, ◌≡◌, arith, ltb, if◌then◌else◌}
use libvma.Prelude.Int.{ℤ, pos, negsuc}

abbrev pub add32 : ℕ → ℕ → ℕ
add32 a b = (a + b) % 2 ^ 32

abbrev pub sub32 : ℕ → ℕ → ℕ
sub32 a b = (a + 2 ^ 32 - b) % 2 ^ 32

-- `(int)u` of an unsigned word
abbrev pub to_signed : ℕ → ℤ
to_signed u = if ltb u (2 ^ 31) then pos u else negsuc (2 ^ 32 - 1 - u)

-- the low 32 bits of an integer
abbrev pub low32 : ℤ → ℕ
low32 (pos n) = n % 2 ^ 32
low32 (negsuc n) = 2 ^ 32 - 1 - n % 2 ^ 32

-- the conversion of an `int64_t` to `int`
abbrev pub to_int32 : ℤ → ℤ
to_int32 z = to_signed (low32 z)

pub sub32-eq : (a b : ℕ) → b ≤ a → a < 2 ^ 32 → sub32 a b ≡ a - b
sub32-eq a b h k = omega arith

pub add32-eq : (a b : ℕ) → a + b < 2 ^ 32 → add32 a b ≡ a + b
add32-eq a b h = omega arith
