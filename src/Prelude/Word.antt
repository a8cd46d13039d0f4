-- ===== src/Prelude/Word.antt =====
-- Unsigned machine words as native numbers, with their wrap-around written out.
use libvsf.Prelude.{ℕ, ◌+◌, ◌-◌, ◌%◌, ◌^◌, ◌<◌, ◌≤◌, ◌≡◌, arith}

-- Conversion to `unsigned int` and to `unsigned long long`.
abbrev pub u32 : ℕ → ℕ
u32 n = n % 2 ^ 32

abbrev pub u64 : ℕ → ℕ
u64 n = n % 2 ^ 64

-- Subtraction of two `unsigned int`s, and of two `unsigned long long`s.
abbrev pub sub32 : ℕ → ℕ → ℕ
sub32 a b = (a + 2 ^ 32 - b) % 2 ^ 32

abbrev pub sub64 : ℕ → ℕ → ℕ
sub64 a b = (a + 2 ^ 64 - b) % 2 ^ 64

-- The difference of two counters that were cut to 32 bits is their true difference, if that fits.
pub sub32-u32 : (a b : ℕ) → a ≤ b → b < a + 2 ^ 32 → sub32 (u32 b) (u32 a) ≡ b - a
sub32-u32 a b h k = omega arith
