-- ===== src/Prelude/Bounded.antt =====
-- Ranges of machine values.
use Prim.Native.Nat.{ℕ, ◌<◌, ◌^◌}

abbrev pub IsByte : ℕ → Type 0
IsByte b = b < 256

abbrev pub IsU32 : ℕ → Type 0
IsU32 v = v < 2 ^ 32

abbrev pub IsU64 : ℕ → Type 0
IsU64 v = v < 2 ^ 64

abbrev pub u64_mod : ℕ
u64_mod = 2 ^ 64
