-- ===== src/Base/Word.antt =====
-- Unsigned machine words: uint64_t times, uint32_t and uint16_t counters.
use waybeam_wfb_ng.Base.{ℕ, ◌+◌, ◌-◌, ◌%◌, ◌^◌, ◌≤◌, ◌<◌, ◌≡◌, arith}

abbrev pub u64_mod : ℕ
u64_mod = 2 ^ 64

abbrev pub u32_mod : ℕ
u32_mod = 2 ^ 32

-- `now - then` on uint64_t.
unfoldable pub sub64 : ℕ → ℕ → ℕ
sub64 a b = (a + u64_mod - b) % u64_mod

unfoldable pub add64 : ℕ → ℕ → ℕ
add64 a b = (a + b) % u64_mod

-- `x++` on uint32_t.
unfoldable pub inc32 : ℕ → ℕ
inc32 a = (a + 1) % u32_mod

-- `x++` on uint64_t.
unfoldable pub inc64 : ℕ → ℕ
inc64 a = (a + 1) % u64_mod

pub sub64_of_le : (a b : ℕ) → b ≤ a → a < u64_mod → sub64 a b ≡ a - b
unfolding sub64
sub64_of_le a b h w = omega arith

pub sub64_lt : (a b : ℕ) → sub64 a b < u64_mod
unfolding sub64
sub64_lt a b = omega arith
