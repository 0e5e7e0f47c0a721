-- ===== src/Base/Words.antt =====
-- `size_t` on the 64-bit targets that the server is built for.
use Prim.Native.Nat.{ℕ, ◌+◌, ◌-◌, ◌*◌, ◌%◌, ◌^◌}

abbrev pub size_mod : ℕ
size_mod = 2 ^ 64

abbrev pub add_size : ℕ → ℕ → ℕ
add_size a b = (a + b) % size_mod

-- `-` on ℕ stops at 0, so the modulus is added first.
abbrev pub sub_size : ℕ → ℕ → ℕ
sub_size a b = (a + size_mod - b) % size_mod

-- `x << 1`
abbrev pub double_size : ℕ → ℕ
double_size a = (2 * a) % size_mod

-- sizeof(size_t), and of a pointer
abbrev pub word_bytes : ℕ
word_bytes = 8
