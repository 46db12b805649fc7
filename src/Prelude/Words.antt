-- ===== src/Prelude/Words.antt =====
-- Go's unsigned words of `w` bits, as numbers under 2 ^ w, and the signed words with the same bits.
use Prim.Native.Nat.{ℕ, ◌+◌, ◌-◌, ◌*◌, ◌/◌, ◌%◌, ◌^◌}
use sampled_mgpu_sim.Prelude.Tests.{ltb, if◌then◌else◌}
use sampled_mgpu_sim.Prelude.Int.{ℤ, pos, negsuc}

-- `a - b`, which wraps around.
abbrev pub sub_word : ℕ → ℕ → ℕ → ℕ
sub_word w a b = (a + (2 ^ w - b % 2 ^ w)) % 2 ^ w

-- `^a`
abbrev pub complement : ℕ → ℕ → ℕ
complement w a = 2 ^ w - 1 - a

-- `a << n`, which drops what leaves the word, and `a >> n`.
abbrev pub shift_left : ℕ → ℕ → ℕ → ℕ
shift_left w a n = a * 2 ^ n % 2 ^ w

abbrev pub shift_right : ℕ → ℕ → ℕ
shift_right a n = a / 2 ^ n

-- The bits of a word read as a signed number, and the word of a signed number.
abbrev pub signed : ℕ → ℕ → ℤ
signed w a = if ltb a (2 ^ (w - 1)) then pos a else negsuc (2 ^ w - 1 - a)

abbrev pub word_of : ℕ → ℤ → ℕ
word_of w (pos n) = n % 2 ^ w
word_of w (negsuc n) = 2 ^ w - 1 - n % 2 ^ w
