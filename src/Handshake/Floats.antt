-- ===== src/Handshake/Floats.antt =====
-- An instance of the conversions: the integer's 32 bits themselves.
use mundosvirtuales_terremot.Base.{ℕ, ◌≤◌, ◌^◌, ◌≡◌, arith}
use mundosvirtuales_terremot.Base.Int.{pos, signed32, word32, word32-lt}
use mundosvirtuales_terremot.Handshake.{FloatOps}

pub signed32-word32 : (n : ℕ) → n ≤ 2 ^ 24 → signed32 (word32 (pos n)) ≡ pos n
signed32-word32 n h = ground arith

abbrev pub integer_floats : FloatOps
integer_floats = record {
  of_int = word32;
  to_int = signed32;
  of_int-lt = word32-lt;
  exact = signed32-word32;
}
