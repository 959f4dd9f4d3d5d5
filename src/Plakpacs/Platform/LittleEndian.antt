-- ===== src/Plakpacs/Platform/LittleEndian.antt =====
-- A platform with the low byte first, as on x86 and ARM, on which the tests run.
use re_bacs_env.Prelude.{
  ℕ, zero, suc, ◌+◌, ◌*◌, ◌/◌, ◌%◌, ◌^◌, ◌<◌, ◌≡◌, refl, ap, arith, Bool, true, false, not, List,
  [], ◌∷◌, length, ◌==◌, All,
}
use re_bacs_env.Plakpacs.Platform.{Platform}

unfoldable pub bytes_of : ℕ → ℕ → List ℕ
bytes_of zero v = []
bytes_of (suc w) v = v % 256 ∷ bytes_of w (v / 256)

unfoldable pub value_of : List ℕ → ℕ
value_of [] = 0
value_of (b ∷ bs) = b + 256 * value_of bs

pub length-bytes_of : (w v : ℕ) → length (bytes_of w v) ≡ w
unfolding bytes_of
length-bytes_of zero v = refl
length-bytes_of (suc w) v = ap suc (length-bytes_of w (v / 256))

pub bytes_of-lt : (w v : ℕ) → All (λ b. b < 256) (bytes_of w v)
unfolding bytes_of
bytes_of-lt zero v = tt
bytes_of-lt (suc w) v = (omega arith, bytes_of-lt w (v / 256))

pub value_of-bytes_of : (w v : ℕ) → v < 256 ^ w → value_of (bytes_of w v) ≡ v
unfolding bytes_of value_of
value_of-bytes_of zero v h = omega arith
value_of-bytes_of (suc w) v h = omega (arith, value_of-bytes_of w (v / 256) (omega arith))

pub bytes_of_one : (v : ℕ) → v < 256 → bytes_of 1 v ≡ v ∷ []
unfolding bytes_of
bytes_of_one v h = ap (λ b. b ∷ []) (omega arith)

abbrev pub fill : ℕ
fill = 0xcd

pub indeterminate-lt : fill < 256
indeterminate-lt = omega arith

unfoldable pub bool_of : ℕ → Bool
bool_of b = not (b == 0)

pub bool_of_zero : bool_of 0 ≡ false
unfolding bool_of
bool_of_zero = refl

pub bool_of_one : bool_of 1 ≡ true
unfolding bool_of
bool_of_one = refl

unfoldable pub little_endian : Platform
unfolding bytes_of value_of bool_of
little_endian = record {
  bytes_of = bytes_of;
  value_of = value_of;
  bool_of = bool_of;
  indeterminate = fill;
  length-bytes_of = length-bytes_of;
  bytes_of-lt = bytes_of-lt;
  value_of-bytes_of = value_of-bytes_of;
  indeterminate-lt = indeterminate-lt;
  bytes_of_one = bytes_of_one;
  bool_of_zero = bool_of_zero;
  bool_of_one = bool_of_one;
}
