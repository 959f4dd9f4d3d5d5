-- ===== src/Plakpacs/Platform.antt =====
-- What plakpacs.hpp takes from the C++ implementation it is compiled with: object representations.
pub mod LittleEndian
use re_bacs_env.Prelude.{ℕ, ◌<◌, ◌^◌, ◌≡◌, Bool, true, false, List, [], ◌∷◌, length, All}

-- `bytes_of w v` is the memory of an object of `w` bytes with value `v`, the number of its bits.
-- `indeterminate` is a byte that was never written.
pub record Platform : Type 0 where
  pub bytes_of : ℕ → ℕ → List ℕ
  pub value_of : List ℕ → ℕ
  pub bool_of : ℕ → Bool
  pub indeterminate : ℕ
  pub length-bytes_of : (w v : ℕ) → length (bytes_of w v) ≡ w
  pub bytes_of-lt : (w v : ℕ) → All (λ b. b < 256) (bytes_of w v)
  pub value_of-bytes_of : (w v : ℕ) → v < 256 ^ w → value_of (bytes_of w v) ≡ v
  pub indeterminate-lt : indeterminate < 256
  pub bytes_of_one : (v : ℕ) → v < 256 → bytes_of 1 v ≡ v ∷ []
  pub bool_of_zero : bool_of 0 ≡ false
  pub bool_of_one : bool_of 1 ≡ true
