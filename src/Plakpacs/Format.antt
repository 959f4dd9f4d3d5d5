-- ===== src/Plakpacs/Format.antt =====
-- The wire format that plakpacs.hpp writes, type by type, and the values that it carries whole.
pub mod Writing
pub mod Reading
pub mod RoundTrip
pub mod Losses
pub mod Bytes
pub mod Versions
mod Runs
use re_bacs_env.Prelude.{
  ℕ, ◌%◌, ◌^◌, ◌≤◌, ◌<◌, ◌≡◌, ◌≢◌, Bool, true, false, Option, none, some, List, [], ◌∷◌, ◌++◌,
  if◌then◌else◌, length, All,
}
use re_bacs_env.Plakpacs.Platform.{Platform}
use re_bacs_env.Plakpacs.Types.{
  Ty, Fields, El, Els, scalar, character, boolean, empty, c_string, string, sp_string, array,
  sp_array, vector, sp_vector, optional, constrained, object, no_fields, field,
  check_pp_constraints,
}

abbrev pub flat_encode {ℓ} : {A : Type ℓ} → (A → List ℕ) → List A → List ℕ
flat_encode f [] = []
flat_encode f (x ∷ xs) = f x ++ flat_encode f xs

abbrev pub IsByte : ℕ → Type 0
IsByte b = b < 256

-- A character that a NUL-terminated string can hold.
abbrev pub IsChar : ℕ → Type 0
IsChar b = (b < 256) × (b ≢ 0)

module _ (p : Platform) where
  abbrev pub prefix : ℕ → List ℕ
  prefix n = p.bytes_of 4 (n % 2 ^ 32)

  unfoldable mutual
    pub encode : (t : Ty) → El t → List ℕ
    encode (scalar w) v = p.bytes_of w v
    encode character v = v ∷ []
    encode boolean v = p.bytes_of 1 (if v then 1 else 0)
    encode empty v = p.indeterminate ∷ []
    encode c_string v = v ++ 0 ∷ []
    encode string v = v ++ 0 ∷ []
    encode sp_string v = prefix (length v) ++ (v ++ 0 ∷ [])
    encode (array n t) v = flat_encode (encode t) v
    encode (sp_array n t) v = prefix n ++ flat_encode (encode t) v
    encode (vector t) v = flat_encode (encode t) v
    encode (sp_vector t) v = prefix (length v) ++ flat_encode (encode t) v
    encode (optional t) none = p.bytes_of 1 0
    encode (optional t) (some v) = p.bytes_of 1 1 ++ encode t v
    encode (constrained t cs) v = encode t v
    encode (object holder fs) v = encode_fields fs v

    pub encode_fields : (fs : Fields) → Els fs → List ℕ
    encode_fields no_fields v = []
    encode_fields (field name t fs) (v, vs) = encode t v ++ encode_fields fs vs

-- The values that a read gives back: of a type that has a working `read`, in range, with no NUL in
-- a NUL-terminated string, at most 65536 elements behind a size prefix, and constraints met.
abbrev mutual
  pub Fits : (t : Ty) → El t → Type 0
  Fits (scalar w) v = v < 256 ^ w
  Fits character v = v < 256
  Fits boolean v = Unit {0}
  Fits empty v = ⊥
  Fits c_string v = ⊥
  Fits string v = All IsChar v
  Fits sp_string v = (length v ≤ 65536) × All IsByte v
  Fits (array n t) v = (length v ≡ n) × All (Fits t) v
  Fits (sp_array n t) v = ⊥
  Fits (vector t) v = ⊥
  Fits (sp_vector t) v = (length v ≤ 65536) × All (Fits t) v
  Fits (optional t) none = Unit {0}
  Fits (optional t) (some v) = Fits t v
  Fits (constrained t cs) v = Fits t v × (check_pp_constraints t cs v ≡ true)
  Fits (object holder fs) v = FitsAll fs v

  pub FitsAll : (fs : Fields) → Els fs → Type 0
  FitsAll no_fields v = Unit {0}
  FitsAll (field name t fs) (v, vs) = Fits t v × FitsAll fs vs
