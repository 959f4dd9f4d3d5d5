-- ===== src/Plakpacs/Format/Bytes.antt =====
-- What plakpacs::serializer::write writes are bytes.
use re_bacs_env.Prelude.{
  ℕ, none, some, List, [], ◌∷◌, ◌++◌, arith, All, All-append, All-imp, if◌then◌else◌,
}
use re_bacs_env.Plakpacs.Platform.{Platform}
use re_bacs_env.Plakpacs.Types.{
  Ty, Fields, El, Els, scalar, character, boolean, empty, c_string, string, sp_string, array,
  sp_array, vector, sp_vector, optional, constrained, object, no_fields, field,
}
use re_bacs_env.Plakpacs.Format.{
  encode, encode_fields, flat_encode, prefix, Fits, FitsAll, IsByte, IsChar,
}

-- The characters in a value are bytes. Nothing is asked of its numbers, or of its sizes.
abbrev mutual
  pub AreBytes : (t : Ty) → El t → Type 0
  AreBytes (scalar w) v = Unit {0}
  AreBytes character v = IsByte v
  AreBytes boolean v = Unit {0}
  AreBytes empty v = Unit {0}
  AreBytes c_string v = All IsByte v
  AreBytes string v = All IsByte v
  AreBytes sp_string v = All IsByte v
  AreBytes (array n t) v = All (AreBytes t) v
  AreBytes (sp_array n t) v = All (AreBytes t) v
  AreBytes (vector t) v = All (AreBytes t) v
  AreBytes (sp_vector t) v = All (AreBytes t) v
  AreBytes (optional t) none = Unit {0}
  AreBytes (optional t) (some v) = AreBytes t v
  AreBytes (constrained t cs) v = AreBytes t v
  AreBytes (object holder fs) v = AreBytesAll fs v

  pub AreBytesAll : (fs : Fields) → Els fs → Type 0
  AreBytesAll no_fields v = Unit {0}
  AreBytesAll (field name t fs) (v, vs) = AreBytes t v × AreBytesAll fs vs

flat_encode-IsByte {ℓ κ} :
    {A : Type ℓ} (P : A → Type κ) (f : A → List ℕ)
    → ((x : A) → P x → All IsByte (f x))
    → (xs : List A) → All P xs
    → All IsByte (flat_encode f xs)
flat_encode-IsByte P f each [] h = tt
flat_encode-IsByte P f each (x ∷ xs) h =
    All-append IsByte (f x) (flat_encode f xs) (each x h.0) (flat_encode-IsByte P f each xs h.1)

with_nul : (v : List ℕ) → All IsByte v → All IsByte (v ++ 0 ∷ [])
with_nul v h = All-append IsByte v (0 ∷ []) h (omega arith, tt)

mutual
  pub Fits-AreBytes : (t : Ty) (v : El t) → Fits t v → AreBytes t v
  Fits-AreBytes (scalar w) v h = tt
  Fits-AreBytes character v h = h
  Fits-AreBytes boolean v h = tt
  Fits-AreBytes empty v h = tt
  Fits-AreBytes c_string v h = absurd h
  Fits-AreBytes string v h = All-imp IsChar IsByte (λ b c. c.0) v h
  Fits-AreBytes sp_string v h = h.1
  Fits-AreBytes (array n t) v h = All-imp (Fits t) (AreBytes t) (Fits-AreBytes t) v h.1
  Fits-AreBytes (sp_array n t) v h = absurd h
  Fits-AreBytes (vector t) v h = absurd h
  Fits-AreBytes (sp_vector t) v h = All-imp (Fits t) (AreBytes t) (Fits-AreBytes t) v h.1
  Fits-AreBytes (optional t) none h = tt
  Fits-AreBytes (optional t) (some v) h = Fits-AreBytes t v h
  Fits-AreBytes (constrained t cs) v h = Fits-AreBytes t v h.0
  Fits-AreBytes (object holder fs) v h = FitsAll-AreBytesAll fs v h

  FitsAll-AreBytesAll : (fs : Fields) (v : Els fs) → FitsAll fs v → AreBytesAll fs v
  FitsAll-AreBytesAll no_fields v h = tt
  FitsAll-AreBytesAll (field name t fs) (v, vs) h =
      (Fits-AreBytes t v h.0, FitsAll-AreBytesAll fs vs h.1)

module _ (p : Platform) where
  prefixed : (n : ℕ) (bytes : List ℕ) → All IsByte bytes → All IsByte (prefix p n ++ bytes)
  prefixed n bytes h = All-append IsByte (prefix p n) bytes (p.bytes_of-lt 4 _) h

  mutual
    unfolding encode

    pub encode-IsByte : (t : Ty) (v : El t) → AreBytes t v → All IsByte (encode p t v)
    encode-IsByte (scalar w) v h = p.bytes_of-lt w v
    encode-IsByte character v h = (h, tt)
    encode-IsByte boolean v h = p.bytes_of-lt 1 (if v then 1 else 0)
    encode-IsByte empty v h = (p.indeterminate-lt, tt)
    encode-IsByte c_string v h = with_nul v h
    encode-IsByte string v h = with_nul v h
    encode-IsByte sp_string v h = prefixed _ _ (with_nul v h)
    encode-IsByte (array n t) v h =
        flat_encode-IsByte (AreBytes t) (encode p t) (encode-IsByte t) v h
    encode-IsByte (sp_array n t) v h =
        prefixed _ _ (flat_encode-IsByte (AreBytes t) (encode p t) (encode-IsByte t) v h)
    encode-IsByte (vector t) v h =
        flat_encode-IsByte (AreBytes t) (encode p t) (encode-IsByte t) v h
    encode-IsByte (sp_vector t) v h =
        prefixed _ _ (flat_encode-IsByte (AreBytes t) (encode p t) (encode-IsByte t) v h)
    encode-IsByte (optional t) none h = p.bytes_of-lt 1 0
    encode-IsByte (optional t) (some v) h =
        All-append IsByte (p.bytes_of 1 1) (encode p t v) (p.bytes_of-lt 1 1) (encode-IsByte t v h)
    encode-IsByte (constrained t cs) v h = encode-IsByte t v h
    encode-IsByte (object holder fs) v h = encode_fields-IsByte fs v h

    encode_fields-IsByte :
        (fs : Fields) (v : Els fs) → AreBytesAll fs v → All IsByte (encode_fields p fs v)
    encode_fields-IsByte no_fields v h = tt
    encode_fields-IsByte (field name t fs) (v, vs) h =
        All-append IsByte (encode p t v) (encode_fields p fs vs) (encode-IsByte t v h.0)
          (encode_fields-IsByte fs vs h.1)
