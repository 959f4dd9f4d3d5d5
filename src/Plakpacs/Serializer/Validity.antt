-- ===== src/Plakpacs/Serializer/Validity.antt =====
-- plakpacs::serializer::read on any bytes: what holds of a value that it returns.
pub mod Yielding
use re_bacs_env.Prelude.{
  ℕ, zero, suc, ◌≤◌, ◌≡◌, ◌≢◌, arith, Bool, true, false, inl, inr, none, some, List, [], ◌∷◌, ◌++◌,
  String, ok, throws, runtime_error, ◌>>=◌, length, length-replicate, replicate, All, Bool-cases,
  All-append, if◌then◌else◌, ◌==◌,
}
use re_bacs_env.Plakpacs.Platform.{Platform}
use re_bacs_env.Plakpacs.Types.{
  Ty, Fields, El, Els, scalar, character, boolean, empty, c_string, string, sp_string, array,
  sp_array, vector, sp_vector, optional, constrained, object, no_fields, field, initial, initials,
  check_pp_constraints,
}
use re_bacs_env.Plakpacs.Streams.{ReadStream, read_value, read_bool, can_read}
use re_bacs_env.Plakpacs.Serializer.{
  read, read_object, read_chars, read_string, read_sized, read_optional, read_present,
  rethrow_in_field, read_site, map_value,
}
use re_bacs_env.Plakpacs.Serializer.Validity.Yielding.{
  Any, Any-Returns, Returns-rethrow, Yields, ne-zero, read_fixed-Yields, read_sized-Yields,
  then-Yields,
}

-- No NUL in a string, arrays of their size, at most 65536 elements behind a size prefix, and
-- constraints met, at every depth. Of the types that no read returns there is no valid value.
abbrev mutual
  pub IsValid : (t : Ty) → El t → Type 0
  IsValid (scalar w) v = Unit {0}
  IsValid character v = Unit {0}
  IsValid boolean v = Unit {0}
  IsValid empty v = Unit {0}
  IsValid c_string v = ⊥
  IsValid string v = All (λ c. c ≢ 0) v
  IsValid sp_string v = length v ≤ 65536
  IsValid (array n t) v = (length v ≡ n) × All (IsValid t) v
  IsValid (sp_array n t) v = ⊥
  IsValid (vector t) v = ⊥
  IsValid (sp_vector t) v = (length v ≤ 65536) × All (IsValid t) v
  IsValid (optional t) none = Unit {0}
  IsValid (optional t) (some v) = IsValid t v
  IsValid (constrained t cs) v = IsValid t v × (check_pp_constraints t cs v ≡ true)
  IsValid (object holder fs) v = AreValid fs v

  pub AreValid : (fs : Fields) → Els fs → Type 0
  AreValid no_fields v = Unit {0}
  AreValid (field name t fs) (v, vs) = IsValid t v × AreValid fs vs

module _ (p : Platform) where
  read_chars-Yields :
      (fuel : ℕ) (acc : List ℕ)
      → All (λ c. c ≢ 0) acc
      → Yields (All (λ c. c ≢ 0)) (read_chars p fuel acc)
  unfolding read_chars
  read_chars-Yields zero acc a = λ s. tt
  read_chars-Yields (suc fuel) acc a =
      then-Yields Any _ (read_value p 1)
        (λ c s. if c == 0 then ok (acc, s) else read_chars p fuel (acc ++ c ∷ []) s)
        (λ s. Any-Returns (read_value p 1 s))
        (λ c _ s. elim (Bool-cases (c == 0)) [
          | inl z ↦ rw z a
          | inr z ↦ rw z (
              read_chars-Yields fuel (acc ++ c ∷ [])
                (All-append (λ (x : ℕ). x ≢ 0) acc (c ∷ []) a (ne-zero c z, tt)) s)
        ])

  read_optional-Yields :
      (t : Ty)
      → Yields (IsValid t) (read p t (initial t))
      → Yields (IsValid (optional t)) (read_optional p (read p t (initial t)) none)
  unfolding read_optional read_present
  read_optional-Yields t h s = elim (Bool-cases (can_read s)) [
    | inl e ↦ rw e (
        then-Yields Any (IsValid (optional t)) (read_bool p)
          (λ has s'. if has then map_value some (read p t (initial t) s') else ok (none, s'))
          (λ u. Any-Returns (read_bool p u)) present s)
    | inr e ↦ rw e tt
  ]
    where
      present :
          (has : Bool)
          → Any has
          → Yields
              (IsValid (optional t))
              (λ s'. if has then map_value some (read p t (initial t) s') else ok (none, s'))
      present true _ =
          then-Yields (IsValid t) (IsValid (optional t)) (read p t (initial t))
            (λ v u. ok (some v, u)) h (λ v hv u. hv)
      present false _ = λ u. tt

  mutual
    unfolding read initial read_string

    read_type-Yields : (t : Ty) → Yields (IsValid t) (read p t (initial t))
    read_type-Yields (scalar w) = λ s. Any-Returns (read_value p w s)
    read_type-Yields character = λ s. Any-Returns (read_value p 1 s)
    read_type-Yields boolean = λ s. Any-Returns (read_bool p s)
    read_type-Yields empty = λ s. tt
    read_type-Yields c_string = λ s. tt
    read_type-Yields string = λ s. read_chars-Yields (suc (length s.bytes)) [] tt s
    read_type-Yields sp_string =
        then-Yields Any _ (read_value p 4)
          (λ size s. read_sized (read_value p 1) [] size s >>= λ (value, s').
            map_value (λ last. value) (read_value p 1 s'))
          (λ s. Any-Returns (read_value p 4 s))
          (λ size _.
            then-Yields (λ v. (length v ≤ 65536) × All Any v) _
              (read_sized (read_value p 1) [] size)
              (λ value s. map_value (λ last. value) (read_value p 1 s))
              (read_sized-Yields Any (read_value p 1) size (λ s. Any-Returns (read_value p 1 s)))
              (λ value h.
                then-Yields Any _ (read_value p 1) (λ last s. ok (value, s))
                  (λ s. Any-Returns (read_value p 1 s)) (λ last _ s. h.0)))
    read_type-Yields (array n t) =
        read_fixed-Yields (IsValid t) (read p t (initial t)) (read_type-Yields t) n n []
          (replicate n (initial t)) (omega arith) (length-replicate n _) tt
    read_type-Yields (sp_array n t) = λ s. tt
    read_type-Yields (vector t) = λ s. tt
    read_type-Yields (sp_vector t) =
        then-Yields Any _ (read_value p 4) (read_sized (read p t (initial t)) [])
          (λ s. Any-Returns (read_value p 4 s))
          (λ size _. read_sized-Yields (IsValid t) (read p t (initial t)) size (read_type-Yields t))
    read_type-Yields (optional t) = read_optional-Yields t (read_type-Yields t)
    read_type-Yields (constrained t cs) =
        then-Yields (IsValid t) (IsValid (constrained t cs)) (read p t (initial t))
          (λ v s.
            if check_pp_constraints t cs v
            then ok (v, s)
            else throws (runtime_error "Constraint not satisfied"))
          (read_type-Yields t)
          (λ v h s. elim (Bool-cases (check_pp_constraints t cs v)) [
            | inl e ↦ rw e (h, e)
            | inr e ↦ rw e tt
          ])
    read_type-Yields (object holder fs) = read_fields-Yields holder fs

    read_fields-Yields :
        (holder : String) (fs : Fields)
        → Yields (AreValid fs) (read_object p holder fs (initials fs))
    read_fields-Yields holder no_fields = λ s. tt
    read_fields-Yields holder (field name t fs) =
        then-Yields (IsValid t) (AreValid (field name t fs))
          (λ s. rethrow_in_field read_site holder name (read p t (initial t) s))
          (λ v s. map_value (λ vs. (v, vs)) (read_object p holder fs (initials fs) s))
          (λ s. Returns-rethrow (IsValid t) read_site holder name _ (read_type-Yields t s))
          (λ v h.
            then-Yields (AreValid fs) (AreValid (field name t fs))
              (read_object p holder fs (initials fs)) (λ vs s. ok ((v, vs), s))
              (read_fields-Yields holder fs) (λ vs hs s. (h, hs)))

  -- Whatever the bytes are, a value that `read` returns into a fresh variable is valid: at
  -- every depth its strings hold no NUL unless they are size-prefixed, its arrays have their size, its
  -- size-prefixed containers have at most 65536 elements, and its constraints are met.
  pub read-IsValid :
      (t : Ty) (s s' : ReadStream) (v : El t) → read p t (initial t) s ≡ ok (v, s') → IsValid t v
  read-IsValid t s s' v e = rw e at (read_type-Yields t s)
