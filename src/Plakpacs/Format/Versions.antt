-- ===== src/Plakpacs/Format/Versions.antt =====
-- Messages of programs with different versions of a class: one version has further fields at its end.
use re_bacs_env.Prelude.{
  ℕ, ◌+◌, ◌<◌, ◌≡◌, ◌∙◌, refl, sym, ap, arith, false, none, List, [], ◌∷◌, ◌++◌, append-nil,
  append_assoc, String, ok, length, length-append,
}
use re_bacs_env.Plakpacs.Platform.{Platform}
use re_bacs_env.Plakpacs.Types.{
  Ty, Fields, Els, optional, object, no_fields, field, initial, initials,
}
use re_bacs_env.Plakpacs.Streams.{WriteStream, ReadStream, can_read, can_read_num, size_mod}
use re_bacs_env.Plakpacs.Serializer.{write, read, read_object, read_optional, rethrow_in_field}
use re_bacs_env.Plakpacs.Format.{encode, encode_fields, FitsAll}
use re_bacs_env.Plakpacs.Format.Writing.{write-encode}
use re_bacs_env.Plakpacs.Format.Reading.{between, Addressable}
use re_bacs_env.Plakpacs.Format.RoundTrip.{read_type, read_fields}

-- The later version: further fields behind those of the earlier one.
abbrev pub extended : Fields → Fields → Fields
extended no_fields gs = gs
extended (field name t fs) gs = field name t (extended fs gs)

abbrev pub joined : (fs gs : Fields) → Els fs → Els gs → Els (extended fs gs)
joined no_fields gs v w = w
joined (field name t fs) gs (v, vs) w = (v, joined fs gs vs w)

-- Further fields that are optional, and their values when all are absent.
abbrev pub optionals : List (String × Ty) → Fields
optionals [] = no_fields
optionals ((name, t) ∷ added) = field name (optional t) (optionals added)

abbrev pub absent : (added : List (String × Ty)) → Els (optionals added)
absent [] = tt
absent ((name, t) ∷ added) = (none, absent added)

encode_fields-extended :
    (p : Platform) (fs gs : Fields) (v : Els fs) (w : Els gs)
    → encode_fields p (extended fs gs) (joined fs gs v w)
      ≡ encode_fields p fs v ++ encode_fields p gs w
unfolding encode
encode_fields-extended p no_fields gs v w = refl
encode_fields-extended p (field name t fs) gs (v, vs) w =
    ap (λ ys. encode p t v ++ ys) (encode_fields-extended p fs gs vs w)
    ∙ sym (append_assoc (encode p t v) (encode_fields p fs vs) (encode_fields p gs w))

can_read-end :
    (front : List ℕ)
    → 0 < length front
    → length front < size_mod
    → can_read (between front []) ≡ false
unfolding can_read can_read_num between
can_read-end front some small = rw append-nil (ground arith)

module _ (p : Platform) (holder : String) where
  -- At the end of the stream the optional fields stay without values.
  read_optionals :
      (added : List (String × Ty)) (s : ReadStream)
      → can_read s ≡ false
      → read_object p holder (optionals added) (initials (optionals added)) s ≡ ok (absent added, s)
  unfolding read initial read_optional rethrow_in_field
  read_optionals [] s ended = refl
  read_optionals ((name, t) ∷ added) s ended = rw (ended, read_optionals added s ended) refl

  read_extended :
      (fs : Fields) (added : List (String × Ty)) (v : Els fs) (front : List ℕ)
      → FitsAll fs v
      → 0 < length front + length (encode_fields p fs v)
      → Addressable front (encode_fields p fs v)
      → read_object p holder
          (extended fs (optionals added))
          (initials (extended fs (optionals added)))
          (between front (encode_fields p fs v))
        ≡ ok (
          joined fs (optionals added) v (absent added),
          between (front ++ encode_fields p fs v) [],
        )
  unfolding read initial encode rethrow_in_field
  read_extended no_fields added v front fits some small =
      read_optionals added (between front [])
        (can_read-end front (omega (arith, some)) (omega (arith, small)))
      ∙ ap (λ xs. ok (absent added, between xs [])) (sym (append-nil front))
  read_extended (field name t fs) added (v, vs) front (fit, fits) some small =
      let one = encode p t v in
      let others = encode_fields p fs vs in
      let long₁ = length-append one others in
      let long₂ = length-append front one in
      rw (
        read_type p t v fit front others small,
        read_extended fs added vs (front ++ one) fits (omega (arith, some, long₁, long₂))
            (omega (arith, small, long₁, long₂)),
        append_assoc front one others,
      )

  read_earlier :
      (fs : Fields) (v : Els fs) (front rest : List ℕ)
      → FitsAll fs v
      → Addressable front (encode_fields p fs v ++ rest)
      → read_object p holder fs
          (initials fs)
          (record { bytes = front ++ (encode_fields p fs v ++ rest); position = length front })
        ≡ ok (
          v,
          record {
            bytes = front ++ (encode_fields p fs v ++ rest);
            position = length front + length (encode_fields p fs v);
          },
        )
  unfolding between
  read_earlier fs v front rest fits small =
      rw
        (append_assoc front (encode_fields p fs v) rest, length-append front (encode_fields p fs v))
        at (read_fields p holder fs v fits front rest small)

  -- A class got further fields at its end. A reader of the later version takes a message of the
  -- earlier one, if the further fields are optional and nothing stands behind the message: they have
  -- no value then. A reader of the earlier version takes a message of the later one, with fields of
  -- any types, and stops before these. The values of the common fields fit their types, there is a
  -- byte before the end of the first message, and both buffers are of a size below 2^64.
  pub read-write_versions :
      (fs gs : Fields) (added : List (String × Ty)) (v : Els fs) (w : Els gs) (front back : List ℕ)
      → FitsAll fs v
      → 0 < length front + length (encode_fields p fs v)
      → length front + length (encode_fields p fs v) < size_mod
      → length front + length (encode_fields p (extended fs gs) (joined fs gs v w) ++ back)
        < size_mod
      → let earlier = object holder fs in
        let later = object holder (extended fs (optionals added)) in
        let other = object holder (extended fs gs) in
        ((ws : WriteStream) × (write p earlier v (record { bytes = front }) ≡ ok ws)
          × (read p later (initial later) (record { bytes = ws.bytes; position = length front })
              ≡ ok (
                joined fs (optionals added) v (absent added),
                record { bytes = ws.bytes; position = length ws.bytes },
              )))
        × ((ws : WriteStream) × (write p other (joined fs gs v w) (record { bytes = front })
              ≡ ok ws)
            × (read p earlier
                  (initial earlier)
                  (record { bytes = ws.bytes ++ back; position = length front })
                ≡ ok (
                  v,
                  record {
                    bytes = ws.bytes ++ back;
                    position = length front + length (encode_fields p fs v);
                  },
                )))
  unfolding encode read initial between
  read-write_versions fs gs added v w front back fits some small small' = (
    (
      record { bytes = front ++ encode_fields p fs v },
      write-encode p (object holder fs) v (record { bytes = front }),
      read_extended fs added v front fits some small
          ∙ ap
              (λ bs. ok (
                joined fs (optionals added) v (absent added),
                record { bytes = bs; position = length (front ++ encode_fields p fs v) },
              ))
              (append-nil (front ++ encode_fields p fs v)),
    ),
    (
      record { bytes = front ++ encode_fields p (extended fs gs) (joined fs gs v w) },
      write-encode p (object holder (extended fs gs)) (joined fs gs v w) (record { bytes = front }),
      rw
          (
            encode_fields-extended p fs gs v w,
            append_assoc front (encode_fields p fs v ++ encode_fields p gs w) back,
            append_assoc (encode_fields p fs v) (encode_fields p gs w) back,
          )
          (read_earlier fs v front (encode_fields p gs w ++ back) fits (
            rw
              (
                encode_fields-extended p fs gs v w,
                append_assoc (encode_fields p fs v) (encode_fields p gs w) back,
              )
              at small')),
    ),
  )
