-- ===== src/Plakpacs/Format/Runs.antt =====
-- Messages between versions of a class, at concrete inputs.
use re_bacs_env.Prelude.{◌≡◌, ◌++◌, arith, none, [], ◌∷◌, ok, length}
use re_bacs_env.Plakpacs.Types.{Ty, scalar, character, optional, object, no_fields, field, initial}
use re_bacs_env.Plakpacs.Streams.{WriteStream}
use re_bacs_env.Plakpacs.Serializer.{write, read}
use re_bacs_env.Plakpacs.Format.{encode}
use re_bacs_env.Plakpacs.Format.Versions.{read-write_versions}
use re_bacs_env.Plakpacs.Platform.LittleEndian.{little_endian}

-- struct Item { uint32_t id; }; and two later versions of it.
abbrev item : Ty
item = object "Item" (field "id" (scalar 4) no_fields)

abbrev item_with_mark : Ty
item_with_mark = object "Item" (field "id" (scalar 4) (field "mark" (optional character) no_fields))

abbrev item_with_level : Ty
item_with_level = object "Item" (field "id" (scalar 4) (field "level" character no_fields))

read-write_versions_example :
    ((ws : WriteStream) × (write little_endian item (7, tt) (record { bytes = [] }) ≡ ok ws)
      × (read little_endian item_with_mark
            (initial item_with_mark)
            (record { bytes = ws.bytes; position = 0 })
          ≡ ok ((7, (none, tt)), record { bytes = ws.bytes; position = length ws.bytes })))
    × ((ws : WriteStream) × (write little_endian item_with_level
            (7, (9, tt))
            (record { bytes = [] })
          ≡ ok ws)
        × (read little_endian item
              (initial item)
              (record { bytes = ws.bytes ++ 1 ∷ []; position = 0 })
            ≡ ok ((7, tt), record { bytes = ws.bytes ++ 1 ∷ []; position = 4 })))
unfolding encode little_endian
read-write_versions_example =
    read-write_versions little_endian "Item" (field "id" (scalar 4) no_fields)
      (field "level" character no_fields) (("mark", character) ∷ []) (7, tt) (9, tt) [] (1 ∷ [])
      (omega arith, tt) (omega arith) (omega arith) (omega arith)
