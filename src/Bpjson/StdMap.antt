-- ===== src/Bpjson/StdMap.antt =====
-- std::map<std::string, T> as bpjson uses it.
use Prim.Native.Nat.{Ordering}
use Prim.Native.String.{compare}
use text.Mathlib.Text.{◌==◌}
use re_bacs_env.Prelude.{List, [], ◌∷◌, String, if◌then◌else◌}

-- std::map's operator[], with `fresh` for a key that is not there. The keys ascend.
unfoldable pub map_at {ℓ} : {A : Type ℓ} → A → String → List (String × A) → A
map_at fresh key [] = fresh
map_at fresh key ((k, v) ∷ entries) = if k == key then v else map_at fresh key entries

unfoldable pub map_put {ℓ} : {A : Type ℓ} → String → A → List (String × A) → List (String × A)
map_put key v [] = (key, v) ∷ []
map_put key v ((k, w) ∷ entries) = elim (compare key k) [
  | Ordering.lt ↦ (key, v) ∷ (k, w) ∷ entries
  | Ordering.eq ↦ (key, v) ∷ entries
  | Ordering.gt ↦ (k, w) ∷ map_put key v entries
]
