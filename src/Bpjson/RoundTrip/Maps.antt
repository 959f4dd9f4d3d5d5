-- ===== src/Bpjson/RoundTrip/Maps.antt =====
-- bpjson's walker of std::map: the entries that are written come back.
use Prim.Native.Nat.{Ordering}
use Prim.Native.String.{compare}
use text.Mathlib.TextPositions.{compare_refl}
use re_bacs_env.Prelude.{
  ◌≡◌, ◌≢◌, ◌∙◌, ◌⊎◌, inl, inr, refl, sym, ap, true, false, List, [], ◌∷◌, ◌++◌, String, Outcome,
  ok, All, All-append, All-imp, append_assoc, append-nil,
}
use re_bacs_env.Bpjson.Traits.{JsonTraits, Precedes}
use re_bacs_env.Bpjson.StdMap.{map_at, map_put}
use re_bacs_env.Bpjson.{read_entries, write_entries}

Precedes-ne : (k k' : String) → Precedes k k' → k ≢ k'
Precedes-ne k k' h e =
    let same : compare k k' ≡ Ordering.eq = rw (← e) (compare_refl k) in lt-ne-eq (sym h.0 ∙ same)
  where
    lt-ne-eq : Ordering.lt ≢ Ordering.eq
    lt-ne-eq q = cc

module _ {A : Type 0} where
  -- The keys of a std::map ascend.
  abbrev pub Ascends : List (String × A) → Type 0
  Ascends [] = Unit {0}
  Ascends ((k, v) ∷ entries) = All (λ e. Precedes k e.0) entries × Ascends entries

module _ (traits : JsonTraits) where
  open traits use {Json, get_existing_subkey}

  abbrev pub Exist : Json → List (String × Json) → Type 0
  Exist json js = All (λ item. (u : Json) × (get_existing_subkey json item.0 ≡ ok u)) js

module _ (traits : JsonTraits) {A : Type 0} where
  open traits use {
    Json, null, is_null, is_object, subkey_exists, get_existing_subkey, put_subkey, get_keys,
    any_subkey-fresh, put_object, put_self, put_other, keys-put,
  }

  map_at-fresh :
      (fresh : A) (key : String) (to : List (String × A))
      → All (λ e. Precedes e.0 key) to
      → map_at fresh key to ≡ fresh
  unfolding map_at
  map_at-fresh fresh key [] h = refl
  map_at-fresh fresh key ((k, v) ∷ to) h = rw h.0.0 (map_at-fresh fresh key to h.1)

  map_put-last :
      (key : String) (v : A) (to : List (String × A))
      → All (λ e. Precedes e.0 key) to
      → map_put key v to ≡ to ++ (key, v) ∷ []
  unfolding map_put
  map_put-last key v [] h = refl
  map_put-last key v ((k, w) ∷ to) h =
      rw (h.0.1, map_put) (ap (◌∷◌ (k, w)) (map_put-last key v to h.1))

  -- These are the entries, each behind its JSON.
  abbrev pub StoresEntries :
      (Json → A → Outcome A) → A → List (String × Json) → List (String × A) → Type 0
  StoresEntries get fresh [] [] = Unit {0}
  StoresEntries get fresh [] (e ∷ entries) = ⊥
  StoresEntries get fresh (item ∷ js) [] = ⊥
  StoresEntries get fresh ((k, json) ∷ js) ((k', x) ∷ entries) =
      (k ≡ k') × (get json fresh ≡ ok x) × StoresEntries get fresh js entries

  -- The entries are new in the object, and come after its keys.
  abbrev pub AreNew : Json → List (String × A) → Type 0
  AreNew json entries =
      All
        (λ e. (subkey_exists json e.0 ≡ false) × All (λ item. Precedes item.0 e.0) (get_keys json))
        entries

  AreNew-put :
      (json : Json) (key : String) (sub : Json) (entries : List (String × A))
      → is_object json ≡ true
      → All (λ item. Precedes item.0 key) (get_keys json)
      → All (λ e. Precedes key e.0) entries
      → AreNew json entries
      → AreNew (put_subkey json key sub) entries
  AreNew-put json key sub [] o b p h = tt
  AreNew-put json key sub ((k, v) ∷ entries) o b p h = (
    (
      (put_other json key k sub o (Precedes-ne key k p.0)).0 ∙ h.0.0,
      rw (keys-put json key sub o b) (
          All-append (λ item. Precedes item.0 k) (get_keys json) ((key, sub) ∷ []) h.0.1 (p.0, tt)),
    ),
    AreNew-put json key sub entries o b p.1 h.1,
  )

  pub write_entries-Stores :
      (put : A → Json → Outcome Json) (get : Json → A → Outcome A) (fresh : A)
      (entries : List (String × A)) (json : Json)
      → All (λ e. (sub : Json) × (put e.1 null ≡ ok sub) × (get sub fresh ≡ ok e.1)) entries
      → is_object json ≡ true
      → Ascends entries
      → AreNew json entries
      → (json' : Json) × (js : List (String × Json)) × (write_entries traits put entries json
          ≡ ok json')
        × (get_keys json' ≡ get_keys json ++ js)
        × StoresEntries get fresh js entries
        × Exist traits json' js
        × ((k : String) (u : Json)
            → All (λ e. k ≢ e.0) entries
            → get_existing_subkey json k ≡ ok u
            → get_existing_subkey json' k ≡ ok u)
        × ((entries ≢ []) ⊎ (is_null json ≡ false) → is_null json' ≡ false)
  unfolding write_entries
  write_entries-Stores put get fresh [] json h o a n =
      (json, [], refl, sym (append-nil (get_keys json)), tt, tt, λ k u f e. e, empty)
    where
      empty : (◌≢◌ {A = List (String × A)} [] []) ⊎ (is_null json ≡ false) → is_null json ≡ false
      empty (inl ne) = absurd (ne refl)
      empty (inr e) = e
  write_entries-Stores put get fresh ((key, x) ∷ entries) json h o a n =
      let (sub, written, back) = h.0 in
      let (json', js, rest, keys, st, ex, keeps, solid) =
        write_entries-Stores put get fresh entries (put_subkey json key sub) h.1
          (put_object json key sub o).0 a.1 (AreNew-put json key sub entries o n.0.1 a.0 n.1) in
      (
        json',
        (key, sub) ∷ js,
        rw (any_subkey-fresh json key o n.0.0, written) rest,
        keys
            ∙ ap (λ l. l ++ js) (keys-put json key sub o n.0.1)
            ∙ append_assoc (get_keys json) ((key, sub) ∷ []) js,
        (refl, back, st),
        (
          (
            sub,
            keeps key sub
                (All-imp (λ e. Precedes key e.0) (λ e. key ≢ e.0) (λ e. Precedes-ne key e.0) entries
                  a.0)
                (put_self json key sub o).1,
          ),
          ex,
        ),
        λ k u f e. keeps k u f.1 ((put_other json key k sub o (λ q. f.0 (sym q))).1 u e),
        λ e. solid (inr (put_object json key sub o).1),
      )

  pub read_entries-Stores :
      (get : Json → A → Outcome A) (fresh : A) (json : Json) (js : List (String × Json))
      (entries to : List (String × A))
      → StoresEntries get fresh js entries
      → Exist traits json js
      → Ascends entries
      → All (λ e. All (λ t. Precedes t.0 e.0) to) entries
      → read_entries traits fresh get json js to ≡ ok (to ++ entries)
  unfolding read_entries
  read_entries-Stores get fresh json [] [] to st ex a b = ap ok (sym (append-nil to))
  read_entries-Stores get fresh json [] (e ∷ entries) to st ex a b = absurd st
  read_entries-Stores get fresh json (item ∷ js) [] to st ex a b = absurd st
  read_entries-Stores get fresh json ((k, sub) ∷ js) ((key, x) ∷ entries) to st ex a b =
      rw (ex.0.1, st.0, map_at-fresh fresh key to b.0, st.1, map_put-last key x to b.0)
        (read_entries-Stores get fresh json js entries (to ++ (key, x) ∷ []) st.2 ex.1 a.1
            (behind entries a.0 b.1)
          ∙ ap ok (append_assoc to ((key, x) ∷ []) entries))
    where
      behind :
          (es : List (String × A))
          → All (λ e. Precedes key e.0) es
          → All (λ e. All (λ t. Precedes t.0 e.0) to) es
          → All (λ e. All (λ t. Precedes t.0 e.0) (to ++ (key, x) ∷ [])) es
      behind [] p h = tt
      behind (e ∷ es) p h =
          (All-append (λ t. Precedes t.0 e.0) to ((key, x) ∷ []) h.0 (p.0, tt), behind es p.1 h.1)
