-- ===== src/Bpjson/RoundTrip/Containers.antt =====
-- bpjson's container walker: the elements that are written come back, in their order.
use re_bacs_env.Prelude.{
  ℕ, ◌≡◌, ◌≢◌, ◌∙◌, ◌+◌, ◌⊎◌, inl, inr, refl, sym, ap, arith, true, false, List, [], ◌∷◌, ◌++◌,
  Outcome, ok, length, All, append_assoc, append-nil, length-append,
}
use re_bacs_env.Plakpacs.Appenders.{append}
use re_bacs_env.Plakpacs.Appenders.Laws.{append_fixed-next}
use re_bacs_env.Bpjson.Traits.{JsonTraits}
use re_bacs_env.Bpjson.{read_items, read_fixed, write_items}

module _ (traits : JsonTraits) {A : Type 0} where
  open traits use {Json, is_array, is_null, items, add_array_element, add_element}

  -- The element is written, and reading what was written gives it back.
  abbrev pub ComesBack : (A → Outcome Json) → (Json → Outcome A) → A → Type 0
  ComesBack put get x = (json : Json) × (put x ≡ ok json) × (get json ≡ ok x)

  -- These are the elements, each behind its JSON.
  abbrev pub Stores : (Json → Outcome A) → List Json → List A → Type 0
  Stores get [] [] = Unit {0}
  Stores get [] (x ∷ xs) = ⊥
  Stores get (json ∷ js) [] = ⊥
  Stores get (json ∷ js) (x ∷ xs) = (get json ≡ ok x) × Stores get js xs

  pub write_items-Stores :
      (put : A → Outcome Json) (get : Json → Outcome A) (xs : List A) (json : Json)
      → All (ComesBack put get) xs
      → is_array json ≡ true
      → (json' : Json) × (js : List Json) × (write_items traits put xs json ≡ ok json')
        × (items json' ≡ items json ++ js)
        × Stores get js xs
        × ((xs ≢ []) ⊎ (is_null json ≡ false) → is_null json' ≡ false)
  unfolding write_items
  write_items-Stores put get [] json h a =
      (json, [], refl, sym (append-nil (items json)), tt, empty)
    where
      empty : (◌≢◌ {A = List A} [] []) ⊎ (is_null json ≡ false) → is_null json ≡ false
      empty (inl ne) = absurd (ne refl)
      empty (inr e) = e
  write_items-Stores put get (x ∷ xs) json h a =
      let (element, written, back) = h.0 in
      let (json₁, added, a₁, n₁, i₁) = add_element json element a in
      let (json₂, js, rest, i₂, st, n₂) = write_items-Stores put get xs json₁ h.1 a₁ in
      (
        json₂,
        element ∷ js,
        rw (written, added) rest,
        i₂ ∙ ap (λ l. l ++ js) i₁ ∙ append_assoc (items json) (element ∷ []) js,
        (back, st),
        λ e. n₂ (inr n₁),
      )

  pub read_items-Stores :
      (get : Json → Outcome A) (js : List Json) (xs acc : List A)
      → Stores get js xs
      → read_items traits get js acc ≡ ok (acc ++ xs)
  unfolding read_items append
  read_items-Stores get [] [] acc h = ap ok (sym (append-nil acc))
  read_items-Stores get [] (x ∷ xs) acc h = absurd h
  read_items-Stores get (json ∷ js) [] acc h = absurd h
  read_items-Stores get (json ∷ js) (x ∷ xs) acc h =
      rw h.0
        (read_items-Stores get js xs (acc ++ x ∷ []) h.1 ∙ ap ok (append_assoc acc (x ∷ []) xs))

  pub read_fixed-Stores :
      (n : ℕ) (get : Json → Outcome A) (js : List Json) (xs done olds : List A)
      → Stores get js xs
      → length done + length xs ≡ n
      → length olds ≡ length xs
      → read_fixed traits n get js (record { container = done ++ olds; index = length done })
        ≡ ok (done ++ xs)
  unfolding read_fixed
  read_fixed-Stores n get [] [] done [] h e o = refl
  read_fixed-Stores n get [] [] done (y ∷ olds) h e o = absurd (omega arith)
  read_fixed-Stores n get [] (x ∷ xs) done olds h e o = absurd h
  read_fixed-Stores n get (json ∷ js) [] done olds h e o = absurd h
  read_fixed-Stores n get (json ∷ js) (x ∷ xs) done [] h e o = absurd (omega arith)
  read_fixed-Stores n get (json ∷ js) (x ∷ xs) done (y ∷ olds) h e o =
      rw (h.0, append_fixed-next n done y x olds (omega arith))
        (read_fixed-Stores n get js xs (done ++ x ∷ []) olds h.1
            (omega (arith, length-append done (x ∷ []))) (omega arith)
          ∙ ap ok (append_assoc done (x ∷ []) xs))
