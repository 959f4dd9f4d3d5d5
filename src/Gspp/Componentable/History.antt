-- ===== src/Gspp/Componentable/History.antt =====
-- Componentable after any history of calls.
use mathlib.Core.Logic.{ite}
use re_bacs_env.Prelude.{
  ◌≡◌, ◌↔◌, ◌∙◌, refl, sym, ap, arith, true, false, Option, none, some, List, [], ◌∷◌, String, ok,
  fault,
}
use re_bacs_env.Gspp.Componentable.{
  Components, or_null, or_throw, is_some, ComponentRef, deref, find, create_component,
  get_component, get_existing_component, has_component, destroy_component,
}

pub data Call (K V : Type 0) : Type 0 where
  create : K → Option V → Call K V
  destroy : K → Call K V

or_throw-ok {ℓ} :
    {A : Type ℓ} (name : String) (o : Option A) (v : A) → (or_throw name o ≡ ok v) ↔ (o ≡ some v)
or_throw-ok name none v = (λ h. cc, λ h. cc)
or_throw-ok name (some w) v = (λ h. cc, λ h. cc)

module _ {K V : Type 0} (same : Discrete K) where
  unfoldable pub perform : Call K V → Components K V → Components K V
  unfolding create_component destroy_component
  perform (create type p) m = create_component same type p m
  perform (destroy type) m = (destroy_component same type m).0

  -- The latest call first.
  abbrev pub run : List (Call K V) → Components K V
  run [] = []
  run (c ∷ calls) = perform c (run calls)

  -- What the calls say of one type: the latest one about it decides.
  abbrev pub latest : K → List (Call K V) → Option (Option V)
  latest type [] = none
  latest type (create t p ∷ calls) = ite (same t type) (some p) (latest type calls)
  latest type (destroy t ∷ calls) = ite (same t type) none (latest type calls)

  -- No type occurs twice.
  abbrev pub IsDistinct : Components K V → Type 0
  IsDistinct [] = Unit {0}
  IsDistinct ((t, p) ∷ m) = (find same t m ≡ none) × IsDistinct m

  find-create :
      (type other : K) (p : Option V) (m : Components K V)
      → find same other (create_component same type p m)
        ≡ ite (same type other) (some p) (find same other m)
  unfolding find create_component
  find-create type other p [] = refl
  find-create type other p ((t, q) ∷ m) = ground (arith, find-create type other p m)

  find-destroy :
      (type other : K) (m : Components K V)
      → IsDistinct m
      → find same other (destroy_component same type m).0
        ≡ ite (same type other) none (find same other m)
  unfolding find destroy_component
  find-destroy type other [] d = ground arith
  find-destroy type other ((t, q) ∷ m) d = ground (arith, find-destroy type other m d.1)

  create-IsDistinct :
      (type : K) (p : Option V) (m : Components K V)
      → IsDistinct m
      → IsDistinct (create_component same type p m)
  unfolding create_component find
  create-IsDistinct type p [] d = (refl, tt)
  create-IsDistinct type p ((t, q) ∷ m) d =
      ground (arith, find-create type t p m, create-IsDistinct type p m d.1)

  destroy-IsDistinct :
      (type : K) (m : Components K V) → IsDistinct m → IsDistinct (destroy_component same type m).0
  unfolding destroy_component
  destroy-IsDistinct type [] d = tt
  destroy-IsDistinct type ((t, q) ∷ m) d =
      ground (arith, find-destroy type t m d.1, destroy-IsDistinct type m d.1)

  pub run-IsDistinct : (calls : List (Call K V)) → IsDistinct (run calls)
  unfolding perform
  run-IsDistinct [] = tt
  run-IsDistinct (create type p ∷ calls) =
      create-IsDistinct type p (run calls) (run-IsDistinct calls)
  run-IsDistinct (destroy type ∷ calls) = destroy-IsDistinct type (run calls) (run-IsDistinct calls)

  -- The map refines the history: after any calls the component of a type is the one that the latest
  -- call about that type gave it, and there is none if that call destroyed it or there was none.
  pub find-run :
      (type : K) (calls : List (Call K V)) → find same type (run calls) ≡ latest type calls
  unfolding perform find
  find-run type [] = refl
  find-run type (create t p ∷ calls) =
      find-create t type p (run calls)
      ∙ ap (λ r. ite (same t type) (some p) r) (find-run type calls)
  find-run type (destroy t ∷ calls) =
      find-destroy t type (run calls) (run-IsDistinct calls)
      ∙ ap (λ r. ite (same t type) none r) (find-run type calls)

  destroy-found :
      (type : K) (m : Components K V)
      → (destroy_component same type m).1 ≡ is_some (find same type m)
  unfolding destroy_component find
  destroy-found type [] = refl
  destroy-found type ((t, q) ∷ m) = ground (arith, destroy-found type m)

  has-get :
      (type : K) (m : Components K V)
      → has_component same type m ≡ is_some (get_component same type m)
  unfolding has_component get_component
  has-get type m = has (find same type m)
    where
      has :
          (o : Option (Option V))
          → (elim o [ none ↦ false | some p ↦ is_some p ]) ≡ is_some (or_null o)
      has none = refl
      has (some p) = refl

  existing-get :
      (name : K → String) (type : K) (m : Components K V) (v : V)
      → (get_existing_component same name type m ≡ ok v) ↔ (get_component same type m ≡ some v)
  unfolding get_existing_component
  existing-get name type m v = or_throw-ok (name type) (get_component same type m) v

  deref-is_some :
      (ref : ComponentRef V)
      → (is_some ref ≡ true → (v : V) × (deref ref ≡ ok v))
        × (is_some ref ≡ false → deref ref ≡ fault)
  unfolding deref
  deref-is_some none = (λ h. cc, λ h. refl)
  deref-is_some (some v) = (λ h. (v, refl), λ h. cc)

  -- After any calls the four queries of a type answer by the latest call about it. `GetComponent`
  -- gives the object of that call, `HasComponent` says whether there is one, and
  -- `GetExistingComponent` returns it and nothing else; a null pointer counts as no object there,
  -- but `DestroyComponent` says that it was found. The reference that `GetComponent` gives can be
  -- dereferenced exactly if `HasComponent` is true.
  pub queries-latest :
      (name : K → String) (type : K) (calls : List (Call K V))
      → (get_component same type (run calls) ≡ or_null (latest type calls))
        × (has_component same type (run calls) ≡ is_some (or_null (latest type calls)))
        × ((v : V)
            → (get_existing_component same name type (run calls) ≡ ok v)
              ↔ (or_null (latest type calls) ≡ some v))
        × ((destroy_component same type (run calls)).1 ≡ is_some (latest type calls))
        × (has_component same type (run calls) ≡ true
            → (v : V) × (deref (get_component same type (run calls)) ≡ ok v))
        × (has_component same type (run calls) ≡ false
            → deref (get_component same type (run calls)) ≡ fault)
  unfolding get_component
  queries-latest name type calls =
      let found = find-run type calls in
      (
        ap or_null found,
        has-get type (run calls) ∙ ap (λ o. is_some (or_null o)) found,
        λ v. rw (ap or_null found) at (existing-get name type (run calls) v),
        destroy-found type (run calls) ∙ ap is_some found,
        λ h.
            (deref-is_some (get_component same type (run calls))).0
              (sym (has-get type (run calls)) ∙ h),
        λ h.
            (deref-is_some (get_component same type (run calls))).1
              (sym (has-get type (run calls)) ∙ h),
      )
