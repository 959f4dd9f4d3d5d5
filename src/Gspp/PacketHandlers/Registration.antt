-- ===== src/Gspp/PacketHandlers/Registration.antt =====
-- HandlerManager behind the constructors of all HandlerRegistrators.
use mathlib.Core.List.Permᴰ.{Permᴰ, nil, cons, swap, trans}
use mathlib.Core.Logic.{if_pos, if_neg, ite}
use re_bacs_env.Prelude.{
  ◌≡◌, ◌≢◌, ◌∙◌, refl, sym, ap, subst, Option, none, some, List, [], ◌∷◌, Option-cases, inl, inr,
}
use re_bacs_env.Gspp.PacketHandlers.{
  Packets, HandlerImpl, HandlerManager, find, register_handler, run_registrators,
}
use re_bacs_env.Gspp.PacketHandlers.Dispatch.{or_else, find-register_handler}

-- The first one, if there is one.
abbrev pub first {ℓ} : {A : Type ℓ} → Option A → Option A → Option A
first none o = o
first (some a) o = some a

module _ (packets : Packets) where
  open packets use {IdType, id_discrete}

  abbrev pub Registrators : Type 0
  Registrators = List (IdType × HandlerImpl packets)

  -- No registrator has the id.
  abbrev pub IsFree : IdType → Registrators → Type 0
  IsFree type [] = Unit {0}
  IsFree type (r ∷ rs) = (r.0 ≢ type) × IsFree type rs

  -- No two registrators have the same id.
  abbrev pub AreDistinct : Registrators → Type 0
  AreDistinct [] = Unit {0}
  AreDistinct (r ∷ rs) = IsFree r.0 rs × AreDistinct rs

  IsFree-perm :
      (type : IdType) {rs rs' : Registrators} → Permᴰ rs rs' → IsFree type rs → IsFree type rs'
  IsFree-perm type nil h = tt
  IsFree-perm type (cons e d) h = (λ q. h.0 (ap (λ r. r.0) e ∙ q), IsFree-perm type d h.1)
  IsFree-perm type (swap e e') h =
      (λ q. h.1.0 (ap (λ r. r.0) e' ∙ q), (λ q. h.0 (ap (λ r. r.0) e ∙ q), h.1.1))
  IsFree-perm type (trans d d') h = IsFree-perm type d' (IsFree-perm type d h)

  AreDistinct-perm : {rs rs' : Registrators} → Permᴰ rs rs' → AreDistinct rs → AreDistinct rs'
  AreDistinct-perm nil h = tt
  AreDistinct-perm (cons {l₂ = l₂} e d) h = (
    subst (λ (r : IdType × HandlerImpl packets). IsFree r.0 l₂) e (IsFree-perm _ d h.0),
    AreDistinct-perm d h.1,
  )
  AreDistinct-perm (swap {l = l} e e') h = (
    (
      λ q. h.0.0 (ap (λ r. r.0) e' ∙ sym q ∙ sym (ap (λ r. r.0) e)),
      subst (λ (r : IdType × HandlerImpl packets). IsFree r.0 l) e' h.1.0,
    ),
    (subst (λ (r : IdType × HandlerImpl packets). IsFree r.0 l) e h.0.1, h.1.1),
  )
  AreDistinct-perm (trans d d') h = AreDistinct-perm d' (AreDistinct-perm d h)

  find-swap :
      (type : IdType) (a b : IdType × HandlerImpl packets) (l : Registrators)
      → b.0 ≢ a.0
      → find packets type (a ∷ b ∷ l) ≡ find packets type (b ∷ a ∷ l)
  unfolding find
  find-swap type a b l ne = elim (id_discrete a.0 type) [
    | yes e ↦
        if_pos (id_discrete a.0 type) e _ _
        ∙ sym (
            if_neg (id_discrete b.0 type) (λ q. ne (q ∙ sym e)) _ _
            ∙ if_pos (id_discrete a.0 type) e _ _)
    | no n ↦
        if_neg (id_discrete a.0 type) n _ _
        ∙ ap (λ rest. ite (id_discrete b.0 type) (some b.1) rest)
            (sym (if_neg (id_discrete a.0 type) n _ _))
  ]

  find-perm :
      (type : IdType) {rs rs' : Registrators}
      → Permᴰ rs rs'
      → AreDistinct rs
      → find packets type rs ≡ find packets type rs'
  unfolding find
  find-perm type nil h = refl
  find-perm type (cons {a = a} {l₂ = l₂} e d) h =
      ap (λ rest. ite (id_discrete a.0 type) (some a.1) rest) (find-perm type d h.1)
      ∙ ap (λ r. find packets type (r ∷ l₂)) e
  find-perm type (swap {a = a} {b = b} {b' = b'} {l = l} e e') h =
      find-swap type a b l h.0.0
      ∙ ap (λ r. find packets type (b ∷ r ∷ l)) e
      ∙ ap (λ r. find packets type (r ∷ b' ∷ l)) e'
  find-perm type (trans d d') h = find-perm type d h ∙ find-perm type d' (AreDistinct-perm d h)

  first-or_else :
      (o : Option (HandlerImpl packets)) (h : HandlerImpl packets)
      (rest : Option (HandlerImpl packets))
      → first (some (or_else o h)) rest ≡ first o (some h)
  first-or_else none h rest = refl
  first-or_else (some a) h rest = refl

  find-run_registrators :
      (type : IdType) (rs : Registrators) (handlers : HandlerManager packets)
      → find packets type (run_registrators packets rs handlers)
        ≡ first (find packets type handlers) (find packets type rs)
  unfolding run_registrators find
  find-run_registrators type [] handlers = elim (Option-cases (find packets type handlers)) [
    | inl e ↦ rw e
    | inr (h, e) ↦ rw e
  ]
  find-run_registrators type ((id, h) ∷ rs) handlers =
      let later = find-run_registrators type rs (register_handler packets id h handlers) in
      elim (id_discrete id type) [
        | yes e ↦
            later
            ∙ ap (λ o. first o (find packets type rs))
                (subst
                  (λ t.
                    find packets t (register_handler packets id h handlers)
                    ≡ some (or_else (find packets t handlers) h))
                  e (find-register_handler packets id id h handlers).0)
            ∙ first-or_else (find packets type handlers) h (find packets type rs)
            ∙ sym (ap (first (find packets type handlers)) (if_pos (id_discrete id type) e _ _))
        | no n ↦
            later
            ∙ ap (λ o. first o (find packets type rs))
                ((find-register_handler packets id type h handlers).1 (λ q. n (sym q)))
            ∙ sym (ap (first (find packets type handlers)) (if_neg (id_discrete id type) n _ _))
      ]

  -- Behind any registrators an id has the handler that it had before, or else that of the first of
  -- them with the id. If no two of them have the same id, the order in which they run makes no
  -- difference for any id.
  pub find-registrators :
      (type : IdType) (rs rs' : Registrators) (handlers : HandlerManager packets)
      → Permᴰ rs rs'
      → AreDistinct rs
      → (find packets type (run_registrators packets rs handlers)
          ≡ first (find packets type handlers) (find packets type rs))
        × (find packets type (run_registrators packets rs' handlers)
            ≡ find packets type (run_registrators packets rs handlers))
  find-registrators type rs rs' handlers d h =
      let first_wins = find-run_registrators type rs handlers in
      (
        first_wins,
        find-run_registrators type rs' handlers
            ∙ ap (first (find packets type handlers)) (sym (find-perm type d h))
            ∙ sym first_wins,
      )
