-- ===== src/Gspp/Componentable/Types.antt =====
-- Componentable: GetCurrentComponentTypes.
use mathlib.Core.Logic.Or
use mathlib.Core.Logic.{if_pos, if_neg}
use mathlib.Core.List.{
  Mem, Memᴰ, Nodup, Nodup-nil, Nodup-cons, not-mem-nil, mem-cons_of_mem, eq-or-mem_of_mem-cons,
}
use re_bacs_env.Prelude.{◌≡◌, ◌↔◌, ◌∙◌, sym, ap, true, some, List, [], ◌∷◌}
use re_bacs_env.Gspp.Componentable.{Components, is_some, find, get_current_component_types}
use re_bacs_env.Gspp.Componentable.History.{Call, run, latest, IsDistinct, run-IsDistinct, find-run}

module _ {K V : Type 0} (same : Discrete K) where
  mem-find :
      (type : K) (m : Components K V)
      → Mem type (get_current_component_types m) ↔ (is_some (find same type m) ≡ true)
  unfolding get_current_component_types find
  mem-find type [] = (λ h. absurd (not-mem-nil h), λ h. cc)
  mem-find type ((t, p) ∷ m) = elim (same t type) [
    | yes e ↦ (λ h. ap is_some (if_pos (same t type) e _ _), λ h. ∣ Memᴰ.head (sym e) ∣₁)
    | no n ↦
        let skip = if_neg (same t type) n (some p) (find same type m) in
        (
          λ h.
              ap is_some skip
              ∙ Or.elim (hlevel) (eq-or-mem_of_mem-cons h) (λ e. absurd (n (sym e)))
                  (λ later. (mem-find type m).0 later),
          λ h. mem-cons_of_mem t ((mem-find type m).1 (sym (ap is_some skip) ∙ h)),
        )
  ]

  IsDistinct-Nodup :
      (m : Components K V) → IsDistinct same m → Nodup (get_current_component_types m)
  unfolding get_current_component_types
  IsDistinct-Nodup [] d = Nodup-nil
  IsDistinct-Nodup ((t, p) ∷ m) d =
      Nodup-cons.1
        (λ h. let there = (mem-find t m).0 h in cc (ap is_some d.0), IsDistinct-Nodup m d.1)

  -- After any calls `GetCurrentComponentTypes` lists exactly the types whose latest call made a
  -- component, a null one too, and each once. Their order is left open.
  pub types-latest :
      (calls : List (Call K V))
      → ((type : K)
          → Mem type (get_current_component_types (run same calls))
            ↔ (is_some (latest same type calls) ≡ true))
        × Nodup (get_current_component_types (run same calls))
  types-latest calls = (
    λ type.
        let found = ap is_some (find-run same type calls) in
        let (listed, lists) = mem-find type (run same calls) in
        (λ h. sym found ∙ listed h, λ h. lists (found ∙ h)),
    IsDistinct-Nodup (run same calls) (run-IsDistinct same calls),
  )
