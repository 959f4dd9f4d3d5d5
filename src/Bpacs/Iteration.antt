-- ===== src/Bpacs/Iteration.antt =====
-- bpacs::iterate_fields and iterate_object visit the fields in the order of their indices.
use re_bacs_env.Prelude.{
  ℕ, zero, suc, ◌+◌, ◌≤◌, ◌<◌, ◌≡◌, refl, sym, ap, ◌∙◌, append_assoc, arith, some, List, [], ◌∷◌,
  ◌++◌, Outcome, ok, throws, fault, ill_formed, diverges, ◌>>=◌, length, length-append, set,
  set-append, get_elem?,
}
use mathlib.Core.Path.{fun_ext, subst}
use native.Mathlib.Nat.{zero-add, add-zero}
use re_bacs_env.Bpacs.{
  FieldMeta, Reflection, field_meta, index_bound, field_iterator, iterate, iterate_fields,
  get_field, iterate_object,
}

-- The fields numbered from 0 without a gap are `fields`, in whatever order they are defined.
abbrev pub Reflects {ℓ} : {T : Type ℓ} → Reflection T → List (FieldMeta T) → Type ℓ
Reflects metas fields = (i : ℕ) → field_meta metas i ≡ get_elem? fields i

-- `f` at each field of a list.
abbrev pub visit {ℓ κ} :
    {T : Type ℓ} {S : Type κ} → (FieldMeta T → S → Outcome S) → List (FieldMeta T) → S → Outcome S
visit f [] s = ok s
visit f (m ∷ fields) s = do s' ← f m s; visit f fields s'

module _ {ℓ} {T : Type ℓ} where
  field_meta-lt :
      (metas : Reflection T) (i : ℕ) (m : FieldMeta T)
      → field_meta metas i ≡ some m
      → i < index_bound metas
  unfolding field_meta index_bound
  field_meta-lt [] i m h = cc
  field_meta-lt (x ∷ metas) i m h = ground (arith, field_meta-lt metas i m)

  field_meta-index :
      (metas : Reflection T) (i : ℕ) (m : FieldMeta T) → field_meta metas i ≡ some m → m.index ≡ i
  unfolding field_meta
  field_meta-index [] i m h = cc
  field_meta-index (x ∷ metas) i m h = ground (arith, field_meta-index metas i m)

  shifted :
      (metas : Reflection T) (n : ℕ) (m : FieldMeta T) (fields : List (FieldMeta T))
      → ((i : ℕ) → field_meta metas (i + n) ≡ get_elem? (m ∷ fields) i)
      → (i : ℕ) → field_meta metas (i + suc n) ≡ get_elem? fields i
  shifted metas n m fields h i =
      subst (λ k. field_meta metas k ≡ get_elem? fields i) (omega arith) (h (suc i))

  iterate-visit {κ} :
      {S : Type κ} (metas : Reflection T) (f : FieldMeta T → S → Outcome S) (fuel n : ℕ)
      (fields : List (FieldMeta T))
      → ((i : ℕ) → field_meta metas (i + n) ≡ get_elem? fields i)
      → length fields < fuel
      → (s : S) → iterate fuel metas n f s ≡ visit f fields s
  unfolding iterate field_iterator
  iterate-visit metas f zero n fields h l s = absurd (omega arith)
  iterate-visit metas f (suc fuel) n [] h l s = rw (rw zero-add at (h 0))
  iterate-visit metas f (suc fuel) n (m ∷ fields) h l s = rw (rw zero-add at (h 0)) (
      ap (λ k. f m s >>= k)
        (fun_ext
          (iterate-visit metas f fuel (suc n) fields (shifted metas n m fields h) (omega arith))))

  length-le-bound :
      (metas : Reflection T) (fields : List (FieldMeta T)) (n : ℕ)
      → ((i : ℕ) → field_meta metas (i + n) ≡ get_elem? fields i)
      → n ≤ index_bound metas
      → length fields + n ≤ index_bound metas
  length-le-bound metas [] n h b = omega arith
  length-le-bound metas (m ∷ fields) n h b = omega (
    arith,
    field_meta-lt metas n m (rw zero-add at (h 0)),
    length-le-bound metas fields (suc n) (shifted metas n m fields h)
        (field_meta-lt metas n m (rw zero-add at (h 0))),
  )

  -- `iterate_fields` ends, and calls `f` once on each field from index 0 on, in the order of the
  -- indices and not of the definitions; a field behind a gap in the indices is not visited.
  pub iterate_fields-visit {κ} :
      {S : Type κ} (metas : Reflection T) (f : FieldMeta T → S → Outcome S)
      (fields : List (FieldMeta T))
      → Reflects metas fields
      → (s : S) → iterate_fields metas f s ≡ visit f fields s
  unfolding iterate_fields
  iterate_fields-visit metas f fields h s =
      iterate-visit metas f (suc (index_bound metas)) 0 fields (λ i. rw add-zero (h i))
        (omega (arith, length-le-bound metas fields 0 (λ i. rw add-zero (h i)) (omega arith))) s

-- One object and its members: `f` at each, with its new value put back.
abbrev pub update_each {ℓ κ μ} :
    {T : Type ℓ} {V : Type κ} {S : Type μ}
    → (FieldMeta T → V → S → Outcome (V × S))
    → List (FieldMeta T)
    → List V
    → S
    → Outcome (List V × S)
update_each f [] vs s = ok (vs, s)
update_each f (m ∷ fields) [] s = ill_formed
update_each f (m ∷ fields) (v ∷ vs) s = do
  (v', s') ← f m v s
  (vs', s'') ← update_each f fields vs s'
  ok (v' ∷ vs', s'')

module _ {ℓ κ μ} {T : Type ℓ} {V : Type κ} {S : Type μ}
    (f : FieldMeta T → V → S → Outcome (V × S)) where
  -- What `iterate_object` does with one field.
  abbrev member : FieldMeta T → List V × S → Outcome (List V × S)
  member m (object, s) = do
    v ← get_field object m.index
    (v', s') ← f m v s
    ok (set object m.index v', s')

  abbrev in_front : List V → List V × S → Outcome (List V × S)
  in_front done (vs, s) = ok (done ++ vs, s)

  get_field-append :
      (done : List V) (v : V) (vs : List V) → get_field (done ++ (v ∷ vs)) (length done) ≡ ok v
  unfolding get_field
  get_field-append [] v vs = refl
  get_field-append (d ∷ done) v vs = get_field-append done v vs

  return_all : (r : Outcome (List V × S)) → (r >>= in_front []) ≡ r
  return_all (ok (vs, s)) = refl
  return_all (throws e) = refl
  return_all fault = refl
  return_all diverges = refl
  return_all ill_formed = refl

  member-set :
      (m : FieldMeta T) (done : List V) (v : V) (vs : List V) (s : S)
      → m.index ≡ length done
      → member m (done ++ (v ∷ vs), s) ≡ (f m v s >>= λ (v', s'). in_front done (v' ∷ vs, s'))
  member-set m done v vs s e =
      subst
        (λ i.
          (get_field (done ++ (v ∷ vs)) i >>= λ w.
          f m w s >>= λ (v', s'). in_front [] (set (done ++ (v ∷ vs)) i v', s'))
          ≡ (f m v s >>= λ (v', s'). in_front done (v' ∷ vs, s')))
        (sym e) (simp (get_field-append done v vs, set-append))

  -- The members behind one that is done.
  regroup :
      (done : List V) (v : V) (r : Outcome (List V × S))
      → (r >>= in_front (done ++ v ∷ [])) ≡ (r >>= in_front (v ∷ []) >>= in_front done)
  regroup done v (ok (vs, s)) = rw (append_assoc done (v ∷ []) vs)
  regroup done v (throws e) = refl
  regroup done v fault = refl
  regroup done v diverges = refl
  regroup done v ill_formed = refl

  next_member :
      (fields : List (FieldMeta T)) (done vs : List V) (r : Outcome (V × S))
      → ((v : V) (s : S)
          → visit member fields ((done ++ v ∷ []) ++ vs, s)
            ≡ (update_each f fields vs s >>= in_front (done ++ v ∷ [])))
      → (r >>= (λ (v, s). in_front done (v ∷ vs, s)) >>= visit member fields)
        ≡ (r >>= (λ (v, s). update_each f fields vs s >>= in_front (v ∷ [])) >>= in_front done)
  next_member fields done vs (ok (v, s)) h =
      rw (← append_assoc done (v ∷ []) vs) (h v s ∙ regroup done v (update_each f fields vs s))
  next_member fields done vs (throws e) h = refl
  next_member fields done vs fault h = refl
  next_member fields done vs diverges h = refl
  next_member fields done vs ill_formed h = refl

  visit-update_each :
      (metas : Reflection T) (n : ℕ) (fields : List (FieldMeta T)) (done vs : List V) (s : S)
      → ((i : ℕ) → field_meta metas (i + n) ≡ get_elem? fields i)
      → length done ≡ n
      → length fields ≡ length vs
      → visit member fields (done ++ vs, s) ≡ (update_each f fields vs s >>= in_front done)
  visit-update_each metas n [] done [] s h d e = refl
  visit-update_each metas n [] done (v ∷ vs) s h d e = absurd (omega arith)
  visit-update_each metas n (m ∷ fields) done [] s h d e = absurd (omega arith)
  visit-update_each metas n (m ∷ fields) done (v ∷ vs) s h d e =
      rw (member-set m done v vs s (field_meta-index metas n m (rw zero-add at (h 0)) ∙ sym d)) (
        next_member fields done vs (f m v s) (λ v' s'.
          visit-update_each metas (suc n) fields (done ++ v' ∷ []) vs s'
            (shifted metas n m fields h) (omega (arith, length-append done (v' ∷ [])))
            (omega arith)))

  -- `iterate_object` calls `f` once on each member, in the order of the indices, and leaves in each
  -- the value that `f` put there; the first call that throws ends it.
  pub iterate_object-update_each :
      (metas : Reflection T) (fields : List (FieldMeta T)) (object : List V) (s : S)
      → Reflects metas fields
      → length fields ≡ length object
      → iterate_object metas f (object, s) ≡ update_each f fields object s
  unfolding iterate_object
  iterate_object-update_each metas fields object s h e =
      iterate_fields-visit metas member fields h (object, s)
      ∙ visit-update_each metas 0 fields [] object s (λ i. rw add-zero (h i)) refl e
      ∙ return_all (update_each f fields object s)
