-- ===== src/Bacs/Loops.antt =====
-- bacs::async_read_sp_loop and bacs::async_accept_loop.
use re_bacs_env.Prelude.{
  ℕ, zero, suc, ◌+◌, ◌^◌, ◌<◌, ◌≡◌, ◌∙◌, ◌⊎◌, inl, inr, refl, ap, arith, Bool, true, false, List,
  [], ◌∷◌, ◌++◌, append_assoc, Outcome, ok, Bool-cases, length, length-append,
}
use mathlib.Core.List.{foldl}
use native.Mathlib.Nat.{zero-add}
use re_bacs_env.Plakpacs.Platform.{Platform}
use re_bacs_env.Bacs.Asio.{ErrorCode, Socket, success, failed}
use re_bacs_env.Bacs.{
  SpTraits, sp_default, async_read_sp, read_body, async_read_sp_loop, go_on, async_accept_loop,
  shared_buffer,
}
use re_bacs_env.Bacs.Framing.{AreInverse, frame, async_read_sp-frame, ErrorCode-cases}

abbrev pub frames : Platform → SpTraits → List (List ℕ) → List ℕ
frames p traits [] = []
frames p traits (msg ∷ msgs) = frame p traits msg ++ frames p traits msgs

module _ {ℓ} {S : Type ℓ} (handler : S → ErrorCode → ℕ → List ℕ → S × Bool) where
  -- The handler, called with each message and no error.
  abbrev pub deliver : S → List (List ℕ) → S
  deliver st [] = st
  deliver st (msg ∷ msgs) = deliver (handler st success (length msg) msg).0 msgs

  -- Each message fits the size type and the handler asks for more behind it.
  abbrev pub ReadsOn : SpTraits → S → List (List ℕ) → Type 0
  ReadsOn traits st [] = Unit {0}
  ReadsOn traits st (msg ∷ msgs) =
      (length msg < 256 ^ traits.size_bytes)
      × ((handler st success (length msg) msg).1 ≡ true)
      × ReadsOn traits (handler st success (length msg) msg).0 msgs

suc_add : (a b : ℕ) → suc a + b ≡ suc (a + b)
suc_add a b = omega arith

module _ (p : Platform) (traits : SpTraits) (socket : Socket) where
  open socket use {World, async_read, incoming}

  -- The loop hands over all messages whose frames have come in, in their order, and then reads on
  -- from the bytes behind them. Each message fits the size type, the handler asks for more behind each,
  -- and the hooks undo one another.
  pub async_read_sp_loop-frames {ℓ} :
      {S : Type ℓ} (handler : S → ErrorCode → ℕ → List ℕ → S × Bool) (msgs : List (List ℕ))
      (rest : List ℕ) (fuel : ℕ) (st : S) (w : World)
      → AreInverse traits
      → ReadsOn handler traits st msgs
      → incoming w ≡ frames p traits msgs ++ rest
      → (w' : World) × (async_read_sp_loop p traits socket (length msgs + fuel) handler st w
          ≡ async_read_sp_loop p traits socket fuel handler (deliver handler st msgs) w')
        × (incoming w' ≡ rest)
  unfolding async_read_sp_loop
  async_read_sp_loop-frames {S = S} handler [] rest fuel st w inv h e = (w, rw zero-add, e)
  async_read_sp_loop-frames {S = S} handler (msg ∷ msgs) rest fuel st w inv h e =
      let (w₁, first, more) =
        async_read_sp-frame p traits socket {A = (S × Bool) × World} msg
          (frames p traits msgs ++ rest) (λ ec count buffer w'. (handler st ec count buffer, w')) w
          inv h.0 (e ∙ append_assoc (frame p traits msg) (frames p traits msgs) rest) in
      let (w₂, others, left) =
        async_read_sp_loop-frames handler msgs rest fuel (handler st success (length msg) msg).0 w₁
          inv h.2 more in
      (w₂, rw (suc_add (length msgs) fuel) (unfold go_on in rw (first, h.1) others), left)

  -- A message behind which the handler asks for no more is the last one that is read.
  pub async_read_sp_loop-last {ℓ} :
      {S : Type ℓ} (handler : S → ErrorCode → ℕ → List ℕ → S × Bool) (msg rest : List ℕ) (fuel : ℕ)
      (st : S) (w : World)
      → AreInverse traits
      → length msg < 256 ^ traits.size_bytes
      → (handler st success (length msg) msg).1 ≡ false
      → incoming w ≡ frame p traits msg ++ rest
      → (w' : World) × (async_read_sp_loop p traits socket (suc fuel) handler st w
          ≡ ok ((handler st success (length msg) msg).0, w'))
        × (incoming w' ≡ rest)
  unfolding async_read_sp_loop
  async_read_sp_loop-last {S = S} handler msg rest fuel st w inv fits stops e =
      let (w₁, first, more) =
        async_read_sp-frame p traits socket {A = (S × Bool) × World} msg rest
          (λ ec count buffer w'. (handler st ec count buffer, w')) w inv fits e in
      (w₁, unfold go_on in rw (first, stops), more)

module _ (p : Platform) (socket : Socket) where
  open socket use {World, async_read, incoming}

  -- A handler that stops at the first error.
  abbrev pub StopsOnError {ℓ} : {S : Type ℓ} → (S → ErrorCode → ℕ → List ℕ → S × Bool) → Type ℓ
  StopsOnError {S = S} handler =
      (st : S) (ec : ErrorCode) (count : ℕ) (buffer : List ℕ)
      → failed ec ≡ true
      → (handler st ec count buffer).1 ≡ false

  -- A read takes nothing, or what it takes came in before.
  read-le :
      (n : ℕ) (w : World)
      → ((async_read n w).0.0 ≡ success)
      → length (incoming (async_read n w).1) + n ≡ length (incoming w)
  read-le n w e =
      let (len, split) = socket.read_all n w e in
      omega
        (arith, ap length split, length-append (async_read n w).0.1 (incoming (async_read n w).1))

  -- One round returns, and either its handler has stopped or bytes have been taken.
  abbrev Rounds {ℓ} : {S : Type ℓ} → World → Outcome ((S × Bool) × World) → Type ℓ
  Rounds {S = S} w r =
      (q : (S × Bool) × World) × (r ≡ ok q)
      × ((q.0.1 ≡ false) ⊎ (length (incoming q.1) < length (incoming w)))

  round {ℓ} :
      {S : Type ℓ} (handler : S → ErrorCode → ℕ → List ℕ → S × Bool) (st : S) (w : World)
      → StopsOnError handler
      → Rounds w (
          async_read_sp p sp_default socket
            (λ ec count buffer w'. (handler st ec count buffer, w'))
            w)
  unfolding async_read_sp sp_default
  round {S = S} handler st w stops = elim (ErrorCode-cases (async_read 4 w).0.0) [
    | inr (bad, never) ↦ rw bad (_, refl, inl (stops st (async_read 4 w).0.0 _ [] bad))
    | inl good ↦ rw good (second (async_read 4 w).1 _ (read-le 4 w good))
  ]
    where
      second :
          (w₁ : World) (size : ℕ)
          → length (incoming w₁) + 4 ≡ length (incoming w)
          → Rounds w (
              read_body p sp_default socket success 4
                (ok size)
                (λ ec count buffer w'. (handler st ec count buffer, w'))
                w₁)
      second w₁ size h = (
        (
          (handler st (async_read size w₁).0.0 (length (async_read size w₁).0.1)
              (shared_buffer p size (async_read size w₁).0.1)),
          (async_read size w₁).1,
        ),
        refl,
        elim (ErrorCode-cases (async_read size w₁).0.0) [
          | inr (bad, never) ↦ inl (stops st (async_read size w₁).0.0 _ _ bad)
          | inl good ↦ inr (omega (arith, read-le size w₁ good))
        ],
      )

  -- With the default hooks, a handler that stops at errors, and more rounds of fuel than bytes that
  -- are coming in, the loop ends.
  pub async_read_sp_loop-ends {ℓ} :
      {S : Type ℓ} (handler : S → ErrorCode → ℕ → List ℕ → S × Bool) (fuel : ℕ) (st : S) (w : World)
      → StopsOnError handler
      → length (incoming w) < fuel
      → (r : S × World) × (async_read_sp_loop p sp_default socket fuel handler st w ≡ ok r)
  unfolding async_read_sp_loop sp_default
  async_read_sp_loop-ends handler zero st w stops h = absurd (omega arith)
  async_read_sp_loop-ends handler (suc fuel) st w stops h =
      let (((st', more), w'), e, next) = round handler st w stops in
      rw e (elim next [
        | inl stop ↦ unfold go_on in rw stop ((st', w'), refl)
        | inr shorter ↦ elim (Bool-cases more) [
          | inl goes ↦
              unfold go_on in
              rw goes (async_read_sp_loop-ends handler fuel st' w' stops (omega arith))
          | inr stop ↦ unfold go_on in rw stop ((st', w'), refl)
        ]
      ])

-- No failed completion among these.
abbrev pub IsOpenAt : List ErrorCode → Type 0
IsOpenAt [] = Unit {0}
IsOpenAt (ec ∷ ecs) = (failed ec ≡ false) × IsOpenAt ecs

-- With completions that have not failed, the handler runs at each and the loop still accepts. With a
-- failed one behind them, the handler runs at that too, and at none of those after it, and the loop
-- has stopped.
pub async_accept_loop-stops {ℓ} :
    {S : Type ℓ} (handler : S → ErrorCode → S) (st : S) (ecs later : List ErrorCode)
    (ec : ErrorCode)
    → IsOpenAt ecs
    → failed ec ≡ true
    → (async_accept_loop handler st ecs ≡ (foldl handler st ecs, true))
      × (async_accept_loop handler st (ecs ++ (ec ∷ later))
          ≡ (handler (foldl handler st ecs) ec, false))
unfolding async_accept_loop
async_accept_loop-stops handler st [] later ec o f = (refl, rw f)
async_accept_loop-stops handler st (x ∷ ecs) later ec o f =
    rw o.0 (async_accept_loop-stops handler (handler st x) ecs later ec o.1 f)
