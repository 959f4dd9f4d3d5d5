-- ===== src/Gspp/DualConnection/LifeCycle/Runs.antt =====
-- A connection that is used from two sides, at concrete inputs.
use re_bacs_env.Prelude.{
  ℕ, suc, ◌≤◌, ◌≡◌, ◌⊎◌, refl, true, false, none, some, List, [], ◌∷◌, ok, length,
}
use re_bacs_env.Gspp.StreamClient
use re_bacs_env.Gspp.StreamClient.{SharedStateBlock, send}
use re_bacs_env.Gspp.PacketHandlers.{continue}
use re_bacs_env.Gspp.DualConnection.{
  DualConnection, call, handle_guarded, catch_exception, on_packet,
}
use re_bacs_env.Gspp.DualConnection.Disconnect.{Handler}
use re_bacs_env.Gspp.DualConnection.LifeCycle.{Life, rests, sending, receiving, AreKeeping}
use re_bacs_env.Gspp.DualConnection.LifeCycle.Marks.{Life-killed}

abbrev count_packet : Handler ℕ ℕ
count_packet c msg = (ok continue, record c { app = suc c.app })

abbrev killed_connection : DualConnection ℕ ℕ
killed_connection = record {
  id = 1;
  killed = true;
  stream = some StreamClient.initial;
  dg = none;
  app = 0;
}

abbrev one_sent : SharedStateBlock
one_sent = send (5 ∷ []) StreamClient.initial

abbrev last_packet : List (List ℕ)
last_packet = (7 ∷ []) ∷ []

-- The connection is marked. The program sends a message, and then a packet comes in.
one_more :
    Life count_packet none none none killed_connection true last_packet
      (record killed_connection { stream = some one_sent; app = 1 })
      false
unfolding on_packet handle_guarded catch_exception call
one_more = sending (5 ∷ []) StreamClient.initial refl (receiving (7 ∷ []) rests)

killed-AreKeeping : AreKeeping count_packet none none none (λ d. d.killed ≡ true)
unfolding call
killed-AreKeeping = record {
  by_handle = λ c msg h. h;
  by_on_handle = λ c r h. h;
  by_exception = λ c what h. h;
  by_death = λ c ec h. h;
}

Life-killed_example :
    (length last_packet ≤ 1) × ((last_packet ≡ []) ⊎ (false ≡ false)) × (true ≡ true)
Life-killed_example = Life-killed count_packet none none none killed-AreKeeping one_more refl
