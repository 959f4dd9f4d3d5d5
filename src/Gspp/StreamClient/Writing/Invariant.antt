-- ===== src/Gspp/StreamClient/Writing/Invariant.antt =====
-- What holds of a write queue, and that each operation keeps it.
use re_bacs_env.Prelude.{
  ℕ, suc, ◌≡◌, ◌∙◌, refl, sym, ap, arith, Bool, true, false, List, [], ◌∷◌, ◌++◌, append_assoc,
  append-nil, ok, All, All-append, subst, length, length-append, ◌==◌,
}
use re_bacs_env.Gspp.StreamClient.{SharedStateBlock, send, close_socket, after_pop, on_written}

abbrev pub busy : List (List ℕ) → ℕ
busy [] = 0
busy (front ∷ rest) = 1

abbrev pub behind : List (List ℕ) → List (List ℕ)
behind [] = []
behind (front ∷ rest) = rest

abbrev pub messages : List (List ℕ × Bool) → List (List ℕ)
messages [] = []
messages ((bytes, was_open) ∷ rest) = bytes ∷ messages rest

-- One write is under way if the queue holds a message, and none if not; the messages that were
-- submitted and those behind the front of the queue are the messages sent, in their order; while
-- the socket is open, each message was submitted to the open socket.
pub record Inv (sent : List (List ℕ)) (st : SharedStateBlock) : Type 0 where
  pub one_write : st.pending ≡ busy st.write_queue
  pub in_order : messages st.submitted ++ behind st.write_queue ≡ sent
  pub while_open : st.socket_open ≡ true → All (λ s. s.1 ≡ true) st.submitted

messages-append :
    (xs : List (List ℕ × Bool)) (bytes : List ℕ) (o : Bool)
    → messages (xs ++ (bytes, o) ∷ []) ≡ messages xs ++ bytes ∷ []
messages-append [] bytes o = refl
messages-append ((b, u) ∷ xs) bytes o = ap (◌∷◌ b) (messages-append xs bytes o)

-- Two messages or more are not one.
not_alone :
    (rest : List (List ℕ)) (bytes : List ℕ) → (suc (length (rest ++ bytes ∷ [])) == 1) ≡ false
not_alone rest bytes = ground (arith, length-append rest (bytes ∷ []))

-- A block from its fields.
abbrev pub block : Bool → List (List ℕ) → Bool → List (List ℕ × Bool) → ℕ → SharedStateBlock
block o queue sd sub pd = record {
  socket_open = o;
  write_queue = queue;
  shutdown = sd;
  submitted = sub;
  pending = pd;
}

pub send-Inv :
    (sent : List (List ℕ)) (bytes : List ℕ) (o : Bool) (queue : List (List ℕ)) (sd : Bool)
    (sub : List (List ℕ × Bool)) (pd : ℕ)
    → Inv sent (block o queue sd sub pd)
    → Inv (sent ++ bytes ∷ []) (send bytes (block o queue sd sub pd))
unfolding send
send-Inv sent bytes o [] sd sub pd v = record {
  one_write = ap suc v.one_write;
  in_order =
      rw (append-nil, messages-append sub bytes o)
        (ap (λ ms. ms ++ bytes ∷ []) (rw append-nil at v.in_order));
  while_open = λ e. All-append (λ s. s.1 ≡ true) sub ((bytes, o) ∷ []) (v.while_open e) (e, tt);
}
send-Inv sent bytes o (front ∷ rest) sd sub pd v = rw (not_alone rest bytes) (record {
  one_write = v.one_write;
  in_order =
      sym (append_assoc (messages sub) rest (bytes ∷ [])) ∙ ap (λ ms. ms ++ bytes ∷ []) v.in_order;
  while_open = v.while_open;
})

pub close-Inv :
    (sent : List (List ℕ)) (o : Bool) (queue : List (List ℕ)) (sd : Bool)
    (sub : List (List ℕ × Bool)) (pd : ℕ)
    → Inv sent (block o queue sd sub pd)
    → Inv sent (close_socket (block o queue sd sub pd))
unfolding close_socket
close-Inv sent o [] sd sub pd v = record {
  one_write = v.one_write;
  in_order = v.in_order;
  while_open = λ e. cc;
}
close-Inv sent o (front ∷ rest) sd sub pd v = record {
  one_write = v.one_write;
  in_order = v.in_order;
  while_open = v.while_open;
}

pub messages-next :
    (sub : List (List ℕ × Bool)) (next : List ℕ) (o : Bool) (rest : List (List ℕ))
    → messages (sub ++ (next, o) ∷ []) ++ rest ≡ messages sub ++ (next ∷ rest)
messages-next sub next o rest =
    rw (messages-append sub next o) (append_assoc (messages sub) (next ∷ []) rest)

after_pop-Inv :
    (sent : List (List ℕ)) (o : Bool) (front : List ℕ) (rest : List (List ℕ)) (sd : Bool)
    (sub : List (List ℕ × Bool)) (pd : ℕ)
    → Inv sent (block o (front ∷ rest) sd sub pd)
    → Inv sent (after_pop rest (block o (front ∷ rest) sd sub pd))
unfolding after_pop
after_pop-Inv sent o front [] true sub pd v = record {
  one_write = omega (arith, v.one_write);
  in_order = v.in_order;
  while_open = λ e. cc;
}
after_pop-Inv sent o front [] false sub pd v = record {
  one_write = omega (arith, v.one_write);
  in_order = v.in_order;
  while_open = v.while_open;
}
after_pop-Inv sent o front (next ∷ rest) true sub pd v = record {
  one_write = omega (arith, v.one_write);
  in_order = messages-next sub next false rest ∙ v.in_order;
  while_open = λ e. cc;
}
after_pop-Inv sent o front (next ∷ rest) false sub pd v = record {
  one_write = omega (arith, v.one_write);
  in_order = messages-next sub next o rest ∙ v.in_order;
  while_open = λ e. All-append (λ s. s.1 ≡ true) sub ((next, o) ∷ []) (v.while_open e) (e, tt);
}

pub written-Inv :
    (sent : List (List ℕ)) (o : Bool) (queue : List (List ℕ)) (sd : Bool)
    (sub : List (List ℕ × Bool)) (pd : ℕ) (st' : SharedStateBlock)
    → on_written (block o queue sd sub pd) ≡ ok st'
    → Inv sent (block o queue sd sub pd)
    → Inv sent st'
unfolding on_written
written-Inv sent o [] sd sub pd st' e v = cc
written-Inv sent o (front ∷ rest) sd sub pd st' e v =
    subst (Inv sent) (cc) (after_pop-Inv sent o front rest sd sub pd v)
