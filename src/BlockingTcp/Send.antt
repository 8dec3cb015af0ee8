-- ===== src/BlockingTcp/Send.antt =====
-- `SendAll` of src/network/blocking_tcp.cpp.
use pulse_core.Base.{
  ℕ, zero, suc, ◌+◌, ◌-◌, ◌≤◌, ◌<◌, ◌≡◌, refl, sym, ap, ◌∙◌, Bool, true, false, List, [], ◌++◌,
  append-nil, append_assoc, arith, ltb, ltb→le, ltb→lt, length, length-drop, length-zero, subst,
  take, drop, drop-drop, take-append-drop, if◌then◌else◌,
}
use pulse_core.Sockets.{
  eintr, eagain, ewouldblock, econnreset, epipe, enoent, other_error, Sent, sent, send_failed,
  Sockets, IsStream, Sends,
}
use pulse_core.BlockingTcp.{
  Ran, done, failed, wrote_zero, not_encoded, stuck, send_all_loop, send_all, after_send_all,
}

module _ {W : Type 0} (s : Sockets W) (fd : ℕ) (st : IsStream s fd) where
  open st use {incoming, outgoing, patience}

  -- What the peer has been sent, and what is left of the bytes, are together `bytes`.
  pub record Sending (bytes : List ℕ) (w w' : W) : Type 0 where
    pub left : List ℕ
    pub conserved : outgoing w' ++ left ≡ outgoing w ++ bytes
    pub unread : incoming w' ≡ incoming w
    pub calm : patience w' ≤ patience w

  -- A call that returns has sent all of them.
  abbrev pub SendsAll : List ℕ → W → Ran W ℕ → Type 0
  SendsAll bytes w (done n w') =
      (outgoing w' ≡ outgoing w ++ bytes) × (incoming w' ≡ incoming w) × (patience w' ≤ patience w)
  SendsAll bytes w (failed e w') = Sending bytes w w'
  SendsAll bytes w (wrote_zero w') = Sending bytes w w'
  SendsAll bytes w (not_encoded w') = ⊥
  SendsAll bytes w stuck = ⊥

  SendsAll-from :
      (front rest : List ℕ) (w w1 : W) (r : Ran W ℕ)
      → outgoing w1 ≡ outgoing w ++ front
      → incoming w1 ≡ incoming w
      → patience w1 ≤ patience w
      → SendsAll rest w1 r
      → SendsAll (front ++ rest) w r
  SendsAll-from front rest w w1 (done n w') o i p x = (
    x.0 ∙ ap (λ (t : List ℕ). t ++ rest) o ∙ append_assoc (outgoing w) front rest,
    x.1 ∙ i,
    omega (arith, x.2, p),
  )
  SendsAll-from front rest w w1 (failed e w') o i p x = record {
    left = x.left;
    conserved =
        x.conserved ∙ ap (λ (t : List ℕ). t ++ rest) o ∙ append_assoc (outgoing w) front rest;
    unread = x.unread ∙ i;
    calm = omega (arith, x.calm, p);
  }
  SendsAll-from front rest w w1 (wrote_zero w') o i p x = record {
    left = x.left;
    conserved =
        x.conserved ∙ ap (λ (t : List ℕ). t ++ rest) o ∙ append_assoc (outgoing w) front rest;
    unread = x.unread ∙ i;
    calm = omega (arith, x.calm, p);
  }
  SendsAll-from front rest w w1 (not_encoded w') o i p x = elim x [ ]
  SendsAll-from front rest w w1 stuck o i p x = elim x [ ]

  module _ (bytes : List ℕ) where
    -- Later rounds do what is claimed, from any state with a smaller measure.
    abbrev Later : (ℕ → W → Ran W ℕ) → ℕ → Type 0
    Later again bound =
        (offset : ℕ) (w : W)
        → offset ≤ length bytes
        → patience w + (length bytes - offset) < bound
        → SendsAll (drop offset bytes) w (again offset w)

    kept_back :
        (offset : ℕ) (w w' : W)
        → outgoing w' ≡ outgoing w
        → incoming w' ≡ incoming w
        → patience w' ≤ patience w
        → Sending (drop offset bytes) w w'
    kept_back offset w w' o i p = record {
      left = drop offset bytes;
      conserved = ap (λ (t : List ℕ). t ++ drop offset bytes) o;
      unread = i;
      calm = p;
    }

    module _ (again : ℕ → W → Ran W ℕ) (offset : ℕ) (w w' : W) (room : offset < length bytes)
        (i : incoming w' ≡ incoming w) (p : patience w' ≤ patience w)
        (ih : Later again (patience w + (length bytes - offset))) where
      some_sent :
          (n : ℕ)
          → suc n ≤ length (drop offset bytes)
          → outgoing w' ≡ outgoing w ++ take (suc n) (drop offset bytes)
          → SendsAll (drop offset bytes) w (again (offset + suc n) w')
      some_sent n fits o =
          let whole = take-append-drop (suc n) (drop offset bytes) in
          let later =
            subst (λ (t : List ℕ). SendsAll t w' (again (offset + suc n) w'))
              (sym (drop-drop (suc n) offset bytes))
              (ih (offset + suc n) w' (omega (arith, fits, length-drop offset bytes))
                (omega (arith, p, fits, length-drop offset bytes))) in
          subst (λ (t : List ℕ). SendsAll t w (again (offset + suc n) w')) whole
            (SendsAll-from (take (suc n) (drop offset bytes)) (drop (suc n) (drop offset bytes)) w
              w' (again (offset + suc n) w') o i p later)

      interrupted :
          outgoing w' ≡ outgoing w
          → patience w' < patience w
          → SendsAll (drop offset bytes) w (again offset w')
      interrupted o fewer =
          SendsAll-from [] (drop offset bytes) w w' (again offset w')
            (o ∙ sym (append-nil (outgoing w))) i p (ih offset w' (omega arith) (omega arith))

      one_send :
          (x : Sent)
          → Sends (drop offset bytes) (outgoing w) x (outgoing w')
          → (x ≡ send_failed eintr → patience w' < patience w)
          → SendsAll (drop offset bytes) w (after_send_all again offset (x, w'))
      unfolding after_send_all
      one_send (sent zero) h e = kept_back offset w w' (h.1 ∙ append-nil (outgoing w)) i p
      one_send (sent (suc n)) h e = some_sent n h.0 h.1
      one_send (send_failed eintr) h e = interrupted h (e refl)
      one_send (send_failed eagain) h e = kept_back offset w w' h i p
      one_send (send_failed ewouldblock) h e = kept_back offset w w' h i p
      one_send (send_failed econnreset) h e = kept_back offset w w' h i p
      one_send (send_failed epipe) h e = kept_back offset w w' h i p
      one_send (send_failed enoent) h e = kept_back offset w w' h i p
      one_send (send_failed (other_error n)) h e = kept_back offset w w' h i p

    all_sent :
        (offset : ℕ) (w : W)
        → length bytes ≤ offset
        → SendsAll (drop offset bytes) w (done offset w)
    all_sent offset w h = (
      sym (append-nil (outgoing w))
          ∙ ap (λ (t : List ℕ). outgoing w ++ t)
              (sym (length-zero (drop offset bytes) (omega (arith, length-drop offset bytes)))),
      refl,
      omega arith,
    )

    send_round :
        (offset : ℕ) (w : W) (attempt : Ran W ℕ) (b : Bool)
        → ltb offset (length bytes) ≡ b
        → (offset < length bytes → SendsAll (drop offset bytes) w attempt)
        → SendsAll (drop offset bytes) w (if b then attempt else done offset w)
    send_round offset w attempt true e k = k (ltb→lt offset (length bytes) e)
    send_round offset w attempt false e k = all_sent offset w (ltb→le offset (length bytes) e)

    send_all_loop-SendsAll :
        (fuel : ℕ) (offset : ℕ) (w : W)
        → offset ≤ length bytes
        → patience w + (length bytes - offset) < fuel
        → SendsAll (drop offset bytes) w (send_all_loop s fd bytes fuel offset w)
    unfolding send_all_loop
    send_all_loop-SendsAll zero offset w h m = absurd (omega arith)
    send_all_loop-SendsAll (suc fuel) offset w h m =
        send_round offset w _ (ltb offset (length bytes)) refl (λ room.
          one_send (send_all_loop s fd bytes fuel) offset w (s.send fd (drop offset bytes) w).1 room
            (st.send_keeps (drop offset bytes) w) (st.send_calm (drop offset bytes) w)
            (λ o w'' fits less. send_all_loop-SendsAll fuel o w'' fits (omega (arith, less, m)))
            (s.send fd (drop offset bytes) w).0 (st.send_puts (drop offset bytes) w)
            (st.send_patience (drop offset bytes) w))

-- `SendAll` returns or throws, given more rounds than there are bytes and interrupted calls. When it
-- returns, the socket has accepted all of the bytes, in order and once; when it throws, a front of them.
pub send_all-SendsAll :
    {W : Type 0} (s : Sockets W) (fd : ℕ) (st : IsStream s fd) (bytes : List ℕ) (fuel : ℕ) (w : W)
    → st.patience w + length bytes < fuel
    → SendsAll s fd st bytes w (send_all s fuel fd bytes w)
unfolding send_all
send_all-SendsAll s fd st bytes fuel w h =
    send_all_loop-SendsAll s fd st bytes fuel 0 w (omega arith) (omega arith)
