-- ===== src/Flags/Process.antt =====
-- The whole of stream_process_flags (mux.c).
use yamux.Common.{ℕ, ◌≡◌, refl, ◌∙◌, ap, Bool, true, false, some}
use yamux.Os.{Os}
use yamux.Frame.{has_flag, flag_ack, flag_fin, flag_rst}
use yamux.State.{State, Stream, Sys, Code, success, failure}
use yamux.State.Rules.{Returns, Returns-bind, Returns-map}
use yamux.Flags.{process_ack, process_fin, process_rst, then_rst, stream_process_flags}
use yamux.Flags.Step.{
  answered, half_closed_syn_sent, half_closed_syn_received, half_closed, both_closed, aborted,
  Moves, stay, next, after_ack, after_fin, after_rst, after_flags, Settles, Settles-trans,
  process_ack-Settles, process_fin-Settles, process_rst-Settles,
}

module _ {W Q T : Type 0} ⦃os : Os W⦄ (p flags : ℕ) (s : Sys W Q T) (x : Stream Q)
    (live : s.heap p ≡ some x) where
  -- After the ACK and the FIN: the RST, if those succeeded.
  rst_part :
      (r : Code × State) (t : Sys W Q T) (c : Code)
      → (c ≡ r.0) × Settles p r.1 s t
      → Returns
          (λ c' u. (c' ≡ (after_rst flags r).0) × Settles p (after_rst flags r).1 s u)
          (then_rst p flags c t)
  unfolding then_rst
  rst_part (failure, a) t failure (e, h) = (refl, h)
  rst_part (failure, a) t success (e, h) = cc
  rst_part (success, a) t failure (e, h) = cc
  rst_part (success, a) t success (e, h) =
      Returns-map _ _ (process_rst p flags t) (process_rst-Settles p flags t h.stream h.here)
        λ c u k. (k.0, Settles-trans p a _ s t u h (rw h.in_state at k.1))

  -- The FIN acts on the state that the ACK has left.
  continue_fin :
      (t u : Sys W Q T) (c : Code) (h : Settles p (after_ack flags x.state) s t)
      → (let (code, b) = after_fin flags h.stream.state in (c ≡ code) × Settles p b t u)
      → let (code, b) = after_fin flags (after_ack flags x.state) in (c ≡ code) × Settles p b s u
  continue_fin t u c h k =
      let e = ap (after_fin flags) h.in_state in
      (k.0 ∙ ap (λ r. r.0) e, Settles-trans p (after_ack flags x.state) _ s t u h (rw e at k.1))

  -- For a stream that is there, processing the flags of a frame goes through three steps, each
  -- taken if the flag is there: an ACK leads from SYN_SENT to ESTABLISHED and from any other state
  -- nowhere; a FIN leads to CLOSED from LOCAL_CLOSE and to REMOTE_CLOSE from SYN_SENT,
  -- SYN_RECEIVED and ESTABLISHED, and otherwise the call returns -1; an RST, if the FIN has not
  -- failed, leads to RESET. No other stream's state or send window changes, nor any id, receive
  -- window or received byte, nor the session.
  pub stream_process_flags_lem :
      let (code, b) = after_flags flags x.state in
      Returns (λ c s'. (c ≡ code) × Settles p b s s') (stream_process_flags p flags s)
  unfolding stream_process_flags
  stream_process_flags_lem =
      Returns-bind (λ _ t. Settles p (after_ack flags x.state) s t) _ (process_ack p flags s) _
        (process_ack-Settles p flags s x live)
        λ _ t h.
          Returns-bind
            (λ c u.
              (c ≡ (after_fin flags (after_ack flags x.state)).0)
              × Settles p (after_fin flags (after_ack flags x.state)).1 s u)
            _ (process_fin p flags t) _
            (Returns-map _ _ (process_fin p flags t) (process_fin-Settles p flags t h.stream h.here)
              λ c u k. continue_fin t u c h k)
            λ c u k. rst_part (after_fin flags (after_ack flags x.state)) u c k

ack-Moves :
    (c : Bool) (flags : ℕ) (a : State) → has_flag flags flag_ack ≡ c → Moves a (after_ack flags a)
ack-Moves true flags State.syn_sent e = rw e (next stay answered)
ack-Moves true flags _ e = rw e stay
ack-Moves false flags a e = rw e stay

fin-Moves :
    (c : Bool) (flags : ℕ) (a b : State)
    → has_flag flags flag_fin ≡ c
    → Moves a b
    → Moves a (after_fin flags b).1
fin-Moves false flags a b e m = rw e m
fin-Moves true flags a State.syn_sent e m = rw e (next m half_closed_syn_sent)
fin-Moves true flags a State.syn_received e m = rw e (next m half_closed_syn_received)
fin-Moves true flags a State.established e m = rw e (next m half_closed)
fin-Moves true flags a State.local_close e m = rw e (next m both_closed)
fin-Moves true flags a _ e m = rw e m

rst-Moves :
    (c : Bool) (flags : ℕ) (a : State) (r : Code × State)
    → has_flag flags flag_rst ≡ c
    → Moves a r.1
    → Moves a (after_rst flags r).1
rst-Moves c flags a (failure, b) e m = m
rst-Moves true flags a (success, b) e m = rw e (next m (aborted b))
rst-Moves false flags a (success, b) e m = rw e m

-- The flags move a state along the protocol's moves only.
after_flags-Moves : (flags : ℕ) (a : State) → Moves a (after_flags flags a).1
after_flags-Moves flags a =
    rst-Moves (has_flag flags flag_rst) flags a (after_fin flags (after_ack flags a)) refl (
      fin-Moves (has_flag flags flag_fin) flags a (after_ack flags a) refl
        (ack-Moves (has_flag flags flag_ack) flags a refl))

module _ {W Q T : Type 0} ⦃os : Os W⦄ where
  -- Whatever the flags, for a stream that is there, the call moves the stream along the protocol's
  -- moves: never out of a reset, and out of a close only to a reset.
  pub stream_process_flags-Moves :
      (p flags : ℕ) (s : Sys W Q T) (x : Stream Q)
      → s.heap p ≡ some x
      → Returns
          (λ _ s'. (y : Stream Q) × (s'.heap p ≡ some y) × Moves x.state y.state)
          (stream_process_flags p flags s)
  stream_process_flags-Moves p flags s x live =
      Returns-map _ _ (stream_process_flags p flags s) (stream_process_flags_lem p flags s x live)
        λ c s' h. (h.1.stream, h.1.here, rw (h.1.in_state) (after_flags-Moves flags x.state))
