-- ===== src/Io/Write.antt =====
-- stream_write of mux.c, from the choice of how much to send on.
use yamux.Common.{
  ℕ, ◌+◌, ◌^◌, ◌≤◌, ◌<◌, ◌≡◌, refl, ap, subst, ◌∙◌, sym, true, Option, some, List, ◌++◌, arith, inl,
  inr, length, take, take-append_le, length-append, minus_one, ◌==◌, length-take,
}
use yamux.Bio.{Buffer, min_of}
use yamux.Os.{Os}
use yamux.Stailq.{Stailq}
use yamux.Tree.{Tree}
use yamux.Frame.{hdr_encode, hdr_size, type_data}
use yamux.State.{Stream, Sys, Code, update}
use yamux.State.Rules.{Returns, Returns-bind}
use yamux.Send.{flags_of, sent_state, stream_send_flags, session_send_buf_write}
use yamux.Send.Queue.{
  unsent, CanSend, Queued, session_send_buf_write_lem, stream_send_flags_lem, length-hdr_encode,
}
use yamux.Io.{write_ready}
use yamux.Io.Finish.{after_body}
use yamux.Io.Written.{Written, after_hdr, after_send_flags, bodied}

module _ {W Q T : Type 0} ⦃os : Os W⦄ ⦃sq : Stailq Buffer Q⦄ ⦃tr : Tree T⦄ where
  headed :
      (p : ℕ) (x : Stream Q) (bytes : List ℕ) (max : ℕ) (s : Sys W Q T) (c : Code) (v : Sys W Q T)
      → max ≤ x.send_window
      → max ≤ length bytes
      → max < minus_one
      → x.send_window < 2 ^ 32
      → CanSend (hdr_size + max + hdr_size) s
      → Queued
          (hdr_encode type_data (flags_of x.state) x.id max)
          hdr_size
          c
          (record s { heap = update s.heap p (some (record x { state = sent_state x.state })) })
          v
      → Returns (λ io s'. Written p x bytes max io s s') (after_hdr p bytes max c v)
  headed p x bytes max s c v le has small word can q =
      let y = record x { state = sent_state x.state } in
      let frame = hdr_encode type_data (flags_of x.state) x.id max in
      let long = length-hdr_encode type_data (flags_of x.state) x.id max in
      let there : v.heap p ≡ some y =
        ap (λ (g : ℕ → Option (Stream Q)). g p) q.only.heap ∙ ground arith in
      elim q.outcome [
        | inr (f, less) ↦
            rw (f, Returns)
              (record {
                stream = y;
                here = there;
                state = refl;
                valid = q.valid;
                outcome = inl (
                  refl,
                  refl,
                  (
                    q.count,
                    omega (arith, less),
                    q.appended
                        ∙ ap (λ t. unsent s ++ t)
                            (sym (take-append_le q.count frame bytes (omega (arith, less, long)))),
                  ),
                );
              })
        | inl (f, all) ↦
            let sent = q.appended ∙ ap (λ m. unsent s ++ take m frame) all in
            let bound = ap (length {A = ℕ}) sent ∙ length-append (unsent s) _ in
            rw (f) (
              Returns-bind (λ c' z. Queued bytes max c' v z)
                (λ io s'. Written p x bytes max io s s') (session_send_buf_write bytes max v)
                (after_body p max)
                (session_send_buf_write_lem bytes max v has
                  (record {
                    valid = q.valid;
                    room = omega (arith, bound, length-take hdr_size frame, can.room);
                  })
                  small)
                λ c' z r. bodied p x bytes max s v c' z le word can there sent r)
      ]

  -- For a stream that is there, with the window that was read from it, a source of at least n
  -- bytes, fewer than 2 ^ 32 - 1 bytes to send and room in the send queue: from the choice of how
  -- much to send on, stream_write returns -1 after a first part of the frame with the send window
  -- as it was, or the lesser of the window and n, with the header for exactly so many bytes and
  -- the first bytes of the source queued (and at most a go-away frame after them) and the send
  -- window smaller by as many. Either way the state is the one after the flags.
  pub write_ready_lem :
      (p : ℕ) (x : Stream Q) (bytes : List ℕ) (n : ℕ) (s : Sys W Q T)
      → s.heap p ≡ some x
      → n ≤ length bytes
      → min_of x.send_window n < minus_one
      → x.send_window < 2 ^ 32
      → CanSend (hdr_size + min_of x.send_window n + hdr_size) s
      → Returns
          (λ io s'. Written p x bytes (min_of x.send_window n) io s s')
          (write_ready p bytes n x.send_window s)
  unfolding write_ready
  write_ready_lem p x bytes n s live has small word can =
      let max = min_of x.send_window n in
      let bounds : (max ≤ n) × (max ≤ x.send_window) = ground arith in
      let y = record x { state = sent_state x.state } in
      let t : Sys W Q T = record s { heap = update s.heap p (some y) } in
      let self : (p == p) ≡ true = ground arith in
      let frame = hdr_encode type_data (flags_of x.state) x.id max in
      let long = length-hdr_encode type_data (flags_of x.state) x.id max in
      Returns-bind (λ f u. (f ≡ flags_of x.state) × (u ≡ t))
        (λ io s'. Written p x bytes max io s s') (stream_send_flags p s) _
        (stream_send_flags_lem p x s live)
        λ f u (ef, eu).
          subst
            (λ g.
              Returns (λ io s'. Written p x bytes max io s s') (after_send_flags p bytes max g u))
            (sym ef)
            (subst
              (λ w.
                Returns (λ io s'. Written p x bytes max io s s')
                  (after_send_flags p bytes max (flags_of x.state) w))
              (sym eu)
              (rw (self, Returns)
                (Returns-bind (λ c v. Queued frame hdr_size c t v)
                  (λ io s'. Written p x bytes max io s s') (session_send_buf_write frame hdr_size t)
                  (after_hdr p bytes max)
                  (session_send_buf_write_lem frame hdr_size t (omega (arith, long))
                    (record { valid = can.valid; room = omega (arith, can.room) }) (omega arith))
                  λ c v q.
                    headed p x bytes max s c v bounds.1 (omega (arith, bounds, has)) small word can
                      q)))
