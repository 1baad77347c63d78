-- ===== src/Send/Window.antt =====
-- Window updates (send_window_update of mux.c).
use yamux.Common.{
  ℕ, ◌+◌, ◌-◌, ◌/◌, ◌≤◌, ◌<◌, ◌≡◌, ◌≢◌, ◌⊎◌, refl, ap, ◌∙◌, some, List, ◌++◌, arith, inl, inr,
  length, take, take_all, ◌==◌, ◌&&◌, ltb, Bool-cases, add32, sub32,
}
use yamux.Bio.{Buffer, bio_pending}
use yamux.Bio.Contents.{contents, IsValid}
use yamux.Bio.Read.{bio_pending_lem}
use yamux.Os.{Os}
use yamux.Stailq.{Stailq}
use yamux.Frame.{hdr_encode, hdr_size, type_window_update}
use yamux.State.{Stream, Sys, Code, success, failure, update}
use yamux.State.Rules.{Returns, Returns-map}
use yamux.Streams.{max_stream_window_size}
use yamux.Sound.{IsWindowed}
use yamux.Send.{flags_of, sent_state, stream_send_flags, session_send_buf_write, send_window_update}
use yamux.Send.Queue.{unsent, CanSend, Queued, session_send_buf_write_lem, length-hdr_encode}

module _ {Q : Type 0} ⦃sq : Stailq Buffer Q⦄ (x : Stream Q) where
  -- What the peer may send beyond what it has been promised, and the frame that says so.
  abbrev pub spare : ℕ
  spare = max_stream_window_size - length (contents x.recv_buf) - x.recv_window

  abbrev pub update_frame : List ℕ
  update_frame = hdr_encode type_window_update (flags_of x.state) x.id spare

module _ {W Q T : Type 0} ⦃sq : Stailq Buffer Q⦄ (p : ℕ) (x : Stream Q) where
  -- The stream at p, x before, has sent its flags if it had any. Either nothing is sent, since
  -- there are no flags and less than half of the window is spare, or the receive window and the
  -- bytes held make up the maximum and the frame is queued, unless -1 is returned after a part of
  -- it.
  pub record Updates (c : Code) (s s' : Sys W Q T) : Type 0 where
    pub stream : Stream Q
    pub here : s'.heap p ≡ some stream
    pub state : stream.state ≡ sent_state x.state
    pub buffer : stream.recv_buf ≡ x.recv_buf
    pub valid : IsValid s'.session.send_buf
    pub others : (q : ℕ) → q ≢ p → s'.heap q ≡ s.heap q
    pub told :
        (c ≡ success)
          × (flags_of x.state ≡ 0)
          × (spare x < max_stream_window_size / 2)
          × (stream.recv_window ≡ x.recv_window)
          × (s'.session ≡ s.session)
        ⊎ ((flags_of x.state ≢ 0) ⊎ (max_stream_window_size / 2 ≤ spare x))
          × (stream.recv_window + length (contents x.recv_buf) ≡ max_stream_window_size)
          × ((c ≡ success) × (unsent s' ≡ unsent s ++ update_frame x)
              ⊎ (c ≡ failure)
                × ((k : ℕ) × (k < hdr_size) × (unsent s' ≡ unsent s ++ take k (update_frame x))))

module _ {W Q T : Type 0} ⦃os : Os W⦄ ⦃sq : Stailq Buffer Q⦄ where
  -- For a stream that is there and keeps to its window, with room in the send queue:
  -- send_window_update returns; either it sends nothing, since there are no flags and less than
  -- half of the window is spare, or, since there are flags or half of it is spare, afterwards the
  -- receive window and the bytes held make up the maximum and the frame with the flags and exactly
  -- that increase is queued, unless -1 is returned after a part of it. The state is the one after
  -- the flags, the send queue is valid, and no other stream changes.
  pub send_window_update_lem :
      (p : ℕ) (x : Stream Q) (s : Sys W Q T)
      → s.heap p ≡ some x
      → IsWindowed x
      → CanSend hdr_size s
      → Returns (λ c s'. Updates p x c s s') (send_window_update p s)
  unfolding send_window_update stream_send_flags
  send_window_update_lem p x s live win can =
      let y = record x { state = sent_state x.state } in
      let h1 = update s.heap p (some y) in
      let s1 : Sys W Q T = record s { heap = h1 } in
      let here : h1 p ≡ some y = ground arith in
      let n = length (contents x.recv_buf) in
      let held : bio_pending x.recv_buf ≡ n =
        bio_pending_lem x.recv_buf win.buffered ∙ omega (arith, win.promised) in
      let exact : sub32 (sub32 max_stream_window_size (bio_pending x.recv_buf)) x.recv_window
          ≡ spare x =
        omega (arith, held, win.promised) in
      let z = record y { recv_window = add32 x.recv_window (spare x) } in
      let s2 : Sys W Q T = record s { heap = update h1 p (some z) } in
      let same : (q : ℕ) → q ≢ p → h1 q ≡ s.heap q = λ q n. ground arith in
      let long = length-hdr_encode type_window_update (flags_of x.state) x.id (spare x) in
      elim (Bool-cases (ltb (spare x) (max_stream_window_size / 2) && flags_of x.state == 0)) [
        | inl e ↦
            rw (live, Returns, here, exact, e)
              (record {
                stream = y;
                here = here;
                state = refl;
                buffer = refl;
                valid = can.valid;
                others = same;
                told = inl (refl, ground arith, ground arith, refl, refl);
              })
        | inr e ↦
            rw (live, Returns, here, exact, e)
              (Returns-map (λ c u. Queued (update_frame x) hdr_size c s2 u)
                (λ c u. Updates p x c s u) (session_send_buf_write (update_frame x) hdr_size s2)
                (session_send_buf_write_lem (update_frame x) hdr_size s2 (omega (arith, long))
                  (record { valid = can.valid; room = can.room }) (omega arith))
                λ c u q. record {
                  stream = z;
                  here = ap (λ h. h p) q.only.heap ∙ ground arith;
                  state = refl;
                  buffer = refl;
                  valid = q.valid;
                  others = λ r m. ap (λ h. h r) q.only.heap ∙ ground (arith, same r m);
                  told = inr (
                    elim (Bool-cases (flags_of x.state == 0)) [
                      | inl f ↦ inr (ground (arith, e, f))
                      | inr f ↦ inl (ground arith)
                    ],
                    omega (arith, win.promised),
                    elim q.outcome [
                      | inl (f, all) ↦ inl (
                        f,
                        q.appended
                            ∙ ap (λ ys. unsent s ++ ys)
                                (take_all q.count (update_frame x) (omega (arith, all, long))),
                      )
                      | inr (f, less) ↦ inr (f, (q.count, less, q.appended))
                    ],
                  );
                })
      ]
