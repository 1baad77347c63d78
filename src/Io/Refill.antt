-- ===== src/Io/Refill.antt =====
-- The window update that stream_read (mux.c) sends where memory does not run out.
use yamux.Common.{
  ℕ, ◌+◌, ◌-◌, ◌/◌, ◌≤◌, ◌<◌, ◌≡◌, ◌⊎◌, refl, ap, ◌∙◌, sym, subst, true, some, List, ◌++◌, arith,
  inl, inr, length, drop, length-drop, ◌==◌, ◌&&◌, if◌then◌else◌, Bool-cases, int_lt, min, ltb,
  add32, sub32,
}
use yamux.Bio.{Buffer, bio_read, bio_pending}
use yamux.Bio.Contents.{contents, IsValid}
use yamux.Bio.Read.{bio_read_lem}
use yamux.Os.{Os, Block}
use yamux.Stailq.{Stailq}
use yamux.Tree.{Tree}
use yamux.Frame.{hdr_encode, hdr_size, type_window_update}
use yamux.State.{State, Stream, Session, Sys, Code, success, failure, update, pure}
use yamux.State.Rules.{Returns, Returns-bind, Returns-map, Returns-both}
use yamux.State.Calm.{Calm-live}
use yamux.State.Signals.{Signals}
use yamux.Notify.{stream_readable_waiting}
use yamux.Streams.{max_stream_window_size}
use yamux.Sound.{IsSound}
use yamux.Send.{flags_of, sent_state, stream_send_flags, session_send_buf_write, send_window_update}
use yamux.Send.Queue.{unsent, CanSend}
use yamux.Send.Window.{spare, update_frame, Updates, send_window_update_lem}
use yamux.Io.{count, failed, read_ready}
use yamux.Io.Memory.{session_send_buf_write_whole}
use yamux.Io.Read.{IsSilent, after_told, taken_back}

module _ {W Q T : Type 0} ⦃os : Os W⦄ ⦃sq : Stailq Buffer Q⦄ where
  -- If no malloc fails, the update is not refused.
  send_window_update_whole :
      (p : ℕ) (x : Stream Q) (s : Sys W Q T)
      → ((b : Block) (w : W) → (os.malloc b w).0 ≡ true)
      → s.heap p ≡ some x
      → Returns (λ c (_ : Sys W Q T). c ≡ success) (send_window_update p s)
  unfolding send_window_update stream_send_flags
  send_window_update_whole p x s memory live =
      let y = record x { state = sent_state x.state } in
      let h1 = update s.heap p (some y) in
      let here : h1 p ≡ some y = ground arith in
      let delta = sub32 (sub32 max_stream_window_size (bio_pending x.recv_buf)) x.recv_window in
      let z = record y { recv_window = add32 x.recv_window delta } in
      let s2 : Sys W Q T = record s { heap = update h1 p (some z) } in
      let frame = hdr_encode type_window_update (flags_of x.state) x.id delta in
      elim (Bool-cases (ltb delta (max_stream_window_size / 2) && flags_of x.state == 0)) [
        | inl e ↦ rw (live, Returns, here, e) refl
        | inr e ↦
            rw (live, Returns, here, e)
              (Returns-map (λ c t. (c ≡ success) × (t.heap ≡ s2.heap))
                (λ c (_ : Sys W Q T). c ≡ success) (session_send_buf_write frame hdr_size s2)
                (session_send_buf_write_whole frame hdr_size s2 memory (omega arith)) λ c t h. h.0)
      ]

module _ {Q : Type 0} ⦃sq : Stailq Buffer Q⦄ where
  -- What is spare in the window once the first bytes have been read.
  abbrev pub gap : ℕ → Stream Q → ℕ
  gap size x = max_stream_window_size - length (drop size (contents x.recv_buf)) - x.recv_window

module _ {W Q T : Type 0} ⦃sq : Stailq Buffer Q⦄ where
  -- After a read from the stream at p, x before: if less than half of the window is spare nothing
  -- is queued; otherwise the window is offered again whole, and the update is queued.
  pub record Refill (p size : ℕ) (x : Stream Q) (s s' : Sys W Q T) : Type 0 where
    pub stream : Stream Q
    pub here : s'.heap p ≡ some stream
    pub valid : IsValid s'.session.send_buf
    pub told :
        (gap size x < max_stream_window_size / 2)
          × (stream.recv_window ≡ x.recv_window)
          × (unsent s' ≡ unsent s)
        ⊎ (max_stream_window_size / 2 ≤ gap size x)
          × (stream.recv_window ≡ x.recv_window + gap size x)
          × (unsent s' ≡ unsent s ++ hdr_encode type_window_update 0 x.id (gap size x))

module _ {W Q T : Type 0} ⦃os : Os W⦄ ⦃sq : Stailq Buffer Q⦄ ⦃tr : Tree T⦄ where
  Updates-Refill :
      (p size : ℕ) (x z : Stream Q) (s u s' : Sys W Q T)
      → x.state ≡ State.established
      → z.state ≡ x.state
      → z.id ≡ x.id
      → z.recv_window ≡ x.recv_window
      → contents z.recv_buf ≡ drop size (contents x.recv_buf)
      → x.recv_window + length (drop size (contents x.recv_buf)) ≤ max_stream_window_size
      → u.session ≡ s.session
      → Updates p z success u s'
      → Refill p size x s s'
  Updates-Refill p size x z s u s' up st i win left room same h =
      let plain : flags_of z.state ≡ 0 = ap flags_of (st ∙ up) in
      let gaps : spare z ≡ gap size x = omega (arith, ap (length {A = ℕ}) left, win) in
      let before = ap (λ (k : Session Q T). contents k.send_buf) same in
      record {
        stream = h.stream;
        here = h.here;
        valid = h.valid;
        told = elim h.told [
          | inl (_, none_sent, less, window, kept) ↦ inl (
            omega (arith, less, gaps),
            window ∙ win,
            ap (λ (k : Session Q T). contents k.send_buf) kept ∙ before,
          )
          | inr (why, window, how) ↦ inr (
            elim why [ inl other ↦ absurd (other plain) | inr more ↦ omega (arith, more, gaps) ],
            omega (arith, window, ap (length {A = ℕ}) left, win, room),
            elim how [
              | inl (_, queued) ↦
                  queued
                  ∙ ap (λ ys. ys ++ update_frame z) before
                  ∙ ap (λ f. unsent s ++ hdr_encode type_window_update f z.id (spare z)) plain
                  ∙ ap (λ j. unsent s ++ hdr_encode type_window_update 0 j (spare z)) i
                  ∙ ap (λ d. unsent s ++ hdr_encode type_window_update 0 x.id d) gaps
              | inr (bad, _) ↦ absurd (ground (arith, bad))
            ],
          )
        ];
      }

  after_told-Refill :
      (p size : ℕ) (x z : Stream Q) (s u : Sys W Q T) (c : Code) (r : ℕ) (bytes : List ℕ)
      → ((b : Block) (w : W) → (os.malloc b w).0 ≡ true)
      → u.heap p ≡ some z
      → x.state ≡ State.established
      → z.state ≡ x.state
      → z.id ≡ x.id
      → z.recv_window ≡ x.recv_window
      → contents z.recv_buf ≡ drop size (contents x.recv_buf)
      → IsValid z.recv_buf
      → x.recv_window + length (drop size (contents x.recv_buf)) ≤ max_stream_window_size
      → u.session ≡ s.session
      → CanSend hdr_size u
      → Returns (λ io s'. (io ≡ failed) ⊎ Refill p size x s s') (after_told p r bytes c u)
  after_told-Refill p size x z s u failure r bytes memory live up st i win left v room same can =
      inl refl
  after_told-Refill p size x z s u success r bytes memory live up st i win left v room same can =
      Returns-bind (λ c w. Updates p z c u w × (c ≡ success))
        (λ io s'. (io ≡ failed) ⊎ Refill p size x s s') (send_window_update p u)
        (λ _. pure (count r bytes))
        (Returns-both (λ c w. Updates p z c u w) (λ c (_ : Sys W Q T). c ≡ success)
          (send_window_update p u)
          (send_window_update_lem p z u live
            (record { buffered = v; promised = omega (arith, win, ap (length {A = ℕ}) left, room) })
            can)
          (send_window_update_whole p z u memory live))
        λ c w (h, good). inr (
          Updates-Refill p size x z s u w up st i win left room same
            (subst (λ d. Updates p z d u w) good h))

  -- On a platform with memory, for an established stream that holds bytes.
  pub read_ready-Refill :
      (p size : ℕ) (x : Stream Q) (s : Sys W Q T)
      → ((b : Block) (w : W) → (os.malloc b w).0 ≡ true)
      → IsSound s
      → CanSend hdr_size s
      → s.heap p ≡ some x
      → x.state ≡ State.established
      → 0 < size
      → 0 < length (contents x.recv_buf)
      → Returns (λ io s'. (io ≡ failed) ⊎ Refill p size x s s') (read_ready p size s)
  unfolding read_ready
  read_ready-Refill p size x s memory v can live up pos some_bytes =
      let win = v.windowed p x live in
      let (r, bytes, b) = bio_read true size x.recv_buf in
      let (er, eb, rest, valid) = bio_read_lem size x.recv_buf win.buffered in
      let number : r ≡ min size (length (contents x.recv_buf)) = er ∙ omega (arith, win.promised) in
      let fewer = length-drop size (contents x.recv_buf) in
      let y = record x { recv_buf = b } in
      let t : Sys W Q T = record s { heap = update s.heap p (some y) } in
      let here : t.heap p ≡ some y = ground arith in
      let tested : int_lt 0 r ≡ true = ground (arith, number, win.promised) in
      rw (live, Returns, tested)
        (Returns-bind
          (λ c u.
            Signals t u
            × ((c ≡ success) ⊎ (length (contents b) ≡ 0) × IsSilent (record x { recv_buf = b }) t))
          (λ io s'. (io ≡ failed) ⊎ Refill p size x s s')
          ((if bio_pending b == 0 then stream_readable_waiting p else pure success) t)
          (after_told p r bytes)
          (taken_back p t y here valid
            (omega (arith, fewer, ap (length {A = ℕ}) rest, win.promised)))
          λ c u h.
            let (z, there, core) = Calm-live t u p h.0.calm here in
            after_told-Refill p size x z s u c r bytes memory there up
              (ground (arith, h.0.sending_same p)) (sym core.0) (sym core.1)
              (ap contents (sym core.2) ∙ rest) (subst IsValid core.2 valid)
              (omega (arith, fewer, win.promised)) h.0.session
              (subst (λ (k : Session Q T). CanSend hdr_size (record u { session = k }))
                (sym h.0.session) (record { valid = can.valid; room = can.room })))
