-- ===== src/Process/Total.antt =====
-- session_process (mux.c) in a sound session, on whatever the peer has sent.
use yamux.Common.{
  ℕ, zero, suc, ◌+◌, ◌-◌, ◌*◌, ◌≤◌, ◌<◌, ◌≡◌, ◌⊎◌, refl, ◌∙◌, ap, true, false, arith, inl, inr,
  length, ◌==◌, Bool-cases, int_lt, length-drop, int_of, min,
}
use yamux.Bio.{Buffer, bio_pending, bio_read}
use yamux.Bio.Contents.{contents}
use yamux.Bio.Read.{bio_pending_lem, bio_read_lem}
use yamux.Os.{Os}
use yamux.Stailq.{Stailq}
use yamux.Tree.{Tree}
use yamux.Frame.{hdr_size, hdr_version, version}
use yamux.State.{Sys, M, Code, success, failure, ◌>>=◌, pure}
use yamux.State.Rules.{Returns, Returns-bind}
use yamux.Send.Calm.{WritesWhole}
use yamux.Sound.{IsSound}
use yamux.Data.Inside.{unread}
use yamux.Data.Handle.{Handled}
use yamux.Handlers.{session_handle}
use yamux.Handlers.Safe.{session_handle_lem}
use yamux.Process.{
  Head, returns, goes_on, Outcome, returned, read_hdr, process_step, process_loop, session_process,
}

module _ {W Q T : Type 0} ⦃os : Os W⦄ ⦃sq : Stailq Buffer Q⦄ ⦃tr : Tree T⦄ where
  pub pending_count : (s : Sys W Q T) → IsSound s → bio_pending s.session.recv_buf ≡ unread s
  pending_count s v = bio_pending_lem s.session.recv_buf v.received ∙ omega (arith, v.fits_int)

  -- There is nothing more to parse: no byte is left, or less than a header.
  abbrev pub Idle : Sys W Q T → Type 0
  Idle s = (unread s ≡ 0) ⊎ (s.session.new_frame ≡ true) × (unread s < hdr_size)

  -- How a header is read: it is not there yet, it has another version, or it is taken.
  abbrev HeadRead : Sys W Q T → Head → Sys W Q T → Type 0
  HeadRead s h t =
      ((h ≡ returns success) × IsSound t × Idle t)
      ⊎ ((h ≡ returns failure) ⊎ ((h ≡ goes_on) × IsSound t × (unread t < unread s)))

  pub headed :
      (s : Sys W Q T)
      → IsSound s
      → s.session.new_frame ≡ true
      → let (r, hdr, recv_buf) = bio_read true hdr_size s.session.recv_buf in
        IsSound (record s { session = record s.session { hdr = hdr; recv_buf = recv_buf } })
        × (unread (record s { session = record s.session { hdr = hdr; recv_buf = recv_buf } })
            ≡ unread s - hdr_size)
        × (r ≡ int_of (min hdr_size (unread s)))
  headed s v new =
      let (count, out, rest, valid) = bio_read_lem hdr_size s.session.recv_buf v.received in
      let fewer = ap (length {A = ℕ}) rest ∙ length-drop hdr_size (contents s.session.recv_buf) in
      (
        record {
          found = v.found;
          fresh = v.fresh;
          windowed = v.windowed;
          received = valid;
          fits_int = omega (arith, v.fits_int, fewer);
          framed = λ e. absurd (ground (arith, new));
          promised_frame = λ e. absurd (ground (arith, new));
        },
        fewer,
        count,
      )

  read_hdr_lem :
      (s : Sys W Q T) → IsSound s → s.session.new_frame ≡ true → Returns (HeadRead s) (read_hdr s)
  unfolding read_hdr
  read_hdr_lem s v new =
      let (r, hdr, recv_buf) = bio_read true hdr_size s.session.recv_buf in
      let (sound, fewer, count) = headed s v new in
      elim (Bool-cases (int_lt (bio_pending s.session.recv_buf) hdr_size)) [
        | inl e ↦
            rw (e, Returns)
              (inl (refl, v, inr (new, ground (arith, pending_count s v, v.fits_int))))
        | inr e ↦
            let enough : hdr_size ≤ unread s = ground (arith, pending_count s v, v.fits_int) in
            let whole : (r == hdr_size) ≡ true = ground (arith, count) in
            elim (Bool-cases (hdr_version hdr == version)) [
              | inl f ↦ rw (e, whole, f, Returns) (inr (inr (refl, sound, omega (arith, fewer))))
              | inr f ↦ rw (e, whole, f, Returns) (inr (inl refl))
            ]
      ]

  abbrev Stepped : Sys W Q T → Head → Sys W Q T → Type 0
  Stepped s h t =
      (h ≡ returns failure)
      ⊎ (((h ≡ returns success) × IsSound t × Idle t)
          ⊎ ((h ≡ goes_on) × IsSound t × (unread t < unread s)))

  -- What a round does with a header that it has.
  abbrev pub handled : Head → M W Q T Head
  handled (returns code) = pure (returns code)
  handled goes_on = do
    code ← session_handle
    pure (elim code [ failure ↦ returns failure | success ↦ goes_on ])

  handled_lem :
      (s t : Sys W Q T)
      → WritesWhole os
      → IsSound t
      → (unread t < unread s) ⊎ ((t.session.new_frame ≡ false) × (t ≡ s) × (0 < unread s))
      → Returns (Stepped s) (handled goes_on t)
  handled_lem s t whole v how =
      Returns-bind (Handled t) (Stepped s) (session_handle t)
        (λ code. pure (elim code [ failure ↦ returns failure | success ↦ goes_on ]))
        (session_handle_lem t whole v) λ c u h. after c u h how
    where
      after :
          (c : Code) (u : Sys W Q T)
          → Handled t c u
          → (unread t < unread s) ⊎ ((t.session.new_frame ≡ false) × (t ≡ s) × (0 < unread s))
          → Stepped s (elim c [ failure ↦ returns failure | success ↦ goes_on ]) u
      after failure u h k = inl refl
      after success u (inl e) k = absurd (ground arith)
      after success u (inr h) (inl k) = inr (inr (refl, h.sound, omega (arith, h.less)))
      after success u (inr h) (inr (mid, same, pos)) =
          let e = ap (λ (z : Sys W Q T). unread z) same in
          inr (inr (refl, h.sound, omega (arith, h.progress mid (omega (arith, e)), e)))

  process_step_lem :
      (s : Sys W Q T)
      → WritesWhole os
      → IsSound s
      → 0 < unread s
      → Returns (Stepped s) (process_step s)
  unfolding process_step
  process_step_lem s whole v pos = elim (Bool-cases s.session.new_frame) [
    | inr mid ↦ simp (mid) (handled_lem s s whole v (inr (mid, refl, pos)))
    | inl new ↦ simp (new) (
        Returns-bind (HeadRead s) (Stepped s) (read_hdr s) handled (read_hdr_lem s v new)
          λ h t k. headed_step h t k)
  ]
    where
      headed_step : (h : Head) (t : Sys W Q T) → HeadRead s h t → Returns (Stepped s) (handled h t)
      headed_step h t (inl (e, w, i)) = rw (e, Returns) (inr (inl (refl, w, i)))
      headed_step h t (inr (inl e)) = rw (e, Returns) (inl refl)
      headed_step h t (inr (inr (e, w, less))) = rw (e) (handled_lem s t whole w (inl less))

  -- How a call ends: with -1, or with 0 and nothing more to parse.
  abbrev pub Ended : Outcome → Sys W Q T → Type 0
  Ended o t = (o ≡ returned failure) ⊎ (o ≡ returned success) × IsSound t × Idle t

  abbrev pub rest_of : ℕ → Head → M W Q T Outcome
  rest_of fuel (returns code) = pure (returned code)
  rest_of fuel goes_on = process_loop fuel

  after_step :
      (fuel : ℕ) (s : Sys W Q T) (h : Head) (t : Sys W Q T)
      → Stepped s h t
      → (IsSound t → unread t < unread s → Returns Ended (process_loop fuel t))
      → Returns Ended (rest_of fuel h t)
  after_step fuel s h t (inl e) more = rw (e, Returns) (inl refl)
  after_step fuel s h t (inr (inl (e, w, i))) more = rw (e, Returns) (inr (refl, w, i))
  after_step fuel s h t (inr (inr (e, w, less))) more = rw (e) (more w less)

  process_loop_lem :
      (fuel : ℕ) (s : Sys W Q T)
      → WritesWhole os
      → IsSound s
      → unread s < fuel
      → Returns Ended (process_loop fuel s)
  unfolding process_loop
  process_loop_lem zero s whole v enough = absurd (omega arith)
  process_loop_lem (suc fuel) s whole v enough =
      elim (Bool-cases (bio_pending s.session.recv_buf == 0)) [
        | inl e ↦ rw (e, Returns) (inr (refl, v, inl (ground (arith, pending_count s v))))
        | inr e ↦ rw (e) (
            Returns-bind (Stepped s) Ended (process_step s) (rest_of fuel)
              (process_step_lem s whole v (ground (arith, pending_count s v)))
              λ h t k.
                after_step fuel s h t k
                  λ w less. process_loop_lem fuel t whole w (omega (arith, less)))
      ]

  -- In a sound session, whatever bytes the peer has sent, on a platform that takes a write of four
  -- bytes whole or fails it, and whatever else of the platform fails: session_process comes to an
  -- end, no assertion fails and no bad pointer is read, and it returns -1, or 0 with a sound
  -- session that has nothing left to parse but, perhaps, a part of a header.
  pub session_process_lem :
      (s : Sys W Q T) → WritesWhole os → IsSound s → Returns Ended (session_process s)
  unfolding session_process
  session_process_lem s whole v =
      process_loop_lem (2 * s.session.recv_buf.len + 2) s whole v
        (omega (arith, v.received.counted))
