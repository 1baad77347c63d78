-- ===== src/Io/Safe.antt =====
-- stream_read and stream_write of mux.c as a whole, with whatever other threads do in their waits.
use yamux.Common.{
  ℕ, ◌<◌, ◌≡◌, refl, true, false, Bool, some, List, [], arith, inl, inr, ◌==◌, if◌then◌else◌,
  Bool-cases, Option-cases, int_of, sub32,
}
use yamux.Bio.{Buffer, min_of}
use yamux.Os.{Os, Direction}
use yamux.Stailq.{Stailq}
use yamux.Tree.{Tree}
use yamux.Frame.{hdr_encode, hdr_size, type_data, go_away_internal_err}
use yamux.State.{Stream, Sys, M, Code, success, failure, update, pure}
use yamux.State.Rules.{Returns, Returns-bind, Returns-map}
use yamux.State.Calm.{Calm, Calm-refl, Calm-trans, Calm-world, Calm-store, Calm-live}
use yamux.State.Signals.{Signals}
use yamux.Sound.{IsSound}
use yamux.Sound.Keep.{Calm-IsSound}
use yamux.Send.{
  flags_of, sent_state, stream_send_flags, session_send_buf_write, session_go_away_for_reason,
}
use yamux.Send.Calm.{
  stream_send_flags-Calm, session_send_buf_write-Calm, session_go_away_for_reason-Calm,
}
use yamux.Io.{
  Io, count, again, Gate, stop, pass, would_block, await, write_gate, write_ready, write_once,
}
use yamux.Io.Finish.{after_body, closing, signal, signal-Signals}
use yamux.Io.Written.{after_hdr, after_send_flags}

-- The descriptor that a select on one descriptor reports ready is that one.
pub record SelectsOne {W : Type 0} (os : Os W) : Type 0 where
  pub chosen :
      (direction : Direction) (fd n : ℕ) (is_set : Bool) (w : W)
      → (os.select direction fd w).0 ≡ some (n, is_set)
      → 0 < n
      → is_set ≡ true

module _ {W Q T : Type 0} ⦃sq : Stailq Buffer Q⦄ ⦃tr : Tree T⦄ where
  -- The session is sound and the stream at p is there.
  pub record Serving (p : ℕ) (s : Sys W Q T) : Type 0 where
    pub sound : IsSound s
    pub stream : Stream Q
    pub here : s.heap p ≡ some stream

  pub Serving-Calm : (p : ℕ) (s t : Sys W Q T) → Serving p s → Calm s t → Serving p t
  Serving-Calm p s t g c =
      let (y, e, k) = Calm-live s t p c g.here in
      record { sound = Calm-IsSound s t c g.sound; stream = y; here = e }

module _ {W Q T : Type 0} ⦃os : Os W⦄ ⦃sq : Stailq Buffer Q⦄ ⦃tr : Tree T⦄ where
  pub would_block-Calm :
      (fd : ℕ) (s : Sys W Q T) → Returns (λ (_ : Bool) t. Calm s t) (would_block fd s)
  unfolding would_block
  would_block-Calm fd s = Calm-world s (os.fcntl_getfl fd s.world).1

  pub await-Calm :
      (direction : Direction) (expected : ℕ → Bool) (fd : ℕ) (s : Sys W Q T)
      → SelectsOne os
      → ((n : ℕ) → expected n ≡ true → 0 < n)
      → Returns (λ (_ : Bool) t. Calm s t) (await direction expected fd s)
  unfolding await
  await-Calm direction expected fd s one some_ready =
      let w = (os.select direction fd s.world).1 in
      elim (Option-cases (os.select direction fd s.world).0) [
        | inl e ↦ rw (e, Returns) (Calm-world s w)
        | inr ((n, is_set), e) ↦ elim (Bool-cases (expected n)) [
          | inr f ↦ rw (e, f, Returns) (Calm-world s w)
          | inl f ↦
              let z = one.chosen direction fd n is_set s.world e (some_ready n f) in
              rw (e, f, z, Returns) (Calm-world s w)
        ]
      ]

  closing-Calm :
      (max : ℕ) (c : Code) (s : Sys W Q T) → Returns (λ (_ : Io) t. Calm s t) (closing max c s)
  closing-Calm max success s = Calm-refl s
  closing-Calm max failure s =
      Returns-bind (λ (_ : Code) t. Calm s t) (λ (_ : Io) t. Calm s t)
        (session_go_away_for_reason go_away_internal_err s) (λ _. pure (count (int_of max) []))
        (session_go_away_for_reason-Calm s go_away_internal_err) λ _ t c. c

  after_body-Calm :
      (p max : ℕ) (c : Code) (s : Sys W Q T) (x : Stream Q)
      → s.heap p ≡ some x
      → Returns (λ (_ : Io) t. Calm s t) (after_body p max c s)
  unfolding signal
  after_body-Calm p max failure s x live = Calm-refl s
  after_body-Calm p max success s x live =
      let left = sub32 x.send_window max in
      let y = record x { send_window = left } in
      let t : Sys W Q T = record s { heap = update s.heap p (some y) } in
      let c = Calm-store s p x y live (refl, refl, refl) in
      rw (live, Returns)
        (Returns-bind (λ (_ : Code) u. Signals t u) (λ (_ : Io) v. Calm s v) (signal p left t)
          (closing max) (signal-Signals p left t y (ground arith))
          λ d u h.
            Returns-map (λ (_ : Io) v. Calm u v) (λ (_ : Io) v. Calm s v) (closing max d u)
              (closing-Calm max d u) λ _ v k. Calm-trans s t v c (Calm-trans t u v h.calm k))

  after_hdr-Calm :
      (p : ℕ) (bytes : List ℕ) (max : ℕ) (c : Code) (s : Sys W Q T) (x : Stream Q)
      → s.heap p ≡ some x
      → Returns (λ (_ : Io) t. Calm s t) (after_hdr p bytes max c s)
  after_hdr-Calm p bytes max failure s x live = Calm-refl s
  after_hdr-Calm p bytes max success s x live =
      Returns-bind (λ (_ : Code) t. Calm s t) (λ (_ : Io) v. Calm s v)
        (session_send_buf_write bytes max s) (after_body p max)
        (session_send_buf_write-Calm s bytes max)
        λ d t c.
          let (y, e, k) = Calm-live s t p c live in
          Returns-map (λ (_ : Io) v. Calm t v) (λ (_ : Io) v. Calm s v) (after_body p max d t)
            (after_body-Calm p max d t y e) λ _ v h. Calm-trans s t v c h

  pub write_ready-Calm :
      (p : ℕ) (bytes : List ℕ) (n window : ℕ) (s : Sys W Q T) (x : Stream Q)
      → s.heap p ≡ some x
      → Returns (λ (_ : Io) t. Calm s t) (write_ready p bytes n window s)
  unfolding write_ready
  write_ready-Calm p bytes n window s x live =
      let max = min_of window n in
      Returns-bind
        (λ f t.
          (f ≡ flags_of x.state)
          × Calm s t
          × (t.heap p ≡ some (record x { state = sent_state x.state })))
        (λ (_ : Io) v. Calm s v) (stream_send_flags p s) (after_send_flags p bytes max)
        (stream_send_flags-Calm s p x live)
        λ f t (ef, c, here).
          let frame = hdr_encode type_data f x.id max in
          rw (here, Returns)
            (Returns-bind (λ (_ : Code) u. Calm t u) (λ (_ : Io) v. Calm s v)
              (session_send_buf_write frame hdr_size t) (after_hdr p bytes max)
              (session_send_buf_write-Calm t frame hdr_size)
              λ d u k.
                let (y, e, core) = Calm-live t u p k here in
                Returns-map (λ (_ : Io) v. Calm u v) (λ (_ : Io) v. Calm s v)
                  (after_hdr p bytes max d u) (after_hdr-Calm p bytes max d u y e)
                  λ _ v h. Calm-trans s t v c (Calm-trans t u v k h))

  -- After the descriptor's mode is known.
  unfoldable pub blocked : M W Q T Io → Bool → M W Q T Io
  blocked retry blocks = if blocks then retry else pure again

  pub blocked_lem :
      (R : Io → Sys W Q T → Type 0) (retry : M W Q T Io) (blocks : Bool) (s : Sys W Q T)
      → Returns R (retry s)
      → R again s
      → Returns R (blocked retry blocks s)
  unfolding blocked
  blocked_lem R retry true s h k = h
  blocked_lem R retry false s h k = k

  pub write_once-Serving :
      (p : ℕ) (bytes : List ℕ) (n : ℕ) (retry : M W Q T Io) (s : Sys W Q T)
      → Serving p s
      → ((t : Sys W Q T) → Serving p t → Returns (λ (_ : Io) u. Serving p u) (retry t))
      → Returns (λ (_ : Io) t. Serving p t) (write_once p bytes n retry s)
  unfolding write_once blocked
  write_once-Serving p bytes n retry s g again_lem = gate (write_gate g.stream.state) refl
    where
      gate :
          (o : Gate)
          → write_gate g.stream.state ≡ o
          → Returns (λ (_ : Io) t. Serving p t) (write_once p bytes n retry s)
      gate (stop io) e = rw (g.here, Returns, e) g
      gate pass e = elim (Bool-cases (g.stream.send_window == 0)) [
        | inr f ↦
            rw (g.here, Returns, e, f)
              (Returns-map (λ (_ : Io) t. Calm s t) (λ (_ : Io) t. Serving p t)
                (write_ready p bytes n g.stream.send_window s)
                (write_ready-Calm p bytes n g.stream.send_window s g.stream g.here)
                λ _ t c. Serving-Calm p s t g c)
        | inl f ↦
            rw (g.here, Returns, e, f)
              (Returns-bind (λ (_ : Bool) t. Calm s t) (λ (_ : Io) t. Serving p t)
                (would_block g.stream.fd s) (blocked retry) (would_block-Calm g.stream.fd s)
                λ b t c.
                  let h = Serving-Calm p s t g c in
                  blocked_lem (λ _ u. Serving p u) retry b t (again_lem t h) h)
      ]
