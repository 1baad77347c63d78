-- ===== src/Io/Whole.antt =====
-- stream_read and stream_write of mux.c as a whole, with whatever other threads do in their waits.
use yamux.Common.{
  ℕ, ◌<◌, ◌≡◌, refl, ◌∙◌, true, false, Bool, List, [], ◌∷◌, arith, inl, inr, All, length, ◌==◌, ltb,
  if◌then◌else◌, Bool-cases,
}
use yamux.Bio.{Buffer, bio_pending}
use yamux.Bio.Contents.{contents}
use yamux.Bio.Read.{bio_pending_lem}
use yamux.Os.{Os, Direction, to_read, to_write}
use yamux.Stailq.{Stailq}
use yamux.Tree.{Tree}
use yamux.State.{Stream, Sys, M, ◌>>=◌, ◌>>◌, pure, load}
use yamux.State.Rules.{Returns, Returns-bind, Returns-map}
use yamux.State.Calm.{Calm}
use yamux.Io.{
  Io, failed, waiting, Gate, stop, pass, would_block, await, others, read_gate, read_ready,
  read_once, stream_read, stream_write,
}
use yamux.Io.Read.{ReadOut, read_ready_lem}
use yamux.Io.Safe.{
  SelectsOne, Serving, Serving-Calm, would_block-Calm, await-Calm, blocked, blocked_lem,
  write_once-Serving,
}

-- What other threads do leaves the session sound and the stream there.
abbrev pub Minds :
    {W Q T : Type 0} ⦃sq : Stailq Buffer Q⦄ ⦃tr : Tree T⦄ → ℕ → (Sys W Q T → Sys W Q T) → Type 0
Minds {W} {Q} {T} p f = (s : Sys W Q T) → Serving p s → Serving p (f s)

module _ {W Q T : Type 0} ⦃os : Os W⦄ ⦃sq : Stailq Buffer Q⦄ ⦃tr : Tree T⦄ where
  read_once-Serving :
      (p size : ℕ) (retry : M W Q T Io) (s : Sys W Q T)
      → 0 < size
      → Serving p s
      → ((t : Sys W Q T) → Serving p t → Returns (λ (_ : Io) u. Serving p u) (retry t))
      → Returns (λ (_ : Io) t. Serving p t) (read_once p size retry s)
  unfolding read_once blocked
  read_once-Serving p size retry s pos g again_lem = gate (read_gate g.stream) refl
    where
      x : Stream Q
      x = g.stream

      held : bio_pending g.stream.recv_buf ≡ length (contents g.stream.recv_buf)
      held =
          let win = g.sound.windowed p g.stream g.here in
          bio_pending_lem g.stream.recv_buf win.buffered ∙ omega (arith, win.promised)

      gate :
          (o : Gate)
          → read_gate g.stream ≡ o
          → Returns (λ (_ : Io) t. Serving p t) (read_once p size retry s)
      gate (stop io) e = rw (g.here, Returns, e) g
      gate pass e = elim (Bool-cases (bio_pending g.stream.recv_buf == 0)) [
        | inr f ↦
            rw (g.here, Returns, e, f)
              (Returns-map (λ io t. ReadOut p g.stream size io s t) (λ (_ : Io) t. Serving p t)
                (read_ready p size s)
                (read_ready_lem p g.stream size s g.sound g.here pos (ground (arith, held)))
                λ _ t r. record { sound = r.steady.sound; stream = r.stream; here = r.here })
        | inl f ↦
            rw (g.here, Returns, e, f)
              (Returns-bind (λ (_ : Bool) t. Calm s t) (λ (_ : Io) t. Serving p t)
                (would_block g.stream.fd s) (blocked retry) (would_block-Calm g.stream.fd s)
                λ b t c.
                  let h = Serving-Calm p s t g c in
                  blocked_lem (λ _ u. Serving p u) retry b t (again_lem t h) h)
      ]

  -- What follows a wait.
  woken : M W Q T Io → Bool → M W Q T Io
  woken next ready = if ready then next else pure failed

  woken_lem :
      (p : ℕ) (next : M W Q T Io) (ready : Bool) (s : Sys W Q T)
      → Serving p s
      → ((t : Sys W Q T) → Serving p t → Returns (λ (_ : Io) u. Serving p u) (next t))
      → Returns (λ (_ : Io) t. Serving p t) (woken next ready s)
  unfolding woken
  woken_lem p next true s g h = h s g
  woken_lem p next false s g h = g

  -- A wait, and what follows it.
  waits : ℕ → (Sys W Q T → Sys W Q T) → Direction → (ℕ → Bool) → M W Q T Io → M W Q T Io
  unfolding woken
  waits p f direction expected next = do
    stream ← load p
    others f
    ready ← await direction expected stream.fd
    if ready then next else pure failed

  waits_lem :
      (p : ℕ) (f : Sys W Q T → Sys W Q T) (direction : Direction) (expected : ℕ → Bool)
      (next : M W Q T Io) (s : Sys W Q T)
      → SelectsOne os
      → Minds p f
      → ((n : ℕ) → expected n ≡ true → 0 < n)
      → ((t : Sys W Q T) → Serving p t → Returns (λ (_ : Io) u. Serving p u) (next t))
      → Serving p s
      → Returns (λ (_ : Io) t. Serving p t) (waits p f direction expected next s)
  unfolding waits woken
  waits_lem p f direction expected next s one minds some_ready after g =
      let h = minds s g in
      rw (g.here, Returns)
        (Returns-bind (λ (_ : Bool) t. Calm (f s) t) (λ (_ : Io) t. Serving p t)
          (await direction expected g.stream.fd (f s)) (woken next)
          (await-Calm direction expected g.stream.fd (f s) one some_ready)
          λ b t c. woken_lem p next b t (Serving-Calm p (f s) t h c) after)

  -- For a stream that is there in a sound session, a buffer of at least one byte, a platform whose
  -- select reports the descriptor asked for, and other threads that leave the session sound and
  -- the stream there in each wait: stream_read returns without a failed assertion or a bad
  -- pointer, and the session is sound and the stream there.
  pub stream_read-Serving :
      (p size : ℕ) (waits : List (Sys W Q T → Sys W Q T)) (s : Sys W Q T)
      → SelectsOne os
      → All (Minds p) waits
      → 0 < size
      → Serving p s
      → Returns (λ (_ : Io) t. Serving p t) (stream_read p size waits s)
  unfolding stream_read waits
  stream_read-Serving p size [] s one minds pos g =
      read_once-Serving p size (pure waiting) s pos g λ t h. h
  stream_read-Serving p size (f ∷ rest) s one minds pos g =
      read_once-Serving p size (waits p f to_read (λ n. n == 1) (stream_read p size rest)) s pos g
        λ t h.
          waits_lem p f to_read (λ n. n == 1) (stream_read p size rest) t one minds.0
            (λ n e. ground arith) (λ u k. stream_read-Serving p size rest u one minds.1 pos k) h

  -- For a stream that is there in a sound session, a platform whose select reports the descriptor
  -- asked for, and other threads that leave the session sound and the stream there in each wait:
  -- stream_write returns without a failed assertion or a bad pointer, whatever the bytes, and the
  -- session is sound and the stream there.
  pub stream_write-Serving :
      (p : ℕ) (bytes : List ℕ) (n : ℕ) (waits : List (Sys W Q T → Sys W Q T)) (s : Sys W Q T)
      → SelectsOne os
      → All (Minds p) waits
      → Serving p s
      → Returns (λ (_ : Io) t. Serving p t) (stream_write p bytes n waits s)
  unfolding stream_write waits
  stream_write-Serving p bytes n [] s one minds g =
      write_once-Serving p bytes n (pure waiting) s g λ t h. h
  stream_write-Serving p bytes n (f ∷ rest) s one minds g =
      write_once-Serving p bytes n (waits p f to_write (λ k. ltb 0 k) (stream_write p bytes n rest))
        s g
        λ t h.
          waits_lem p f to_write (λ k. ltb 0 k) (stream_write p bytes n rest) t one minds.0
            (λ k e. ground arith) (λ u k. stream_write-Serving p bytes n rest u one minds.1 k) h
