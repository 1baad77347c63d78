-- ===== src/Life.antt =====
-- The life of a session: the calls of mux.h in any order, from session_init on.
use yamux.Common.{
  ℕ, ◌+◌, ◌^◌, ◌≤◌, ◌<◌, ◌≡◌, ◌⊎◌, refl, ap, Bool, Option, none, some, List, [], arith, inl, inr,
  length, minus_one, ◌∙◌, subst,
}
use yamux.Bio.{Buffer, bio_pending}
use yamux.Bio.Read.{bio_pending_lem}
use yamux.Bio.Contents.{contents}
use yamux.Os.{Os}
use yamux.Stailq.{Stailq}
use yamux.Tree.{Tree}
use yamux.State.{Session, Stream, Sys, Code, success, failure}
use yamux.State.Calm.{Calm}
use yamux.State.Rules.{Returns}
use yamux.Streams.{max_stream_window_size}
use yamux.Send.Calm.{WritesWhole}
use yamux.Sound.{IsSound}
use yamux.Sound.Keep.{Calm-IsSound}
use yamux.Data.Inside.{unread}
use yamux.Process.{Outcome, returned, session_process}
use yamux.Process.Total.{Ended, Idle, session_process_lem}
use yamux.Buffers.{session_recv_buf_write, session_send_buf_consume, session_go_away}
use yamux.Buffers.Input.{
  Receives, session_recv_buf_write_lem, session_send_buf_consume-Calm, session_go_away-Calm,
}
use yamux.Io.{Io, stream_read, stream_write}
use yamux.Io.Safe.{SelectsOne, Serving}
use yamux.Io.Whole.{stream_read-Serving, stream_write-Serving}
use yamux.Open.{session_init, session_open, session_accept}
use yamux.Open.Init.{alone, session_init_lem}
use yamux.Open.Safe.{HasOpenableIds, Opens, session_open_lem}
use yamux.Incoming.Safe.{Steady}
use yamux.Open.Accept.{Announced, session_accept-Steady}

module _ {W Q T : Type 0} ⦃os : Os W⦄ ⦃sq : Stailq Buffer Q⦄ ⦃tr : Tree T⦄ where
  -- A call by the owner of the connection or by a user, and the system after it. The connection is
  -- given up once session_process returns -1. A read or a write that waits is one that is made
  -- again later.
  pub data Step (s s' : Sys W Q T) : Type 0 where
    arrives :
        (bytes : List ℕ) (r : ℕ)
        → unread s + length bytes < 2 ^ 31
        → session_recv_buf_write bytes (length bytes) s ≡ some (r, s')
        → Step s s'
    processes : session_process s ≡ some (returned success, s') → Step s s'
    departs : (n r : ℕ) → session_send_buf_consume n s ≡ some (r, s') → Step s s'
    goes_away : (c : Code) → session_go_away s ≡ some (c, s') → Step s s'
    opens :
        (r : Option ℕ)
        → s.session.next_id < 2 ^ 32
        → HasOpenableIds s
        → session_open [] s ≡ some (r, s')
        → Step s s'
    accepts : (r : Option ℕ) → Announced s → session_accept s ≡ some (r, s') → Step s s'
    reads :
        (id p size : ℕ) (io : Io)
        → tr.find id s.session.streams ≡ some p
        → 0 < size
        → stream_read p size [] s ≡ some (io, s')
        → Step s s'
    writes :
        (id p : ℕ) (bytes : List ℕ) (n : ℕ) (io : Io)
        → tr.find id s.session.streams ≡ some p
        → stream_write p bytes n [] s ≡ some (io, s')
        → Step s s'

  -- The systems that come from session_init.
  pub data Reach (client : Bool) : Sys W Q T → Type 0 where
    begins :
        (w : W) (x : Session Q T)
        → (session_init client w).0 ≡ some x
        → Reach client (alone x (session_init {Q = Q} {T = T} client w).1)
    goes_on : {s s' : Sys W Q T} → Reach client s → Step s s' → Reach client s'

  abbrev outcome :
      {A : Type 0} {o : Option (A × Sys W Q T)} {a : A} {s : Sys W Q T} (R : A → Sys W Q T → Type 0)
      → o ≡ some (a, s)
      → Returns R o
      → R a s
  outcome R e h = subst (Returns R) e h

  served :
      (id p : ℕ) (s : Sys W Q T) → IsSound s → tr.find id s.session.streams ≡ some p → Serving p s
  served id p s v e =
      let (x, live, ix) = v.found id p e in record { sound = v; stream = x; here = live }

  Step-IsSound :
      (s s' : Sys W Q T) → WritesWhole os → SelectsOne os → IsSound s → Step s s' → IsSound s'
  Step-IsSound s s' whole one v (arrives bytes r room e) =
      (outcome
        (λ r t.
          (k : ℕ) × Receives bytes k s t
          × ((r ≡ length bytes) × (k ≡ length bytes) ⊎ (r ≡ minus_one) × (k < length bytes)))
        e (session_recv_buf_write_lem bytes s v room)).1.sound
  Step-IsSound s s' whole one v (processes e) =
      elim (outcome Ended e (session_process_lem s whole v)) [
        | inl f ↦ absurd (ground arith)
        | inr (f, w, idle) ↦ w
      ]
  Step-IsSound s s' whole one v (departs n r e) =
      Calm-IsSound s s' (outcome (λ (_ : ℕ) t. Calm s t) e (session_send_buf_consume-Calm n s)) v
  Step-IsSound s s' whole one v (goes_away c e) =
      Calm-IsSound s s' (outcome (λ (_ : Code) t. Calm s t) e (session_go_away-Calm s)) v
  Step-IsSound s s' whole one v (opens r word free e) =
      (outcome (λ o t. Opens [] o s t) e (session_open_lem [] s tt tt v word free)).steady.sound
  Step-IsSound s s' whole one v (accepts r told e) =
      (outcome (λ (_ : Option ℕ) t. Steady s t) e (session_accept-Steady s v told)).sound
  Step-IsSound s s' whole one v (reads id p size io f pos e) =
      (outcome (λ (_ : Io) t. Serving p t) e
        (stream_read-Serving p size [] s one tt pos (served id p s v f))).sound
  Step-IsSound s s' whole one v (writes id p bytes n io f e) =
      (outcome (λ (_ : Io) t. Serving p t) e
        (stream_write-Serving p bytes n [] s one tt (served id p s v f))).sound

  pub Reach-IsSound :
      (client : Bool) (s : Sys W Q T) → WritesWhole os → SelectsOne os → Reach client s → IsSound s
  Reach-IsSound client s whole one (begins w x made) = (session_init_lem client w x made).sound
  Reach-IsSound client s whole one (goes_on {s = t} r step) =
      Step-IsSound t s whole one (Reach-IsSound client t whole one r) step

  -- In a session that came from session_init by any sequence of calls (bytes from the peer while
  -- fewer than 2 ^ 31 are unread, session_process as long as it returns 0,
  -- session_send_buf_consume, session_go_away, session_open with a next id of 32 bits where no id
  -- of its parity from the next one on is that of a stream in the tree or of a data frame that is
  -- being received, session_accept where the read fails or gives the four bytes of the id of a
  -- stream that is in the tree, stream_read for at least one byte and stream_write on streams of
  -- the tree, neither waiting), on a platform that takes a write of four bytes whole or fails it
  -- and whose select reports the descriptor asked for: the bytes that a stream holds and those
  -- that its peer may still send are together at most 256 KiB, so the int that bio_pending returns
  -- for it is the number of bytes it holds, and fewer than 2 ^ 31 bytes are unread.
  pub Reach-max_stream_window_size :
      (client : Bool) (s : Sys W Q T) (p : ℕ) (x : Stream Q)
      → WritesWhole os
      → SelectsOne os
      → Reach client s
      → s.heap p ≡ some x
      → (x.recv_window + length (contents x.recv_buf) ≤ max_stream_window_size)
        × (bio_pending x.recv_buf ≡ length (contents x.recv_buf))
        × (unread s < 2 ^ 31)
  Reach-max_stream_window_size client s p x whole one r live =
      let v = Reach-IsSound client s whole one r in
      let win = v.windowed p x live in
      (
        win.promised,
        bio_pending_lem x.recv_buf win.buffered ∙ omega (arith, win.promised),
        v.fits_int,
      )

  -- The end of a run, and that it was reached by the session's calls.
  abbrev pub Goes : Bool → Outcome → Sys W Q T → Type 0
  Goes client o t = (o ≡ returned failure) ⊎ (o ≡ returned success) × Reach client t × Idle t

  Ended-Goes :
      (client : Bool) (s : Sys W Q T) (o : Option (Outcome × Sys W Q T))
      → Reach client s
      → session_process s ≡ o
      → Returns Ended o
      → Returns (Goes client) o
  Ended-Goes client s none r e h = h
  Ended-Goes client s (some (o, t)) r e (inl f) = inl f
  Ended-Goes client s (some (o, t)) r e (inr (f, v, idle)) =
      inr (f, goes_on r (processes (e ∙ ap (λ c. some (c, t)) f)), idle)

  -- In a session that came from session_init by any sequence of calls (bytes from the peer while
  -- fewer than 2 ^ 31 are unread, session_process as long as it returns 0,
  -- session_send_buf_consume, session_go_away, session_open with a next id of 32 bits where no id
  -- of its parity from the next one on is that of a stream in the tree or of a data frame that is
  -- being received, session_accept where the read fails or gives the four bytes of the id of a
  -- stream that is in the tree, stream_read for at least one byte and stream_write on streams of
  -- the tree, neither waiting), on a platform that takes a write of four bytes whole or fails it
  -- and whose select reports the descriptor asked for: session_process comes to an end, no
  -- assertion fails and no bad pointer is read, and it returns -1, or 0 with nothing left to parse
  -- but, perhaps, a part of a header, and the session can go on.
  pub Reach-session_process :
      (client : Bool) (s : Sys W Q T)
      → WritesWhole os
      → SelectsOne os
      → Reach client s
      → Returns (Goes client) (session_process s)
  Reach-session_process client s whole one r =
      Ended-Goes client s (session_process s) r refl
        (session_process_lem s whole (Reach-IsSound client s whole one r))
