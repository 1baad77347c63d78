-- ===== src/Buffers/Input.antt =====
-- Bytes from the transport (session_recv_buf_write of mux.c) and to it.
use yamux.Common.{
  ℕ, ◌+◌, ◌^◌, ◌<◌, ◌≡◌, ◌⊎◌, refl, ap, sym, subst, false, List, ◌++◌, arith, inl, inr, length,
  take, drop, minus_one, ◌==◌, int_of, length-append, length-take, min,
}
use yamux.Bio.{Buffer, bio_write, bio_consume}
use yamux.Bio.Contents.{contents, IsValid}
use yamux.Bio.Read.{bio_pending_lem, bio_consume_lem, bio_peek_lem}
use yamux.Bio.Write.{bio_write_lem}
use yamux.Os.{Os}
use yamux.Stailq.{Stailq}
use yamux.Tree.{Tree}
use yamux.Frame.{go_away_normal}
use yamux.Send.Calm.{session_go_away_for_reason-Calm}
use yamux.State.{Sys, Code}
use yamux.State.Rules.{Returns}
use yamux.State.Calm.{Calm, Calm-session}
use yamux.Sound.{IsSound}
use yamux.Sound.Store.{input-IsSound}
use yamux.Send.Queue.{unsent}
use yamux.Data.Inside.{unread}
use yamux.Buffers.{
  session_recv_buf_write, session_send_buf_pending, session_send_buf_peek, session_send_buf_consume,
  session_go_away,
}

module _ {W Q T : Type 0} ⦃os : Os W⦄ ⦃sq : Stailq Buffer Q⦄ ⦃tr : Tree T⦄ where
  -- The session is sound, and has the first k of the bytes more to parse.
  pub record Receives (bytes : List ℕ) (k : ℕ) (s s' : Sys W Q T) : Type 0 where
    pub sound : IsSound s'
    pub appended : contents s'.session.recv_buf ≡ contents s.session.recv_buf ++ take k bytes
    pub frame :
        (s'.session.new_frame ≡ s.session.new_frame)
        × (s'.session.frame_remain ≡ s.session.frame_remain)
        × (s'.session.hdr ≡ s.session.hdr)
        × (s'.session.streams ≡ s.session.streams)
    pub send_buf : s'.session.send_buf ≡ s.session.send_buf
    pub heap : s'.heap ≡ s.heap

  -- In a sound session where fewer than 2 ^ 31 bytes would be unread: session_recv_buf_write
  -- returns the count with all bytes appended to what is unread, or -1 with a first part of them
  -- appended; the session is sound, and the frame being received, the header, the tree, the
  -- streams and the send queue are as they were.
  pub session_recv_buf_write_lem :
      (bytes : List ℕ) (s : Sys W Q T)
      → IsSound s
      → unread s + length bytes < 2 ^ 31
      → Returns
          (λ r s'.
            (k : ℕ) × Receives bytes k s s'
            × ((r ≡ length bytes) × (k ≡ length bytes) ⊎ (r ≡ minus_one) × (k < length bytes)))
          (session_recv_buf_write bytes (length bytes) s)
  unfolding session_recv_buf_write
  session_recv_buf_write_lem bytes s v room =
      let n = length bytes in
      let (r, b, w) = bio_write bytes n s.session.recv_buf s.world in
      let (k, le, app, valid, how) =
        bio_write_lem bytes n s.session.recv_buf s.world (omega arith) v.received (omega arith) in
      let bound : length (contents b) < 2 ^ 31 = omega (
        arith,
        ap (length {A = ℕ}) app,
        length-append (contents s.session.recv_buf) (take k bytes),
        length-take k bytes,
        room,
      ) in
      let t : Sys W Q T = record s { session = record s.session { recv_buf = b }; world = w } in
      let receives : Receives bytes k s t = record {
        sound = input-IsSound s b w v valid bound;
        appended = app;
        frame = (refl, refl, refl, refl);
        send_buf = refl;
        heap = refl;
      } in
      elim how [
        | inl (e, all) ↦
            let same : (r == minus_one) ≡ false = ground (arith, e) in
            rw (same) (k, receives, inl (omega arith, all))
        | inr (e, less, al) ↦ rw (e) (k, receives, inr (refl, less))
      ]

  -- Nothing but the send queue has changed.
  abbrev pub OnlyQueue : Sys W Q T → Sys W Q T → Type 0
  OnlyQueue s u = u ≡ record s { session = record s.session { send_buf = u.session.send_buf } }

  -- With a valid send queue, what session_send_buf_peek shows is the first bytes queued and leaves
  -- the session as it was; session_send_buf_consume then takes away the first bytes, as many as
  -- were asked for and are there, returns their number as an int, keeps the queue valid and
  -- changes nothing else: no stream, nothing of the rest of the session, and nothing of the world
  -- outside.
  pub send_buf_lem :
      (n m : ℕ) (s : Sys W Q T)
      → IsValid s.session.send_buf
      → Returns
          (λ r t.
            (t ≡ s)
            × (r.1 ≡ take n (unsent s))
            × Returns
                (λ c u.
                  OnlyQueue s u
                  × IsValid u.session.send_buf
                  × (unsent u ≡ drop m (unsent s))
                  × (c ≡ int_of (min m (length (unsent s)))))
                (session_send_buf_consume m t))
          (session_send_buf_peek n s)
  unfolding session_send_buf_peek session_send_buf_consume
  send_buf_lem n m s v =
      let (count, rest, valid) = bio_consume_lem m s.session.send_buf v in
      rw (bio_peek_lem n s.session.send_buf v) (refl, refl, (refl, valid, rest, count))

  pub session_send_buf_consume-Calm :
      (n : ℕ) (s : Sys W Q T) → Returns (λ (_ : ℕ) t. Calm s t) (session_send_buf_consume n s)
  unfolding session_send_buf_consume
  session_send_buf_consume-Calm n s =
      Calm-session s s.session.local_go_away s.session.remote_go_away s.session.next_id
        (bio_consume n s.session.send_buf).1 s.world

  pub session_go_away-Calm :
      (s : Sys W Q T) → Returns (λ (_ : Code) t. Calm s t) (session_go_away s)
  unfolding session_go_away
  session_go_away-Calm s = session_go_away_for_reason-Calm s go_away_normal

  pub OnlyQueue-Calm : (s u : Sys W Q T) → OnlyQueue s u → Calm s u
  OnlyQueue-Calm s u e = subst (Calm s) (sym e) (
      Calm-session s s.session.local_go_away s.session.remote_go_away s.session.next_id
        u.session.send_buf s.world)

  pub session_send_buf_pending_lem :
      (s : Sys W Q T)
      → IsValid s.session.send_buf
      → Returns (λ r t. (r ≡ int_of (length (unsent s))) × (t ≡ s)) (session_send_buf_pending s)
  unfolding session_send_buf_pending
  session_send_buf_pending_lem s v = (bio_pending_lem s.session.send_buf v, refl)
