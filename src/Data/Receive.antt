-- ===== src/Data/Receive.antt =====
-- receive_data (mux.c) for a stream that is there: what there is of the frame reaches it.
use yamux.Common.{
  ℕ, ◌+◌, ◌≤◌, ◌<◌, ◌≡◌, ◌≢◌, ◌⊎◌, refl, true, false, some, ◌++◌, arith, inl, inr, min, take, drop,
  ◌==◌, Bool-cases, if◌then◌else◌,
}
use yamux.Bio.{Buffer}
use yamux.Bio.Contents.{contents}
use yamux.Os.{Os}
use yamux.Stailq.{Stailq}
use yamux.Tree.{Tree}
use yamux.State.{
  State, Stream, Sys, M, Code, success, failure, ◌>>=◌, ◌>>◌, pure, get_session, put_session,
}
use yamux.State.Rules.{Returns, Returns-bind}
use yamux.State.Signals.{Alike, Alike-equal}
use yamux.Sound.{IsSound, target}
use yamux.Data.Inside.{InLoop, unread, InLoop-ended, InLoop-IsSound}
use yamux.Data.Tells.{Works}
use yamux.Data.Content.{Given, data_loop-Given}
use yamux.Data.{data_loop, receive_data}

module _ {W Q T : Type 0} ⦃sq : Stailq Buffer Q⦄ ⦃tr : Tree T⦄ where
  -- Of a frame with `total` bytes to come, the stream at p, x before and in the state b now, has
  -- received what there is, and its reader has been told; the rest is still to come.
  pub record Delivered (p total : ℕ) (b : State) (x : Stream Q) (s s' : Sys W Q T) : Type 0 where
    pub sound : IsSound s'
    pub stream : Stream Q
    pub here : s'.heap p ≡ some stream
    pub appended :
        contents stream.recv_buf
        ≡ contents x.recv_buf ++ take (min total (unread s)) (contents s.session.recv_buf)
    pub state : stream.state ≡ b
    pub window : stream.recv_window + min total (unread s) ≡ x.recv_window
    pub told : 0 < min total (unread s) → stream.readable ≡ true
    pub left :
        contents s'.session.recv_buf ≡ drop (min total (unread s)) (contents s.session.recv_buf)
    pub framing :
        (s'.session.new_frame ≡ true) × (total ≤ unread s)
        ⊎ (s'.session.new_frame ≡ false)
          × (unread s < total)
          × (s'.session.frame_remain + unread s ≡ total)
    pub streams : s'.session.streams ≡ s.session.streams
    pub hdr : s'.session.hdr ≡ s.session.hdr
    pub send_buf : s'.session.send_buf ≡ s.session.send_buf
    pub others : (q : ℕ) → q ≢ p → Alike (s.heap q) (s'.heap q)

module _ {W Q T : Type 0} ⦃os : Os W⦄ ⦃sq : Stailq Buffer Q⦄ ⦃tr : Tree T⦄ where
  -- After the loop.
  abbrev after_loop : Code → M W Q T Code
  after_loop failure = pure failure
  after_loop success = do
    session' ← get_session
    if session'.frame_remain == 0
        then put_session (record session' { new_frame = true })
        else pure tt
    pure success

  after_loop_lem :
      (p : ℕ) (x : Stream Q) (s t : Sys W Q T)
      → Given p (min s.session.frame_remain (unread s)) x s t
      → Returns
          (λ c s'. (c ≡ success) × Delivered p s.session.frame_remain x.state x s s')
          (after_loop success t)
  after_loop_lem p x s t g = elim (Bool-cases (t.session.frame_remain == 0)) [
    | inl e ↦
        rw (e, Returns)
          (
            refl,
            record {
              sound = InLoop-ended t g.loop;
              stream = g.stream;
              here = g.here;
              appended = g.appended;
              state = g.state;
              window = g.window;
              told = λ pos. g.told (inr pos);
              left = g.left;
              framing = inl (refl, ground (arith, g.remain));
              streams = g.streams;
              hdr = g.hdr;
              send_buf = g.send_buf;
              others = λ q other. Alike-equal (s.heap q) (t.heap q) (g.others q other);
            },
          )
    | inr e ↦
        rw (e, Returns)
          (
            refl,
            record {
              sound = InLoop-IsSound t g.loop (ground arith);
              stream = g.stream;
              here = g.here;
              appended = g.appended;
              state = g.state;
              window = g.window;
              told = λ pos. g.told (inr pos);
              left = g.left;
              framing = inr (g.loop.mid, ground (arith, g.remain), ground (arith, g.remain));
              streams = g.streams;
              hdr = g.hdr;
              send_buf = g.send_buf;
              others = λ q other. Alike-equal (s.heap q) (t.heap q) (g.others q other);
            },
          )
  ]

  pub receive_data-Delivered :
      (p : ℕ) (x : Stream Q) (s : Sys W Q T)
      → Works os
      → InLoop s
      → target s ≡ some p
      → s.heap p ≡ some x
      → Returns
          (λ c s'. (c ≡ success) × Delivered p s.session.frame_remain x.state x s s')
          (receive_data (some p) s)
  unfolding receive_data
  receive_data-Delivered p x s works v aim live =
      Returns-bind (λ c t. (c ≡ success) × Given p (min s.session.frame_remain (unread s)) x s t)
        (λ c s'. (c ≡ success) × Delivered p s.session.frame_remain x.state x s s')
        (data_loop s.session.frame_remain (some p) s) after_loop
        (data_loop-Given s.session.frame_remain p x s works (omega arith) v aim live)
        λ c t (ok, g). rw (ok) (after_loop_lem p x s t g)
