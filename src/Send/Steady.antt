-- ===== src/Send/Steady.antt =====
-- Window updates (send_window_update of mux.c) in a sound session, whatever room there is.
use yamux.Common.{
  ℕ, ◌/◌, ◌≤◌, ◌≡◌, ◌≢◌, refl, ap, ◌∙◌, List, Option, some, arith, inl, inr, length, ◌==◌, ◌&&◌,
  ltb, Bool-cases, add32, sub32,
}
use yamux.Bio.{Buffer, bio_pending}
use yamux.Bio.Contents.{contents}
use yamux.Bio.Read.{bio_pending_lem}
use yamux.Os.{Os}
use yamux.Stailq.{Stailq}
use yamux.Tree.{Tree}
use yamux.Frame.{hdr_size}
use yamux.State.{Stream, Sys, Code, update}
use yamux.State.Rules.{Returns, Returns-map, Returns-both}
use yamux.State.Calm.{Calm, Calm-SameInput}
use yamux.Streams.{max_stream_window_size}
use yamux.Sound.{IsWindowed, IsSound}
use yamux.Sound.Keep.{Calm-IsSound}
use yamux.Sound.Store.{store-IsSound}
use yamux.Incoming.Safe.{Steady}
use yamux.Send.{flags_of, sent_state, stream_send_flags, session_send_buf_write, send_window_update}
use yamux.Send.Calm.{session_send_buf_write-Calm}
use yamux.Send.Window.{spare, update_frame}

module _ {W Q T : Type 0} ⦃os : Os W⦄ ⦃sq : Stailq Buffer Q⦄ ⦃tr : Tree T⦄ where
  -- The session stays sound, the stream at p keeps what it holds, in the state that sending its
  -- flags leads to and with a window that is no smaller, and no other stream changes.
  pub record Offers (p : ℕ) (x : Stream Q) (s s' : Sys W Q T) : Type 0 where
    pub steady : Steady s s'
    pub streams : s'.session.streams ≡ s.session.streams
    pub stream : Stream Q
    pub here : s'.heap p ≡ some stream
    pub buffer : stream.recv_buf ≡ x.recv_buf
    pub same_id : stream.id ≡ x.id
    pub state : stream.state ≡ sent_state x.state
    pub send_window : stream.send_window ≡ x.send_window
    pub window : x.recv_window ≤ stream.recv_window
    pub others : (q : ℕ) → q ≢ p → s'.heap q ≡ s.heap q

  Offers-Calm :
      (p : ℕ) (x z : Stream Q) (s s' : Sys W Q T) (heap : ℕ → Option (Stream Q))
      → IsSound (record s { heap = heap })
      → heap p ≡ some z
      → z.recv_buf ≡ x.recv_buf
      → z.id ≡ x.id
      → z.state ≡ sent_state x.state
      → z.send_window ≡ x.send_window
      → x.recv_window ≤ z.recv_window
      → ((q : ℕ) → q ≢ p → heap q ≡ s.heap q)
      → Calm (record s { heap = heap }) s'
      → s'.heap ≡ heap
      → Offers p x s s'
  Offers-Calm p x z s s' heap v e b i st sw le others c whole =
      let t : Sys W Q T = record s { heap = heap } in
      let same = Calm-SameInput t s' c in
      record {
        steady = record {
          sound = Calm-IsSound t s' c v;
          input = record {
            recv_buf = same.recv_buf;
            new_frame = same.new_frame;
            frame_remain = same.frame_remain;
            hdr = same.hdr;
          };
        };
        streams = c.streams;
        stream = z;
        here = ap (λ (h : ℕ → Option (Stream Q)). h p) whole ∙ e;
        buffer = b;
        same_id = i;
        state = st;
        send_window = sw;
        window = le;
        others = λ q other. ap (λ (h : ℕ → Option (Stream Q)). h q) whole ∙ others q other;
      }

  session_send_buf_write_heap :
      (bytes : List ℕ) (n : ℕ) (s : Sys W Q T)
      → Returns (λ (_ : Code) t. t.heap ≡ s.heap) (session_send_buf_write bytes n s)
  unfolding session_send_buf_write
  session_send_buf_write_heap bytes n s = refl

  pub send_window_update-Offers :
      (p : ℕ) (x : Stream Q) (s : Sys W Q T)
      → IsSound s
      → s.heap p ≡ some x
      → Returns (λ (_ : Code) s'. Offers p x s s') (send_window_update p s)
  unfolding send_window_update stream_send_flags
  send_window_update-Offers p x s v live =
      let win = v.windowed p x live in
      let y = record x { state = sent_state x.state } in
      let h1 = update s.heap p (some y) in
      let s1 : Sys W Q T = record s { heap = h1 } in
      let here : h1 p ≡ some y = ground arith in
      let n = length (contents x.recv_buf) in
      let held : bio_pending x.recv_buf ≡ n =
        bio_pending_lem x.recv_buf win.buffered ∙ omega (arith, win.promised) in
      let exact : sub32 (sub32 max_stream_window_size (bio_pending x.recv_buf)) x.recv_window
          ≡ spare x =
        omega (arith, held, win.promised) in
      let z = record y { recv_window = add32 x.recv_window (spare x) } in
      let s2 : Sys W Q T = record s { heap = update h1 p (some z) } in
      let win1 : IsWindowed y = record { buffered = win.buffered; promised = win.promised } in
      let v1 : IsSound s1 = store-IsSound s p x y v live refl (omega arith) win1 in
      elim (Bool-cases (ltb (spare x) (max_stream_window_size / 2) && flags_of x.state == 0)) [
        | inl e ↦
            rw (live, Returns, here, exact, e)
              (record {
                steady = record {
                  sound = v1;
                  input = record {
                    recv_buf = refl;
                    new_frame = refl;
                    frame_remain = refl;
                    hdr = refl;
                  };
                };
                streams = refl;
                stream = y;
                here = here;
                buffer = refl;
                same_id = refl;
                state = refl;
                send_window = refl;
                window = omega arith;
                others = λ q other. ground arith;
              })
        | inr e ↦
            let win2 : IsWindowed z = record {
              buffered = win.buffered;
              promised = omega (arith, win.promised);
            } in
            let v2 : IsSound s2 =
              store-IsSound s1 p y z v1 here refl (omega (arith, win.promised)) win2 in
            rw (live, Returns, here, exact, e)
              (Returns-map (λ (_ : Code) u. Calm s2 u × (u.heap ≡ s2.heap))
                (λ (_ : Code) u. Offers p x s u)
                (session_send_buf_write (update_frame x) hdr_size s2)
                (Returns-both (λ (_ : Code) u. Calm s2 u) (λ (_ : Code) u. u.heap ≡ s2.heap)
                  (session_send_buf_write (update_frame x) hdr_size s2)
                  (session_send_buf_write-Calm s2 (update_frame x) hdr_size)
                  (session_send_buf_write_heap (update_frame x) hdr_size s2))
                λ c u (k, whole).
                  Offers-Calm p x z s u (update h1 p (some z)) v2 (ground arith) refl refl refl refl
                    (omega (arith, win.promised)) (λ q other. ground arith) k whole)
      ]
