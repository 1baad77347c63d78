-- ===== src/Data/Starts.antt =====
-- How session_handle_data (mux.c) begins a frame that is in order.
use yamux.Common.{
  ℕ, ◌≤◌, ◌<◌, ◌≡◌, ◌≢◌, refl, sym, ◌∙◌, ap, true, false, none, some, arith, ◌==◌, ltb,
}
use yamux.Bio.{Buffer}
use yamux.Os.{Os}
use yamux.Stailq.{Stailq}
use yamux.Tree.{Tree}
use yamux.Frame.{type_data, hdr_type, hdr_length, hdr_flags, has_flag, flag_syn}
use yamux.State.{State, Stream, Session, Sys, success}
use yamux.State.Rules.{Returns, Returns-bind}
use yamux.State.Calm.{Calm-live, SameCore}
use yamux.State.Signals.{sending}
use yamux.Sound.{IsSound, target}
use yamux.Sound.Keep.{Calm-IsSound}
use yamux.Flags.{stream_process_flags}
use yamux.Flags.Step.{Settles, after_flags}
use yamux.Flags.Process.{stream_process_flags_lem}
use yamux.Incoming.{open_if_syn}
use yamux.Data.Inside.{InLoop, one_value}
use yamux.Data.Begin.{start_frame_lem}
use yamux.Data.{check_frame, start_frame, begin_frame}

module _ {W Q T : Type 0} ⦃os : Os W⦄ ⦃sq : Stailq Buffer Q⦄ ⦃tr : Tree T⦄ where
  -- The flags are in order and the window is kept to.
  check_frame_passes :
      (p : ℕ) (x : Stream Q) (s : Sys W Q T)
      → s.heap p ≡ some x
      → (after_flags (hdr_flags s.session.hdr) x.state).0 ≡ success
      → 0 < hdr_length s.session.hdr
      → hdr_length s.session.hdr ≤ x.recv_window
      → Returns
          (λ m u. (m ≡ none) × Settles p (after_flags (hdr_flags s.session.hdr) x.state).1 s u)
          (check_frame p s)
  unfolding check_frame
  check_frame_passes p x s live fine pos fits =
      let flags = hdr_flags s.session.hdr in
      let (code, b) = after_flags flags x.state in
      let more : (hdr_length s.session.hdr == 0) ≡ false = ground arith in
      Returns-bind (λ c t. (c ≡ code) × Settles p b s t) (λ m u. (m ≡ none) × Settles p b s u)
        (stream_process_flags p flags s) _ (stream_process_flags_lem p flags s x live)
        λ c t (e, h).
          let (y, here, core) = Calm-live s t p h.calm live in
          let room : ltb y.recv_window (hdr_length s.session.hdr) ≡ false =
            ground (arith, core.1) in
          rw (e ∙ fine, Returns, more, here, room) (refl, h)

  -- Inside the frame, the stream at p in the state b, with everything else as it was.
  pub record Starts (p : ℕ) (b : State) (s t : Sys W Q T) : Type 0 where
    pub loop : InLoop t
    pub recv_buf : t.session.recv_buf ≡ s.session.recv_buf
    pub remain : t.session.frame_remain ≡ hdr_length s.session.hdr
    pub aimed : target t ≡ target s
    pub streams : t.session.streams ≡ s.session.streams
    pub heap : (q : ℕ) → SameCore (s.heap q) (t.heap q)
    pub hdr : t.session.hdr ≡ s.session.hdr
    pub send_buf : t.session.send_buf ≡ s.session.send_buf
    pub stream : Stream Q
    pub here : t.heap p ≡ some stream
    pub state : stream.state ≡ b
    pub others : (q : ℕ) → q ≢ p → sending (t.heap q) ≡ sending (s.heap q)

  pub begin_frame_passes :
      (p : ℕ) (x : Stream Q) (s : Sys W Q T)
      → IsSound s
      → target s ≡ some p
      → s.heap p ≡ some x
      → s.session.new_frame ≡ true
      → hdr_type s.session.hdr ≡ type_data
      → (after_flags (hdr_flags s.session.hdr) x.state).0 ≡ success
      → 0 < hdr_length s.session.hdr
      → hdr_length s.session.hdr ≤ x.recv_window
      → Returns
          (λ m t. (m ≡ none) × Starts p (after_flags (hdr_flags s.session.hdr) x.state).1 s t)
          (begin_frame (some p) s)
  unfolding begin_frame start_frame
  begin_frame_passes p x s v aim live new kind fine pos fits = simp (new) (
      Returns-bind
        (λ m u. (m ≡ none) × Settles p (after_flags (hdr_flags s.session.hdr) x.state).1 s u)
        (λ m t. (m ≡ none) × Starts p (after_flags (hdr_flags s.session.hdr) x.state).1 s t)
        (check_frame p s) _ (check_frame_passes p x s live fine pos fits)
        λ m u (e, h).
          let c = h.calm in
          let w = Calm-IsSound s u c v in
          let room : (q : ℕ) (z : Stream Q)
              → target u ≡ some q
              → u.heap q ≡ some z
              → hdr_length u.session.hdr ≤ z.recv_window =
            λ q z a at_q.
              let aimed : target s ≡ some q = rw (c.hdr, c.streams) at a in
              let same : q ≡ p = one_value (target s) q p aimed aim in
              let (y, here, core) = Calm-live s u p c live in
              let one = one_value (u.heap p) y z here (ap u.heap (sym same) ∙ at_q) in
              omega (
                arith,
                fits,
                core.1,
                ap hdr_length c.hdr,
                ap (λ (z : Stream Q). z.recv_window) one,
              ) in
          rw (e, Returns)
            (
              refl,
              record {
                loop = (start_frame_lem u w (ap hdr_type c.hdr ∙ kind) room).0;
                recv_buf = c.recv_buf;
                remain = ap hdr_length c.hdr;
                aimed = rw (c.hdr, c.streams) refl;
                streams = c.streams;
                heap = c.heap;
                hdr = c.hdr;
                send_buf = ap (λ (k : Session Q T). k.send_buf) h.session;
                stream = h.stream;
                here = h.here;
                state = h.in_state;
                others = h.others;
              },
            ))

  pub open_if_syn_plain :
      (s : Sys W Q T)
      → has_flag (hdr_flags s.session.hdr) flag_syn ≡ false
      → Returns (λ c t. (c ≡ success) × (t ≡ s)) (open_if_syn s)
  unfolding open_if_syn
  open_if_syn_plain s plain = rw (plain, Returns) (refl, refl)
