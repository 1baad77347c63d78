-- ===== src/Data/Deliver.antt =====
-- session_handle_data (mux.c) for a stream that is there: what there is of the frame reaches it.
use yamux.Common.{ℕ, ◌≤◌, ◌<◌, ◌≡◌, subst, sym, ap, ◌∙◌, true, false, none, some}
use yamux.Bio.{Buffer}
use yamux.Os.{Os}
use yamux.Stailq.{Stailq}
use yamux.Tree.{Tree}
use yamux.Frame.{type_data, hdr_type, hdr_length, hdr_flags, hdr_stream_id, has_flag, flag_syn}
use yamux.State.{State, Stream, Sys, Code, success}
use yamux.State.Rules.{Returns, Returns-bind, Returns-map}
use yamux.State.Calm.{SameCore}
use yamux.State.Signals.{Alike-trans}
use yamux.Sound.{IsSound, target}
use yamux.Streams.Find.{after_find}
use yamux.Flags.Step.{after_flags}
use yamux.Incoming.{open_if_syn}
use yamux.Data.Inside.{one_value, same_live, IsSound-InLoop}
use yamux.Data.Begin.{begin_frame_mid}
use yamux.Data.Starts.{Starts, begin_frame_passes, open_if_syn_plain}
use yamux.Data.Tells.{Works}
use yamux.Data.{begin_frame, receive_data, session_handle_data}
use yamux.Data.Receive.{Delivered, receive_data-Delivered}

module _ {W Q T : Type 0} ⦃os : Os W⦄ ⦃sq : Stailq Buffer Q⦄ ⦃tr : Tree T⦄ where
  -- Steps before the frame's bytes are read do not matter.
  Starts-Delivered :
      (p total : ℕ) (b : State) (x y : Stream Q) (s u s' : Sys W Q T)
      → Starts p b s u
      → u.heap p ≡ some y
      → SameCore (some x) (some y)
      → Delivered p total y.state y u s'
      → Delivered p total b x s s'
  Starts-Delivered p total b x y s u s' h here core d = record {
    sound = d.sound;
    stream = d.stream;
    here = d.here;
    appended = rw (h.recv_buf, sym core.2) at d.appended;
    state =
        d.state
        ∙ ap (λ (z : Stream Q). z.state) (one_value (u.heap p) y h.stream here h.here)
        ∙ h.state;
    window = rw (h.recv_buf, sym core.1) at d.window;
    told = rw (h.recv_buf) at d.told;
    left = rw (h.recv_buf) at d.left;
    framing = rw (h.recv_buf) at d.framing;
    streams = d.streams ∙ h.streams;
    hdr = d.hdr ∙ h.hdr;
    send_buf = d.send_buf ∙ h.send_buf;
    others = λ q other.
        Alike-trans (s.heap q) (u.heap q) (s'.heap q) (h.heap q, h.others q other)
          (d.others q other);
  }

  -- A data frame that comes for the stream at p, x before: a new one without a SYN, with flags in
  -- order and as many bytes as the window allows, or one that goes on; the state that it leads to
  -- and the bytes to come.
  pub data Comes (x : Stream Q) (s : Sys W Q T) : State → ℕ → Type 0 where
    new_frame :
        s.session.new_frame ≡ true
        → has_flag (hdr_flags s.session.hdr) flag_syn ≡ false
        → (after_flags (hdr_flags s.session.hdr) x.state).0 ≡ success
        → 0 < hdr_length s.session.hdr
        → hdr_length s.session.hdr ≤ x.recv_window
        → Comes x s (after_flags (hdr_flags s.session.hdr) x.state).1 (hdr_length s.session.hdr)
    more_of_it : s.session.new_frame ≡ false → Comes x s x.state s.session.frame_remain

  -- In a sound session with a data frame for a stream that is there (a new one without a SYN, with
  -- flags in order and at least one byte and at most as many as the window, or one that goes on),
  -- on a platform with memory whose sockets take a byte: session_handle_data returns 0; what there
  -- is of the frame is appended to the bytes of the stream and taken from the input, the stream is
  -- in the state that the flags lead to, the window is smaller by as many, it is said to be
  -- readable if there was a byte, nothing is sent, no other stream changes but in readiness, and
  -- the session is sound and between two frames if the frame was there whole, or has the rest of
  -- it to come.
  pub session_handle_data-Delivered :
      (p : ℕ) (x : Stream Q) (s : Sys W Q T) (b : State) (total : ℕ)
      → Works os
      → IsSound s
      → hdr_type s.session.hdr ≡ type_data
      → target s ≡ some p
      → s.heap p ≡ some x
      → Comes x s b total
      → Returns (λ c s'. (c ≡ success) × Delivered p total b x s s') (session_handle_data s)
  unfolding session_handle_data
  session_handle_data-Delivered p x s _ total works v kind aim live (more_of_it mid) =
      let R : Code → Sys W Q T → Type 0 =
        λ c s'. (c ≡ success) × Delivered p s.session.frame_remain x.state x s s' in
      simp (mid) (
        after_find R _ (hdr_stream_id s.session.hdr) s v (
          Returns-bind (λ m u. (m ≡ none) × (u ≡ s)) R (begin_frame (target s) s) _
            (begin_frame_mid (target s) s mid)
            λ m u (e, same).
              rw (e, same)
                (subst (λ f. Returns R (receive_data f s)) (sym aim)
                  (receive_data-Delivered p x s works (IsSound-InLoop s v mid) aim live))))
  session_handle_data-Delivered p x s _ total works v kind aim live
        (new_frame new plain fine pos fits) =
      let b = (after_flags (hdr_flags s.session.hdr) x.state).1 in
      let R : Code → Sys W Q T → Type 0 =
        λ c s'. (c ≡ success) × Delivered p (hdr_length s.session.hdr) b x s s' in
      simp (new) (
        Returns-bind (λ c t. (c ≡ success) × (t ≡ s)) R (open_if_syn s) _
          (open_if_syn_plain s plain)
          λ c t (ok, same).
            rw (ok, same)
              (after_find R _ (hdr_stream_id s.session.hdr) s v (
                rw (aim) (
                  Returns-bind (λ m u. (m ≡ none) × Starts p b s u) R (begin_frame (some p) s) _
                    (begin_frame_passes p x s v aim live new kind fine pos fits)
                    λ m u (e, h).
                      rw (e, aim)
                        (let (y, here, core) = same_live (s.heap p) (u.heap p) x (h.heap p) live in
                          Returns-map
                            (λ c s'.
                              (c ≡ success) × Delivered p u.session.frame_remain y.state y u s')
                            R (receive_data (some p) u)
                            (receive_data-Delivered p y u works h.loop (h.aimed ∙ aim) here)
                            λ c s' (ok, d). (
                              ok,
                              Starts-Delivered p (hdr_length s.session.hdr) b x y s u s' h here core
                                  (subst (λ n. Delivered p n y.state y u s') h.remain d),
                            ))))))
