-- ===== src/Io/Memory.antt =====
-- stream_write (mux.c) on a platform with memory.
use yamux.Common.{
  ℕ, ◌<◌, ◌≡◌, refl, ap, ◌∙◌, sym, subst, false, some, Option, List, [], arith, true, sub32,
  minus_one, ◌==◌, int_of,
}
use yamux.Bio.{Buffer, bio_write, min_of}
use yamux.Bio.Memory.{bio_write_whole}
use yamux.Os.{Os, Block}
use yamux.Stailq.{Stailq}
use yamux.Tree.{Tree}
use yamux.Frame.{hdr_encode, hdr_size, type_data, go_away_internal_err}
use yamux.State.{State, Stream, Sys, Code, success, failure, pure, update}
use yamux.State.Rules.{Returns, Returns-bind}
use yamux.Send.{
  session_send_buf_write, session_go_away_for_reason, stream_send_flags, flags_of, sent_state,
}
use yamux.Send.Queue.{stream_send_flags_lem}
use yamux.Send.Calm.{session_go_away_for_reason-Calm}
use yamux.State.Calm.{Calm}
use yamux.State.Signals.{Signals}
use yamux.Io.Finish.{after_body, closing, signal, signal-Signals}
use yamux.Io.Written.{after_hdr, after_send_flags}
use yamux.Io.{Io, count, write_gate, write_ready, write_once, stream_write}

module _ {W Q T : Type 0} ⦃os : Os W⦄ ⦃sq : Stailq Buffer Q⦄ where
  -- If no malloc fails, the bytes are queued.
  pub session_send_buf_write_whole :
      (bytes : List ℕ) (n : ℕ) (s : Sys W Q T)
      → ((b : Block) (w : W) → (os.malloc b w).0 ≡ true)
      → n < minus_one
      → Returns (λ c t. (c ≡ success) × (t.heap ≡ s.heap)) (session_send_buf_write bytes n s)
  unfolding session_send_buf_write
  session_send_buf_write_whole bytes n s memory small =
      let e : ((bio_write bytes n s.session.send_buf s.world).0 == minus_one) ≡ false =
        ground (arith, bio_write_whole memory bytes n s.session.send_buf s.world) in
      rw (Returns, e) (refl, refl)

module _ {W Q T : Type 0} ⦃os : Os W⦄ ⦃sq : Stailq Buffer Q⦄ ⦃tr : Tree T⦄ where
  counted :
      (max : ℕ) (c : Code) (s : Sys W Q T)
      → Returns (λ io _. io ≡ count (int_of max) []) (closing max c s)
  counted max success s = refl
  counted max failure s =
      Returns-bind (λ (_ : Code) t. Calm s t) (λ io _. io ≡ count (int_of max) [])
        (session_go_away_for_reason go_away_internal_err s) (λ _. pure (count (int_of max) []))
        (session_go_away_for_reason-Calm s go_away_internal_err) λ _ u h. refl

  after_body_counts :
      (p max : ℕ) (x : Stream Q) (s : Sys W Q T)
      → s.heap p ≡ some x
      → Returns (λ io _. io ≡ count (int_of max) []) (after_body p max success s)
  unfolding signal
  after_body_counts p max x s live =
      let left = sub32 x.send_window max in
      let z = record x { send_window = left } in
      let t : Sys W Q T = record s { heap = update s.heap p (some z) } in
      rw (live, Returns)
        (Returns-bind (λ (_ : Code) u. Signals t u) (λ io _. io ≡ count (int_of max) [])
          (signal p left t) (closing max) (signal-Signals p left t z (ground arith))
          λ c u h. counted max c u)

  after_hdr_counts :
      (p max : ℕ) (bytes : List ℕ) (x : Stream Q) (s : Sys W Q T)
      → ((b : Block) (w : W) → (os.malloc b w).0 ≡ true)
      → max < minus_one
      → s.heap p ≡ some x
      → Returns (λ io _. io ≡ count (int_of max) []) (after_hdr p bytes max success s)
  after_hdr_counts p max bytes x s memory small live =
      Returns-bind (λ c t. (c ≡ success) × (t.heap ≡ s.heap)) (λ io _. io ≡ count (int_of max) [])
        (session_send_buf_write bytes max s) (after_body p max)
        (session_send_buf_write_whole bytes max s memory small)
        λ c t (ok, same).
          rw (ok)
            (after_body_counts p max x t (ap (λ (h : ℕ → Option (Stream Q)). h p) same ∙ live))

  -- The frame is queued, and the count is returned.
  pub write_ready_counts :
      (p n window : ℕ) (bytes : List ℕ) (x : Stream Q) (s : Sys W Q T)
      → ((b : Block) (w : W) → (os.malloc b w).0 ≡ true)
      → min_of window n < minus_one
      → s.heap p ≡ some x
      → Returns (λ io _. io ≡ count (int_of (min_of window n)) []) (write_ready p bytes n window s)
  unfolding write_ready
  write_ready_counts p n window bytes x s memory small live =
      let max = min_of window n in
      let y = record x { state = sent_state x.state } in
      let t : Sys W Q T = record s { heap = update s.heap p (some y) } in
      let here : t.heap p ≡ some y = ground arith in
      let frame = hdr_encode type_data (flags_of x.state) x.id max in
      let self : (p == p) ≡ true = ground arith in
      Returns-bind (λ f u. (f ≡ flags_of x.state) × (u ≡ t)) (λ io _. io ≡ count (int_of max) [])
        (stream_send_flags p s) (after_send_flags p bytes max) (stream_send_flags_lem p x s live)
        λ f u (ef, eu).
          subst
            (λ g. Returns (λ io _. io ≡ count (int_of max) []) (after_send_flags p bytes max g u))
            (sym ef)
            (subst
              (λ w.
                Returns (λ io _. io ≡ count (int_of max) [])
                  (after_send_flags p bytes max (flags_of x.state) w))
              (sym eu)
              (rw (self, Returns)
                (Returns-bind (λ c v. (c ≡ success) × (v.heap ≡ t.heap))
                  (λ io _. io ≡ count (int_of max) []) (session_send_buf_write frame hdr_size t)
                  (after_hdr p bytes max)
                  (session_send_buf_write_whole frame hdr_size t memory (omega arith))
                  λ c v (ok, same). rw (ok) (
                    after_hdr_counts p max bytes y v memory small
                      (ap (λ (h : ℕ → Option (Stream Q)). h p) same ∙ here)))))

  -- An established stream with a window does not wait.
  pub stream_write-write_ready :
      (R : Io → Sys W Q T → Type 0) (p n : ℕ) (bytes : List ℕ) (x : Stream Q) (s : Sys W Q T)
      → s.heap p ≡ some x
      → x.state ≡ State.established
      → 0 < x.send_window
      → Returns R (write_ready p bytes n x.send_window s)
      → Returns R (stream_write p bytes n [] s)
  unfolding stream_write write_once write_gate
  stream_write-write_ready R p n bytes x s live up room h =
      let more : (x.send_window == 0) ≡ false = ground arith in rw (live, Returns) (rw (up, more) h)
