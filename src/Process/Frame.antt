-- ===== src/Process/Frame.antt =====
-- session_process (mux.c) on one frame that came whole.
use yamux.Common.{
  Bool-cases, inl, inr, ℕ, zero, suc, ◌+◌, ◌-◌, ◌*◌, ◌≤◌, ◌<◌, ◌≡◌, refl, ◌∙◌, ap, true, false,
  List, [], ◌++◌, arith, length, length-append, take, drop, take-append_le, take_all,
  drop-append_ge, ◌==◌, int_lt,
}
use yamux.Bio.{Buffer, bio_pending, bio_read}
use yamux.Bio.Contents.{contents}
use yamux.Bio.Read.{bio_read_lem}
use yamux.Os.{Os}
use yamux.Stailq.{Stailq}
use yamux.Tree.{Tree}
use yamux.Frame.{hdr_size, hdr_version, version}
use yamux.State.{Sys, success}
use yamux.State.Rules.{Returns, Returns-bind}
use yamux.Sound.{IsSound}
use yamux.Data.Inside.{unread}
use yamux.Process.{
  returns, goes_on, returned, read_hdr, process_step, process_loop, session_process,
}
use yamux.Process.Total.{headed, handled, rest_of, pending_count}

module _ {W Q T : Type 0} ⦃os : Os W⦄ ⦃sq : Stailq Buffer Q⦄ ⦃tr : Tree T⦄ where
  -- The header has been read.
  abbrev pub parsed : Sys W Q T → Sys W Q T
  parsed s =
      let (r, hdr, recv_buf) = bio_read true hdr_size s.session.recv_buf in
      record s { session = record s.session { hdr = hdr; recv_buf = recv_buf } }

  read_hdr_whole :
      (s : Sys W Q T)
      → IsSound s
      → s.session.new_frame ≡ true
      → hdr_size ≤ unread s
      → hdr_version (parsed s).session.hdr ≡ version
      → Returns (λ h t. (h ≡ goes_on) × (t ≡ parsed s)) (read_hdr s)
  unfolding read_hdr
  read_hdr_whole s v new enough right =
      let (sound, fewer, count) = headed s v new in
      let there : int_lt (bio_pending s.session.recv_buf) hdr_size ≡ false =
        ground (arith, pending_count s v, v.fits_int) in
      let whole : ((bio_read true hdr_size s.session.recv_buf).0 == hdr_size) ≡ true =
        ground (arith, count) in
      let version_fits : (hdr_version (bio_read true hdr_size s.session.recv_buf).1 == version)
          ≡ true =
        ground (arith, right) in
      rw (there, Returns, whole, version_fits) (refl, refl)

  pub parsed_hdr :
      (hdr payload : List ℕ) (s : Sys W Q T)
      → IsSound s
      → contents s.session.recv_buf ≡ hdr ++ payload
      → length hdr ≡ hdr_size
      → (parsed s).session.hdr ≡ hdr
  parsed_hdr hdr payload s v input long =
      let (count, out, rest, valid) = bio_read_lem hdr_size s.session.recv_buf v.received in
      out
      ∙ ap (take hdr_size) input
      ∙ take-append_le hdr_size hdr payload (omega (arith, long))
      ∙ take_all hdr_size hdr (omega (arith, long))

  pub parsed_recv_buf :
      (hdr payload : List ℕ) (s : Sys W Q T)
      → IsSound s
      → contents s.session.recv_buf ≡ hdr ++ payload
      → length hdr ≡ hdr_size
      → contents (parsed s).session.recv_buf ≡ payload
  parsed_recv_buf hdr payload s v input long =
      let (count, out, rest, valid) = bio_read_lem hdr_size s.session.recv_buf v.received in
      let none_left : hdr_size - length hdr ≡ 0 = omega (arith, long) in
      rest
      ∙ ap (drop hdr_size) input
      ∙ drop-append_ge hdr_size hdr payload (omega (arith, long))
      ∙ ap (λ k. drop k payload) none_left

module _ {W Q T : Type 0} ⦃os : Os W⦄ ⦃sq : Stailq Buffer Q⦄ ⦃tr : Tree T⦄ (P : Sys W Q T → Type 0)
    (s : Sys W Q T) (v : IsSound s) where
  -- One round, and then nothing is left.
  process_loop_lem :
      (fuel : ℕ)
      → 1 < fuel
      → 0 < unread s
      → Returns (λ h t. (h ≡ goes_on) × P t) (process_step s)
      → ((t : Sys W Q T) → P t → IsSound t × (contents t.session.recv_buf ≡ []))
      → Returns (λ o t. (o ≡ returned success) × P t) (process_loop fuel s)
  unfolding process_loop
  process_loop_lem zero enough some_bytes step ends = absurd (omega arith)
  process_loop_lem (suc zero) enough some_bytes step ends = absurd (omega arith)
  process_loop_lem (suc (suc fuel)) enough some_bytes step ends =
      let more : (bio_pending s.session.recv_buf == 0) ≡ false =
        ground (arith, pending_count s v, some_bytes) in
      rw (more) (
        Returns-bind (λ h t. (h ≡ goes_on) × P t) (λ o t. (o ≡ returned success) × P t)
          (process_step s) (rest_of (suc fuel)) step
          λ h t (e, a).
            let (sound, empty) = ends t a in
            let over : (bio_pending t.session.recv_buf == 0) ≡ true =
              ground (arith, pending_count t sound, ap (length {A = ℕ}) empty) in
            rw (e, over, Returns) (refl, a))

  -- A new frame whose header is there is handled as P says, and P says that the session is sound
  -- with nothing unread: session_process returns 0 and leaves what P says.
  pub session_process_one :
      (hdr payload : List ℕ)
      → s.session.new_frame ≡ true
      → contents s.session.recv_buf ≡ hdr ++ payload
      → length hdr ≡ hdr_size
      → hdr_version hdr ≡ version
      → Returns (λ h t. (h ≡ goes_on) × P t) (handled goes_on (parsed s))
      → ((t : Sys W Q T) → P t → IsSound t × (contents t.session.recv_buf ≡ []))
      → Returns (λ o t. (o ≡ returned success) × P t) (session_process s)
  unfolding session_process process_step
  session_process_one hdr payload start input long right done ends =
      let enough : hdr_size ≤ unread s =
        omega (arith, ap (length {A = ℕ}) input, length-append hdr payload, long) in
      process_loop_lem (2 * s.session.recv_buf.len + 2) (omega arith) (omega (arith, enough))
        (simp (start) (
          Returns-bind (λ h t. (h ≡ goes_on) × (t ≡ parsed s)) (λ h t. (h ≡ goes_on) × P t)
            (read_hdr s) handled
            (read_hdr_whole s v start enough
              (ap hdr_version (parsed_hdr hdr payload s v input long) ∙ right))
            λ h t (e, same). rw (e, same) done))
        ends

  -- The same with more of a frame that has been begun.
  pub session_process_more :
      s.session.new_frame ≡ false
      → 0 < unread s
      → Returns (λ h t. (h ≡ goes_on) × P t) (handled goes_on s)
      → ((t : Sys W Q T) → P t → IsSound t × (contents t.session.recv_buf ≡ []))
      → Returns (λ o t. (o ≡ returned success) × P t) (session_process s)
  unfolding session_process process_step
  session_process_more mid some_bytes done ends =
      process_loop_lem (2 * s.session.recv_buf.len + 2) (omega arith) some_bytes (simp (mid) done)
        ends

module _ {W Q T : Type 0} ⦃os : Os W⦄ ⦃sq : Stailq Buffer Q⦄ ⦃tr : Tree T⦄ where
  read_hdr_short :
      (s : Sys W Q T)
      → IsSound s
      → unread s < hdr_size
      → Returns (λ h t. (h ≡ returns success) × (t ≡ s)) (read_hdr s)
  unfolding read_hdr
  read_hdr_short s v few =
      let short : int_lt (bio_pending s.session.recv_buf) hdr_size ≡ true =
        ground (arith, pending_count s v, few) in
      rw (short, Returns) (refl, refl)

  -- Nothing is to be done where nothing is unread.
  pub session_process_none :
      (s : Sys W Q T)
      → IsSound s
      → contents s.session.recv_buf ≡ []
      → Returns (λ o t. (o ≡ returned success) × (t ≡ s)) (session_process s)
  unfolding session_process process_loop
  session_process_none s v empty =
      let over : (bio_pending s.session.recv_buf == 0) ≡ true =
        ground (arith, pending_count s v, ap (length {A = ℕ}) empty) in
      go (2 * s.session.recv_buf.len + 2) (omega arith) over
    where
      go :
          (fuel : ℕ)
          → 0 < fuel
          → (bio_pending s.session.recv_buf == 0) ≡ true
          → Returns (λ o t. (o ≡ returned success) × (t ≡ s)) (process_loop fuel s)
      go zero pos e = absurd (omega arith)
      go (suc fuel) pos e = rw (e, Returns) (refl, refl)

  process_step_short :
      (s : Sys W Q T)
      → IsSound s
      → s.session.new_frame ≡ true
      → unread s < hdr_size
      → Returns (λ h t. (h ≡ returns success) × (t ≡ s)) (process_step s)
  unfolding process_step
  process_step_short s v start few = simp (start) (
      Returns-bind (λ h t. (h ≡ returns success) × (t ≡ s)) (λ h t. (h ≡ returns success) × (t ≡ s))
        (read_hdr s) handled (read_hdr_short s v few) λ h t (e, same). rw (e, Returns) (refl, same))

  -- A first part of a header, or nothing, is left alone.
  pub session_process_short :
      (s : Sys W Q T)
      → IsSound s
      → s.session.new_frame ≡ true
      → unread s < hdr_size
      → Returns (λ o t. (o ≡ returned success) × (t ≡ s)) (session_process s)
  unfolding session_process process_loop
  session_process_short s v start few = go (2 * s.session.recv_buf.len + 2) (omega arith)
    where
      go :
          (fuel : ℕ)
          → 0 < fuel
          → Returns (λ o t. (o ≡ returned success) × (t ≡ s)) (process_loop fuel s)
      go zero pos = absurd (omega arith)
      go (suc fuel) pos = elim (Bool-cases (bio_pending s.session.recv_buf == 0)) [
        | inl e ↦ rw (e, Returns) (refl, refl)
        | inr e ↦ rw (e) (
            Returns-bind (λ h t. (h ≡ returns success) × (t ≡ s))
              (λ o t. (o ≡ returned success) × (t ≡ s)) (process_step s) (rest_of fuel)
              (process_step_short s v start few) λ h t (eh, same). rw (eh, Returns) (refl, same))
      ]
