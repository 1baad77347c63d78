-- ===== src/Handlers/Wake.antt =====
-- session_handle_window_update (mux.c): the window that it opens, and the signal to a writer.
use yamux.Common.{
  ℕ, ◌+◌, ◌^◌, ◌%◌, ◌<◌, ◌≡◌, ◌≢◌, refl, ◌∙◌, ap, true, false, Option, some, arith, inl, inr, add32,
  ◌==◌, Bool-cases, ltb, if◌then◌else◌,
}
use yamux.Bio.{Buffer}
use yamux.Os.{Os, Block, bytes_block}
use yamux.Stailq.{Stailq}
use yamux.Tree.{Tree}
use yamux.Frame.{hdr_length, hdr_flags, hdr_stream_id, has_flag, flag_syn, go_away_internal_err}
use yamux.State.{Stream, Sys, Code, success, failure, update, pure}
use yamux.State.Rules.{Returns, Returns-bind}
use yamux.Sound.{IsSound, target}
use yamux.Streams.Find.{after_find}
use yamux.Notify.{got_bytes, padding_buffer, stack_size, stream_writeable_notify}
use yamux.Flags.Plain.{stream_process_flags_none}
use yamux.Incoming.{open_if_syn, fail_with}
use yamux.Data.Starts.{open_if_syn_plain}
use yamux.Handlers.{widen, update_stream, session_handle_window_update}

-- There is memory, and a read of at least one byte gives bytes, as one that waits for them does
-- where they come.
pub record Drains {W : Type 0} (os : Os W) : Type 0 where
  pub memory : (b : Block) (w : W) → (os.malloc b w).0 ≡ true
  pub gives : (fd n : ℕ) (w : W) → 0 < n → got_bytes (os.read fd n w).0 ≡ true

module _ {W Q T : Type 0} ⦃os : Os W⦄ where
  -- The world outside after a stream that was not writeable has had its padding drained from its
  -- own end of the pair, where padding that the stack has no room for is read into memory.
  abbrev pub drained : Stream Q → Sys W Q T → W
  drained x s =
      if x.writeable
      then s.world
      else (os.read x.private_fd x.send_padding (
          if ltb stack_size x.send_padding
          then (os.malloc (bytes_block x.send_padding) s.world).1
          else s.world)).1

  -- The stream at p, x before, may send len bytes more, is said to be writeable, and its padding is
  -- drained; nothing else changes.
  pub record Woken (p : ℕ) (x : Stream Q) (len : ℕ) (s s' : Sys W Q T) : Type 0 where
    pub here :
        s'.heap p
        ≡ some (record x { send_window = (x.send_window + len) % 2 ^ 32; writeable = true })
    pub others : (q : ℕ) → q ≢ p → s'.heap q ≡ s.heap q
    pub next_address : s'.next_address ≡ s.next_address
    pub session : s'.session ≡ s.session
    pub world : s'.world ≡ drained x s

module _ {W Q T : Type 0} ⦃os : Os W⦄ where
  stream_writeable_notify-Woken :
      (p : ℕ) (s : Sys W Q T) (x : Stream Q)
      → Drains os
      → s.heap p ≡ some x
      → 0 < x.send_padding
      → Returns
          (λ c t.
            (c ≡ success)
            × (t.heap p ≡ some (record x { writeable = true }))
            × (t.session ≡ s.session)
            × (t.next_address ≡ s.next_address)
            × ((q : ℕ) → q ≢ p → t.heap q ≡ s.heap q)
            × (t.world ≡ drained x s))
          (stream_writeable_notify p s)
  unfolding stream_writeable_notify padding_buffer
  stream_writeable_notify-Woken p s x drains live pad = elim (Bool-cases x.writeable) [
    | inl e ↦
        let still : s.world ≡ drained x s = rw (drained, e) refl in
        rw (live, Returns, e)
          (
            refl,
            live ∙ ap (λ b. some (record x { writeable = b })) e,
            refl,
            refl,
            λ q other. refl,
            still,
          )
    | inr e ↦ elim (Bool-cases (ltb stack_size x.send_padding)) [
      | inl big ↦
          let w = (os.malloc (bytes_block x.send_padding) s.world).1 in
          let read : (os.read x.private_fd x.send_padding w).1 ≡ drained x s =
            rw (drained, e, big) refl in
          rw
            (
              live,
              Returns,
              e,
              big,
              drains.memory (bytes_block x.send_padding) s.world,
              drains.gives x.private_fd x.send_padding w pad,
            )
            (refl, ground arith, refl, refl, λ q other. ground arith, read)
      | inr small ↦
          let read : (os.read x.private_fd x.send_padding s.world).1 ≡ drained x s =
            rw (drained, e, small) refl in
          rw (live, Returns, e, small, drains.gives x.private_fd x.send_padding s.world pad)
            (refl, ground arith, refl, refl, λ q other. ground arith, read)
    ]
  ]

module _ {W Q T : Type 0} ⦃os : Os W⦄ ⦃sq : Stailq Buffer Q⦄ ⦃tr : Tree T⦄ where
  -- What follows the signal.
  abbrev answered : Code → Sys W Q T → Option (Code × Sys W Q T)
  answered failure = fail_with go_away_internal_err
  answered success = pure success

  widen-Woken :
      (p len : ℕ) (s : Sys W Q T) (x : Stream Q)
      → Drains os
      → s.heap p ≡ some x
      → 0 < x.send_padding
      → Returns (λ c t. (c ≡ success) × Woken p x len s t) (widen p len s)
  unfolding widen
  widen-Woken p len s x drains live pad =
      let y = record x { send_window = add32 x.send_window len } in
      let t : Sys W Q T = record s { heap = update s.heap p (some y) } in
      rw (live, Returns)
        (Returns-bind
          (λ c u.
            (c ≡ success)
            × (u.heap p ≡ some (record y { writeable = true }))
            × (u.session ≡ t.session)
            × (u.next_address ≡ t.next_address)
            × ((q : ℕ) → q ≢ p → u.heap q ≡ t.heap q)
            × (u.world ≡ drained y t))
          (λ c u. (c ≡ success) × Woken p x len s u) (stream_writeable_notify p t) answered
          (stream_writeable_notify-Woken p t y drains (ground arith) pad)
          λ c u (ok, here, same, next, others, world).
            rw (ok, Returns)
              (
                refl,
                record {
                  here = here;
                  others = λ q other. others q other ∙ ground arith;
                  next_address = next;
                  session = same;
                  world = world;
                },
              ))

  update_stream-Woken :
      (p : ℕ) (s : Sys W Q T) (x : Stream Q)
      → Drains os
      → s.heap p ≡ some x
      → 0 < x.send_padding
      → hdr_flags s.session.hdr ≡ 0
      → 0 < hdr_length s.session.hdr
      → Returns
          (λ c t. (c ≡ success) × Woken p x (hdr_length s.session.hdr) s t)
          (update_stream p s)
  unfolding update_stream
  update_stream-Woken p s x drains live pad plain pos =
      let more : (hdr_length s.session.hdr == 0) ≡ false = ground arith in
      rw (plain, stream_process_flags_none p s, Returns, more)
        (widen-Woken p (hdr_length s.session.hdr) s x drains live pad)

  -- In a sound session at a new frame with a header without flags and a length of more than 0, a
  -- window update, for a stream that is there and has a padding, on a platform with memory where
  -- any read of at least one byte gives bytes: session_handle_window_update returns 0, the stream
  -- may send as many bytes more (modulo 2 ^ 32) and is said to be writeable; if it was not before,
  -- its padding has been read from its private descriptor (after an allocation, if it is larger
  -- than the stack buffer), which is what a select for its descriptor waits for, and nothing else
  -- is done to the world outside; neither its other fields nor any other stream nor the session
  -- change.
  pub session_handle_window_update-Woken :
      (p : ℕ) (s : Sys W Q T) (x : Stream Q)
      → Drains os
      → IsSound s
      → s.session.new_frame ≡ true
      → hdr_flags s.session.hdr ≡ 0
      → 0 < hdr_length s.session.hdr
      → target s ≡ some p
      → s.heap p ≡ some x
      → 0 < x.send_padding
      → Returns
          (λ c t. (c ≡ success) × Woken p x (hdr_length s.session.hdr) s t)
          (session_handle_window_update s)
  unfolding session_handle_window_update has_flag
  session_handle_window_update-Woken p s x drains v new plain pos aim live pad =
      let R : Code → Sys W Q T → Type 0 =
        λ c t. (c ≡ success) × Woken p x (hdr_length s.session.hdr) s t in
      simp (new) (
        Returns-bind (λ c t. (c ≡ success) × (t ≡ s)) R (open_if_syn s) _
          (open_if_syn_plain s (ap (λ f. has_flag f flag_syn) plain))
          λ c t (ok, same).
            rw (ok, same)
              (after_find R _ (hdr_stream_id s.session.hdr) s v
                (rw (aim) (update_stream-Woken p s x drains live pad plain pos))))
