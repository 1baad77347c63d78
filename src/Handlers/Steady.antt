-- ===== src/Handlers/Steady.antt =====
-- The handlers of mux.c but session_handle_data keep a session sound.
use yamux.Common.{
  ℕ, ◌≡◌, refl, true, none, some, arith, inl, inr, ◌==◌, if◌then◌else◌, Bool-cases, Option-cases,
  add32,
}
use yamux.Bio.{Buffer}
use yamux.Os.{Os}
use yamux.Stailq.{Stailq}
use yamux.Tree.{Tree}
use yamux.Frame.{
  type_ping, hdr_stream_id, has_flag, hdr_flags, flag_syn, flag_ack, hdr_length, go_away_proto_err,
  go_away_internal_err, go_away_normal, hdr_encode, hdr_size,
}
use yamux.State.{Stream, Sys, M, Code, success, failure, ◌>>=◌, pure, update}
use yamux.State.Rules.{Returns, Returns-bind, Returns-map}
use yamux.State.Calm.{Calm, Calm-refl, Calm-trans, Calm-store, Calm-session}
use yamux.State.Signals.{Signals}
use yamux.Notify.{stream_writeable_notify}
use yamux.Notify.Signals.{stream_writeable_notify-Signals}
use yamux.Send.{session_send_buf_write}
use yamux.Send.Calm.{WritesWhole, session_send_buf_write-Calm}
use yamux.Sound.{IsSound}
use yamux.Streams.{session_find_stream}
use yamux.Streams.Find.{after_find}
use yamux.Flags.{stream_process_flags}
use yamux.Flags.Step.{Settles, after_flags}
use yamux.Flags.Process.{stream_process_flags_lem}
use yamux.Incoming.{fail_with, open_if_syn}
use yamux.Incoming.Safe.{Steady, Calm-Steady, Steady-trans, fail_with-Calm}
use yamux.Data.Handle.{open_if_syn-Steady}
use yamux.Handlers.{
  widen, update_stream, session_handle_window_update, session_handle_ping, session_handle_go_away,
}

module _ {W Q T : Type 0} ⦃os : Os W⦄ ⦃sq : Stailq Buffer Q⦄ ⦃tr : Tree T⦄ where
  -- The answer to a result: -1 with a go-away frame, or 0.
  abbrev answer : ℕ → Code → M W Q T Code
  answer reason failure = fail_with reason
  answer reason success = pure success

  answer-Calm :
      (reason : ℕ) (c : Code) (s t : Sys W Q T)
      → Calm s t
      → Returns (λ (_ : Code) u. Calm s u) (answer reason c t)
  answer-Calm reason success s t h = h
  answer-Calm reason failure s t h =
      Returns-map _ _ (fail_with reason t) (fail_with-Calm reason t) λ _ u k. Calm-trans s t u h k.1

  widen-Calm :
      (p len : ℕ) (s : Sys W Q T) (x : Stream Q)
      → s.heap p ≡ some x
      → Returns (λ (_ : Code) t. Calm s t) (widen p len s)
  unfolding widen
  widen-Calm p len s x live =
      let y = record x { send_window = add32 x.send_window len } in
      let t : Sys W Q T = record s { heap = update s.heap p (some y) } in
      let c = Calm-store s p x y live (refl, refl, refl) in
      rw (live, Returns)
        (Returns-bind (λ (_ : Code) u. Signals t u) (λ (_ : Code) u. Calm s u)
          (stream_writeable_notify p t) (answer go_away_internal_err)
          (stream_writeable_notify-Signals p t y (ground arith))
          λ r u h. answer-Calm go_away_internal_err r s u (Calm-trans s t u c h.calm))

  update_stream-Calm :
      (p : ℕ) (s : Sys W Q T) (x : Stream Q)
      → s.heap p ≡ some x
      → Returns (λ (_ : Code) t. Calm s t) (update_stream p s)
  unfolding update_stream
  update_stream-Calm p s x live =
      let flags = hdr_flags s.session.hdr in
      let (code, b) = after_flags flags x.state in
      Returns-bind (λ c t. (c ≡ code) × Settles p b s t) (λ (_ : Code) u. Calm s u)
        (stream_process_flags p flags s) _ (stream_process_flags_lem p flags s x live)
        λ c t h. settled c t h.1
    where
      settled :
          (c : Code) (t : Sys W Q T)
          → Settles p (after_flags (hdr_flags s.session.hdr) x.state).1 s t
          → Returns
              (λ (_ : Code) u. Calm s u)
              ((elim c as (λ _. M W Q T Code) [
                | failure ↦ fail_with go_away_proto_err
                | success ↦
                    if hdr_length s.session.hdr == 0
                    then pure success
                    else widen p (hdr_length s.session.hdr)
              ])
                t)
      settled failure t h = answer-Calm go_away_proto_err failure s t h.calm
      settled success t h = elim (Bool-cases (hdr_length s.session.hdr == 0)) [
        | inl e ↦ rw (e, Returns) h.calm
        | inr e ↦ rw (e) (
            Returns-map _ _ (widen p (hdr_length s.session.hdr) t)
              (widen-Calm p (hdr_length s.session.hdr) t h.stream h.here)
              λ _ u k. Calm-trans s t u h.calm k)
      ]

  pub window_update-Steady :
      (s : Sys W Q T)
      → WritesWhole os
      → IsSound s
      → s.session.new_frame ≡ true
      → Returns (λ (_ : Code) t. Steady s t) (session_handle_window_update s)
  unfolding session_handle_window_update
  window_update-Steady s whole v new = simp (new) (
      Returns-bind (λ (_ : Code) t. Steady s t) (λ (_ : Code) t. Steady s t) (open_if_syn s) _
        (open_if_syn-Steady s whole v new) λ c t h. opened c t h)
    where
      opened :
          (c : Code) (t : Sys W Q T)
          → Steady s t
          → Returns
              (λ (_ : Code) u. Steady s u)
              ((elim c as (λ _. M W Q T Code) [
                | failure ↦ pure failure
                | success ↦ do
                  found ← session_find_stream (hdr_stream_id s.session.hdr)
                  elim found [ none ↦ pure success | some p ↦ update_stream p ]
              ])
                t)
      opened failure t h = h
      opened success t h =
          after_find (λ (_ : Code) u. Steady s u) _ (hdr_stream_id s.session.hdr) t h.sound
            (elim (Option-cases (tr.find (hdr_stream_id s.session.hdr) t.session.streams)) [
              | inl e ↦ rw (e, Returns) h
              | inr (p, e) ↦
                  let (x, live, ix) = h.sound.found _ p e in
                  rw (e) (
                    Returns-map _ _ (update_stream p t) (update_stream-Calm p t x live)
                      λ _ u k. Steady-trans s t u h (Calm-Steady t u h.sound k))
            ])

  pub ping-Calm :
      (s : Sys W Q T)
      → s.session.new_frame ≡ true
      → Returns (λ (_ : Code) t. Calm s t) (session_handle_ping s)
  unfolding session_handle_ping
  ping-Calm s new = elim (Bool-cases (has_flag (hdr_flags s.session.hdr) flag_syn)) [
    | inr e ↦ simp (new, e, Returns) (Calm-refl s)
    | inl e ↦
        simp (new, e)
          (Returns-bind (λ (_ : Code) t. Calm s t) (λ (_ : Code) t. Calm s t)
            (session_send_buf_write (hdr_encode type_ping flag_ack 0 (hdr_length s.session.hdr))
              hdr_size s)
            (answer go_away_internal_err)
            (session_send_buf_write-Calm s
              (hdr_encode type_ping flag_ack 0 (hdr_length s.session.hdr)) hdr_size)
            λ c t h. answer-Calm go_away_internal_err c s t h)
  ]

  pub go_away-Calm :
      (s : Sys W Q T)
      → s.session.new_frame ≡ true
      → Returns (λ (_ : Code) t. Calm s t) (session_handle_go_away s)
  unfolding session_handle_go_away
  go_away-Calm s new = elim (Bool-cases (hdr_length s.session.hdr == go_away_normal)) [
    | inl e ↦
        simp (new, e, Returns)
          (simp (new) at (
            Calm-session s s.session.local_go_away true s.session.next_id s.session.send_buf
              s.world))
    | inr e ↦ simp (new, e, Returns) (Calm-refl s)
  ]
