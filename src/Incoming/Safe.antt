-- ===== src/Incoming/Safe.antt =====
-- Streams that the peer opens (incoming_stream of mux.c) in a sound session, on every path.
use yamux.Common.{ℕ, ◌≡◌, refl, true, Option, none, some, Option-cases, Bool-cases, arith, inl, inr}
use yamux.Bio.{Buffer}
use yamux.Os.{Os}
use yamux.Stailq.{Stailq}
use yamux.Tree.{Tree}
use yamux.Frame.{
  hdr_stream_id, go_away_proto_err, go_away_internal_err, hdr_encode, type_window_update, flag_rst,
  hdr_size,
}
use yamux.State.{State, Sys, Code, success, failure, pure}
use yamux.State.Rules.{Returns, Returns-bind, Returns-map}
use yamux.State.Calm.{Calm, Calm-refl, Calm-SameInput, SameInput, SameInput-trans}
use yamux.Send.{session_go_away_for_reason, notify_accept}
use yamux.Send.Calm.{
  WritesWhole, session_send_buf_write-Calm, session_go_away_for_reason-Calm, notify_accept-Calm,
}
use yamux.Sound.{IsSound}
use yamux.Sound.Keep.{Calm-IsSound}
use yamux.Streams.{stream_new, stream_free}
use yamux.Streams.Find.{session_find_stream_lem}
use yamux.Streams.Made.{Makes, IsOpenable}
use yamux.Streams.Setup.{stream_new_lem}
use yamux.Streams.Free.{stream_free_lem}
use yamux.Incoming.{fail_with, reject_stream, after_told, after_new, accept_stream, incoming_stream}

module _ {W Q T : Type 0} ⦃os : Os W⦄ ⦃sq : Stailq Buffer Q⦄ ⦃tr : Tree T⦄ where
  -- The session is sound, and goes on with the bytes and the frame that it had.
  pub record Steady (s s' : Sys W Q T) : Type 0 where
    pub sound : IsSound s'
    pub input : SameInput s s'

  pub Calm-Steady : (s s' : Sys W Q T) → IsSound s → Calm s s' → Steady s s'
  Calm-Steady s s' v c = record { sound = Calm-IsSound s s' c v; input = Calm-SameInput s s' c }

  pub Steady-trans : (s t u : Sys W Q T) → Steady s t → Steady t u → Steady s u
  Steady-trans s t u h k = record { sound = k.sound; input = SameInput-trans s t u h.input k.input }

  pub fail_with-Calm :
      (reason : ℕ) (s : Sys W Q T)
      → Returns (λ c s'. (c ≡ failure) × Calm s s') (fail_with reason s)
  unfolding fail_with
  fail_with-Calm reason s =
      Returns-bind (λ (_ : Code) t. Calm s t) (λ c s'. (c ≡ failure) × Calm s s')
        (session_go_away_for_reason reason s) (λ _. pure failure)
        (session_go_away_for_reason-Calm s reason) λ _ t h. (refl, h)

  fail_with-Steady :
      (reason : ℕ) (s : Sys W Q T)
      → IsSound s
      → Returns (λ (_ : Code) s'. Steady s s') (fail_with reason s)
  fail_with-Steady reason s v =
      Returns-map _ _ (fail_with reason s) (fail_with-Calm reason s) λ _ t h. Calm-Steady s t v h.1

  after_told-Steady :
      (id p : ℕ) (c : Code) (s : Sys W Q T)
      → IsSound s
      → tr.find id s.session.streams ≡ some p
      → Returns (λ (_ : Code) s'. Steady s s') (after_told p c s)
  unfolding after_told
  after_told-Steady id p success s v e = Calm-Steady s s v (Calm-refl s)
  after_told-Steady id p failure s v e =
      Returns-bind (λ _ t. IsSound t × SameInput s t × (tr.find id t.session.streams ≡ none))
        (λ (_ : Code) s'. Steady s s') (stream_free p s) (λ _. pure success)
        (stream_free_lem id p s v e) λ _ t h. record { sound = h.0; input = h.1 }

  after_new-Steady :
      (id : ℕ) (r : Option ℕ) (s t : Sys W Q T)
      → WritesWhole os
      → Makes id State.syn_received r s t
      → Returns (λ (_ : Code) s'. Steady s s') (after_new id r t)
  unfolding after_new
  after_new-Steady id none s t whole m =
      Returns-map _ _ (fail_with go_away_internal_err t)
        (fail_with-Steady go_away_internal_err t m.sound)
        λ _ u h. Steady-trans s t u (record { sound = m.sound; input = m.input }) h
  after_new-Steady id (some p) s t whole m =
      Returns-bind (λ (_ : Code) u. Calm t u) (λ (_ : Code) s'. Steady s s') (notify_accept id t)
        (after_told p) (notify_accept-Calm t id whole)
        λ c u h.
          Returns-map (λ (_ : Code) z. Steady u z) (λ (_ : Code) z. Steady s z) (after_told p c u)
            (after_told-Steady id p c u (Calm-IsSound t u h m.sound)
              (rw h.streams ((m.made p refl).aim)))
            λ _ z k.
              Steady-trans s u z
                (record {
                  sound = Calm-IsSound t u h m.sound;
                  input = SameInput-trans s t u m.input (Calm-SameInput t u h);
                })
                k

  accept_stream-Steady :
      (id : ℕ) (s : Sys W Q T)
      → WritesWhole os
      → IsSound s
      → IsOpenable id s
      → Returns (λ (_ : Code) s'. Steady s s') (accept_stream id s)
  unfolding accept_stream
  accept_stream-Steady id s whole v f =
      Returns-bind (λ r t. Makes id State.syn_received r s t) (λ (_ : Code) s'. Steady s s')
        (stream_new id State.syn_received s) (after_new id)
        (stream_new_lem id State.syn_received s v f) λ r t m. after_new-Steady id r s t whole m

  -- In a sound session at a new frame, with a platform that takes a write of four bytes whole or
  -- fails it, opening a stream at the peer's wish returns whatever the id: no assertion fails and
  -- no bad pointer is read; the session stays sound and its input is as it was.
  pub incoming_stream-Steady :
      (s : Sys W Q T)
      → WritesWhole os
      → IsSound s
      → s.session.new_frame ≡ true
      → Returns (λ (_ : Code) s'. Steady s s') (incoming_stream s)
  unfolding incoming_stream reject_stream
  incoming_stream-Steady s whole v new =
      let id = hdr_stream_id s.session.hdr in
      elim (Bool-cases s.session.local_go_away) [
        | inl going ↦ ground (
          arith,
          Returns-map (λ (_ : Code) t. Calm s t) (λ (_ : Code) t. Steady s t) (reject_stream id s)
              (session_send_buf_write-Calm s (hdr_encode type_window_update flag_rst id 0) hdr_size)
              λ _ t h. Calm-Steady s t v h,
        )
        | inr open_still ↦ elim (Option-cases (tr.find id s.session.streams)) [
          | inl absent ↦ ground (
            arith,
            session_find_stream_lem id s v,
            accept_stream-Steady id s whole v
                (record { absent = absent; unused = λ h. absurd (ground (arith, new, h)) }),
          )
          | inr (p, e) ↦
              ground (arith, session_find_stream_lem id s v, fail_with-Steady go_away_proto_err s v)
        ]
      ]
