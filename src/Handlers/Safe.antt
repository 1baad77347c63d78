-- ===== src/Handlers/Safe.antt =====
-- session_handle (mux.c) in a sound session, on whatever frame.
use yamux.Common.{◌≡◌, refl, ap, true, false, Option, arith, inl, inr, length, ◌==◌, Bool-cases}
use yamux.Bio.{Bio, Buffer}
use yamux.Bio.Contents.{contents}
use yamux.Os.{Os}
use yamux.Stailq.{Stailq}
use yamux.Tree.{Tree}
use yamux.Frame.{type_data, type_window_update, type_ping, type_go_away, hdr_type}
use yamux.State.{Sys, Code}
use yamux.State.Rules.{Returns, Returns-map}
use yamux.State.Calm.{Calm}
use yamux.Send.Calm.{WritesWhole}
use yamux.Sound.{IsSound}
use yamux.Incoming.Safe.{Steady, Calm-Steady}
use yamux.Data.Handle.{Handled, session_handle_data_lem}
use yamux.Handlers.{
  session_handle_window_update, session_handle_ping, session_handle_go_away, session_handle,
}
use yamux.Handlers.Steady.{window_update-Steady, ping-Calm, go_away-Calm}

module _ {W Q T : Type 0} ⦃os : Os W⦄ ⦃sq : Stailq Buffer Q⦄ ⦃tr : Tree T⦄ where
  Steady-Handled :
      (c : Code) (s t : Sys W Q T) → s.session.new_frame ≡ true → Steady s t → Handled s c t
  Steady-Handled c s t new h = inr (record {
    sound = h.sound;
    less = omega (arith, ap (λ (b : Bio Q). length (contents b)) h.input.recv_buf);
    progress = λ e. absurd (ground arith);
  })

  Calm-Handled :
      (o : Option (Code × Sys W Q T)) (s : Sys W Q T)
      → IsSound s
      → s.session.new_frame ≡ true
      → Returns (λ (_ : Code) t. Calm s t) o
      → Returns (Handled s) o
  Calm-Handled o s v new h =
      Returns-map _ _ o h λ c t k. Steady-Handled c s t new (Calm-Steady s t v k)

  -- Frames that are not data frames come with a new header only.
  new_frame_of_type :
      (s : Sys W Q T)
      → IsSound s
      → (hdr_type s.session.hdr == type_data) ≡ false
      → s.session.new_frame ≡ true
  new_frame_of_type s v other = elim (Bool-cases s.session.new_frame) [
    | inl new ↦ new
    | inr mid ↦ absurd (ground (arith, (v.framed mid).0))
  ]

  -- In a sound session, whatever the header and the bytes, on a platform that takes a write of
  -- four bytes whole or fails it: session_handle returns, so no assertion fails and no bad pointer
  -- is read, and unless it returns -1 the session is sound again, with fewer unread bytes if it
  -- was inside a frame and had any.
  pub session_handle_lem :
      (s : Sys W Q T) → WritesWhole os → IsSound s → Returns (Handled s) (session_handle s)
  unfolding session_handle
  session_handle_lem s whole v =
      let type = hdr_type s.session.hdr in
      elim (Bool-cases (type == type_data)) [
        | inl e ↦ rw (e) (session_handle_data_lem s whole v (ground arith))
        | inr n0 ↦
            let new = new_frame_of_type s v n0 in
            elim (Bool-cases (type == type_window_update)) [
              | inl e ↦
                  rw (n0, e)
                    (Returns-map _ _ (session_handle_window_update s)
                      (window_update-Steady s whole v new) λ c t h. Steady-Handled c s t new h)
              | inr n1 ↦ elim (Bool-cases (type == type_ping)) [
                | inl e ↦
                    rw (n0, n1, e) (Calm-Handled (session_handle_ping s) s v new (ping-Calm s new))
                | inr n2 ↦ elim (Bool-cases (type == type_go_away)) [
                  | inl e ↦
                      rw (n0, n1, n2, e)
                        (Calm-Handled (session_handle_go_away s) s v new (go_away-Calm s new))
                  | inr n3 ↦ rw (n0, n1, n2, n3, Returns) (inl refl)
                ]
              ]
            ]
      ]
