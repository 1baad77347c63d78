-- ===== src/Send/Calm.antt =====
-- What mux.c sends leaves the receiving side alone, and every call returns.
use yamux.Common.{ℕ, ◌≡◌, refl, true, none, some, List, ◌⊎◌, arith, inl, inr}
use yamux.Bio.{Buffer, bio_write}
use yamux.Os.{Os}
use yamux.Stailq.{Stailq}
use yamux.Frame.{hdr_encode, hdr_size, type_go_away, go_away_internal_err}
use yamux.State.{Stream, Sys, Code, failure, pure}
use yamux.State.Rules.{Returns, Returns-bind}
use yamux.State.Calm.{Calm, Calm-trans, Calm-session, Calm-store, Calm-world}
use yamux.Send.{
  session_send_buf_write, session_go_away_for_reason, notify_accept, stream_send_flags, sent_state,
  flags_of,
}

-- A write of four bytes to one end of a socket pair takes them all or fails: the pair keeps short
-- writes whole.
pub record WritesWhole {W : Type 0} (os : Os W) : Type 0 where
  pub four :
      (fd id : ℕ) (w : W)
      → ((os.write fd (os.bytes_of_u32 id) w).0 ≡ none)
        ⊎ ((os.write fd (os.bytes_of_u32 id) w).0 ≡ some 4)

module _ {W Q T : Type 0} ⦃os : Os W⦄ ⦃sq : Stailq Buffer Q⦄ (s : Sys W Q T) where
  pub session_send_buf_write-Calm :
      (bytes : List ℕ) (n : ℕ)
      → Returns (λ (_ : Code) s'. Calm s s') (session_send_buf_write bytes n s)
  unfolding session_send_buf_write
  session_send_buf_write-Calm bytes n =
      let (r, b, w) = bio_write bytes n s.session.send_buf s.world in
      Calm-session s s.session.local_go_away s.session.remote_go_away s.session.next_id b w

  pub session_go_away_for_reason-Calm :
      (reason : ℕ) → Returns (λ (_ : Code) s'. Calm s s') (session_go_away_for_reason reason s)
  unfolding session_go_away_for_reason session_send_buf_write
  session_go_away_for_reason-Calm reason =
      let (r, b, w) =
        bio_write (hdr_encode type_go_away 0 0 reason) hdr_size s.session.send_buf s.world in
      Calm-session s true s.session.remote_go_away s.session.next_id b w

  pub stream_send_flags-Calm :
      (p : ℕ) (x : Stream Q)
      → s.heap p ≡ some x
      → Returns
          (λ f s'.
            (f ≡ flags_of x.state)
            × Calm s s'
            × (s'.heap p ≡ some (record x { state = sent_state x.state })))
          (stream_send_flags p s)
  unfolding stream_send_flags
  stream_send_flags-Calm p x live =
      ground
        (arith, Calm-store s p x (record x { state = sent_state x.state }) live (refl, refl, refl))

module _ {W Q T : Type 0} ⦃os : Os W⦄ ⦃sq : Stailq Buffer Q⦄ (s : Sys W Q T) where
  pub notify_accept-Calm :
      (id : ℕ) → WritesWhole os → Returns (λ (_ : Code) s'. Calm s s') (notify_accept id s)
  unfolding notify_accept
  notify_accept-Calm id whole =
      let w = (os.write s.session.private_fd (os.bytes_of_u32 id) s.world).1 in
      let t : Sys W Q T = record s { world = w } in
      elim (whole.four s.session.private_fd id s.world) [
        | inr e ↦ rw (e, Returns) (Calm-world s w)
        | inl e ↦
            rw (e, Returns)
              (Returns-bind (λ (_ : Code) u. Calm t u) (λ (_ : Code) u. Calm s u)
                (session_go_away_for_reason go_away_internal_err t) (λ _. pure failure)
                (session_go_away_for_reason-Calm t go_away_internal_err)
                λ _ u c. Calm-trans s t u (Calm-world s w) c)
      ]
