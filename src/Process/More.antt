-- ===== src/Process/More.antt =====
-- session_process (mux.c) on more of a data frame that has been begun.
use yamux.Common.{ℕ, ◌≤◌, ◌<◌, ◌≡◌, refl, subst, sym, ◌∙◌, false, some, arith, drop_all, min}
use yamux.Bio.{Buffer}
use yamux.Bio.Contents.{contents}
use yamux.Os.{Os}
use yamux.Stailq.{Stailq}
use yamux.Tree.{Tree}
use yamux.State.{Stream, Sys, Code, success, failure, pure}
use yamux.State.Rules.{Returns, Returns-bind}
use yamux.Sound.{IsSound, target}
use yamux.Data.Inside.{unread}
use yamux.Data.Tells.{Works}
use yamux.Data.Receive.{Delivered}
use yamux.Data.Deliver.{more_of_it, session_handle_data-Delivered}
use yamux.Handlers.{session_handle}
use yamux.Handlers.Dispatch.{session_handle-session_handle_data}
use yamux.Process.{returns, goes_on, returned, session_process}
use yamux.Process.Frame.{session_process_more}
use yamux.Process.Total.{handled}

module _ {W Q T : Type 0} ⦃os : Os W⦄ ⦃sq : Stailq Buffer Q⦄ ⦃tr : Tree T⦄ where
  handled_more :
      (p : ℕ) (x : Stream Q) (s : Sys W Q T)
      → Works os
      → IsSound s
      → s.session.new_frame ≡ false
      → target s ≡ some p
      → s.heap p ≡ some x
      → Returns
          (λ h t. (h ≡ goes_on) × Delivered p s.session.frame_remain x.state x s t)
          (handled goes_on s)
  handled_more p x s works v mid aim live =
      let R : Code → Sys W Q T → Type 0 =
        λ c u. (c ≡ success) × Delivered p s.session.frame_remain x.state x s u in
      Returns-bind R (λ h u. (h ≡ goes_on) × Delivered p s.session.frame_remain x.state x s u)
        (session_handle s)
        (λ code. pure (elim code [ failure ↦ returns failure | success ↦ goes_on ]))
        (subst (Returns R) (sym (session_handle-session_handle_data s (v.framed mid).0)) (
          session_handle_data-Delivered p x s x.state s.session.frame_remain works v
            (v.framed mid).0 aim live (more_of_it mid)))
        λ c u (ok, d). rw (ok, Returns) (refl, d)

  -- Bytes that go on with a frame, and no more than it has to come.
  pub session_process-Delivered :
      (p : ℕ) (x : Stream Q) (s : Sys W Q T)
      → Works os
      → IsSound s
      → s.session.new_frame ≡ false
      → target s ≡ some p
      → s.heap p ≡ some x
      → 0 < unread s
      → unread s ≤ s.session.frame_remain
      → Returns
          (λ o t. (o ≡ returned success) × Delivered p s.session.frame_remain x.state x s t)
          (session_process s)
  session_process-Delivered p x s works v mid aim live some_bytes fits =
      session_process_more (Delivered p s.session.frame_remain x.state x s) s v mid some_bytes
        (handled_more p x s works v mid aim live)
        λ t d. (
          d.sound,
          d.left
              ∙ drop_all (min s.session.frame_remain (unread s)) (contents s.session.recv_buf)
                  (omega (arith, fits)),
        )
