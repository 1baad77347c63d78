-- ===== src/Handlers/Dispatch.antt =====
-- session_handle (mux.c) on a data frame and on a window update.
use yamux.Common.{◌≡◌, refl}
use yamux.Bio.{Buffer}
use yamux.Os.{Os}
use yamux.Stailq.{Stailq}
use yamux.Tree.{Tree}
use yamux.Frame.{type_data, type_window_update, hdr_type}
use yamux.State.{Sys}
use yamux.Data.{session_handle_data}
use yamux.Handlers.{session_handle, session_handle_window_update}

module _ {W Q T : Type 0} ⦃os : Os W⦄ ⦃sq : Stailq Buffer Q⦄ ⦃tr : Tree T⦄ where
  pub session_handle-session_handle_data :
      (s : Sys W Q T)
      → hdr_type s.session.hdr ≡ type_data
      → session_handle s ≡ session_handle_data s
  unfolding session_handle
  session_handle-session_handle_data s e = simp (e) refl

  pub session_handle-session_handle_window_update :
      (s : Sys W Q T)
      → hdr_type s.session.hdr ≡ type_window_update
      → session_handle s ≡ session_handle_window_update s
  unfolding session_handle
  session_handle-session_handle_window_update s e = simp (e) refl
