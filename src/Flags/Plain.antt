-- ===== src/Flags/Plain.antt =====
-- stream_process_flags (mux.c) on a frame without flags.
use yamux.Common.{ℕ, ◌≡◌, refl, some}
use yamux.Os.{Os}
use yamux.Frame.{has_flag}
use yamux.State.{Sys, success}
use yamux.Flags.{process_ack, process_fin, process_rst, then_rst, stream_process_flags}

module _ {W Q T : Type 0} ⦃os : Os W⦄ where
  pub stream_process_flags_none :
      (p : ℕ) (s : Sys W Q T) → stream_process_flags p 0 s ≡ some (success, s)
  unfolding stream_process_flags process_ack process_fin then_rst process_rst has_flag
  stream_process_flags_none p s = refl
