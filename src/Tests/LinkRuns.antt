-- ===== src/Tests/LinkRuns.antt =====
-- Frames between two sessions of mux.c, on a platform where all goes well.
use yamux.Common.{
  ℕ, zero, suc, ◌+◌, ◌<◌, ◌≡◌, refl, true, List, [], ◌∷◌, arith, length, replicate, ltb,
}
use yamux.Frame.{hdr_size, hdr_type, hdr_flags, hdr_length, hdr_stream_id, has_flag}
use yamux.State.{State, success}
use yamux.State.Rules.{Returns}
use yamux.Sound.{IsSound}
use yamux.Data.{session_handle_data}
use yamux.Data.Tells.{Works}
use yamux.Data.Receive.{Delivered}
use yamux.Data.Deliver.{new_frame, session_handle_data-Delivered}
use yamux.Process.{returned}
use yamux.Process.Deliver.{Arrived}
use yamux.Handlers.{session_handle_window_update}
use yamux.Handlers.Wake.{Drains, Woken, session_handle_window_update-Woken}
use yamux.Send.{session_send_buf_write}
use yamux.Io.{count, stream_write, write_ready_between}
use yamux.Link.Torn.{write_ready_between-carry}
use yamux.Link.{carry}
use yamux.Link.Write.{Joined, stream_write-carry}
use yamux.Tests.Platform.{
  roomy_os, test_stailq, test_tree, TestSys, sample_stream, sample_session, sample,
}
use yamux.Tests.SessionRuns.{busy, busy-IsSound}
use yamux.Tests.StreamRuns.{sample-IsSound, empty_queue-IsValid}

pub roomy_os-Works : Works roomy_os
roomy_os-Works = record { memory = λ b w. refl; takes = λ fd w. refl }

replicate_some : (n : ℕ) → 0 < n → ltb 0 (length {A = ℕ} (replicate n 0)) ≡ true
replicate_some zero pos = absurd (omega arith)
replicate_some (suc n) pos = ground arith

pub roomy_os-Drains : Drains roomy_os
roomy_os-Drains = record { memory = λ b w. refl; gives = λ fd n w pos. replicate_some n pos }

-- The same session on both sides.
sample-Joined : Joined 7 7 sample_stream sample_stream sample sample
sample-Joined = record {
  writer = refl;
  up = refl;
  valid = empty_queue-IsValid;
  nothing_queued = refl;
  sound = sample-IsSound;
  nothing_unread = refl;
  between = refl;
  reader = refl;
  same_id = refl;
  id_fits = omega arith;
  allowed = omega arith;
}

abbrev three_bytes : List ℕ
three_bytes = 65 ∷ 66 ∷ 67 ∷ []

stream_write-carry_example :
    Returns
      (λ io a'.
        (io ≡ count 3 [])
        × Returns
            (λ o s.
              (o ≡ returned success)
              × Arrived 7 State.established sample_stream three_bytes sample s.1)
            (carry ⦃os = roomy_os⦄ (hdr_size + 3) a' sample))
      (stream_write ⦃os = roomy_os⦄ 7 three_bytes 3 [] sample)
stream_write-carry_example =
    stream_write-carry ⦃os = roomy_os⦄ 7 7 3 sample_stream sample_stream three_bytes sample sample
      roomy_os-Works sample-Joined (omega arith) (omega arith) (omega arith)

-- The header of a data frame of 40 bytes for the stream 1 has been read, and 19 bytes are there.
abbrev begun : TestSys
begun = record busy {
  session = record busy.session { hdr = 0 ∷ 0 ∷ 0 ∷ 0 ∷ 0 ∷ 0 ∷ 0 ∷ 1 ∷ 0 ∷ 0 ∷ 0 ∷ 40 ∷ [] };
}

begun-IsSound : IsSound begun
begun-IsSound = record {
  found = busy-IsSound.found;
  fresh = busy-IsSound.fresh;
  windowed = busy-IsSound.windowed;
  received = busy-IsSound.received;
  fits_int = busy-IsSound.fits_int;
  framed = λ e. cc;
  promised_frame = λ e. cc;
}

session_handle_data-Delivered_example :
    Returns
      (λ c s'.
        (c ≡ success)
        × Delivered 7 (hdr_length begun.session.hdr) State.established sample_stream begun s')
      (session_handle_data ⦃os = roomy_os⦄ begun)
unfolding hdr_type hdr_flags hdr_length hdr_stream_id has_flag
session_handle_data-Delivered_example =
    session_handle_data-Delivered ⦃os = roomy_os⦄ 7 sample_stream begun State.established
      (hdr_length begun.session.hdr) roomy_os-Works begun-IsSound refl refl refl
      (new_frame refl refl refl (omega arith) (omega arith))

-- The header of a window update of 5 for the stream 1.
abbrev told : TestSys
told = record sample {
  session = record sample_session { hdr = 0 ∷ 1 ∷ 0 ∷ 0 ∷ 0 ∷ 0 ∷ 0 ∷ 1 ∷ 0 ∷ 0 ∷ 0 ∷ 5 ∷ [] };
}

told-IsSound : IsSound told
told-IsSound = record {
  found = sample-IsSound.found;
  fresh = sample-IsSound.fresh;
  windowed = sample-IsSound.windowed;
  received = sample-IsSound.received;
  fits_int = sample-IsSound.fits_int;
  framed = λ e. cc;
  promised_frame = λ e. cc;
}

session_handle_window_update_example :
    Returns
      (λ c t.
        (c ≡ success) × Woken ⦃os = roomy_os⦄ 7 sample_stream (hdr_length told.session.hdr) told t)
      (session_handle_window_update ⦃os = roomy_os⦄ told)
unfolding hdr_type hdr_flags hdr_length hdr_stream_id has_flag
session_handle_window_update_example =
    session_handle_window_update-Woken ⦃os = roomy_os⦄ 7 told sample_stream roomy_os-Drains
      told-IsSound refl refl (omega arith) refl refl (omega arith)

-- Another thread has queued two bytes between the header and the body.
write_ready_between-carry_example :
    Returns
      (λ _ a'.
        Returns
          (λ o s.
            (o ≡ returned success)
            × Arrived 7 State.established sample_stream (9 ∷ 8 ∷ 65 ∷ []) sample s.1)
          (carry ⦃os = roomy_os⦄ (hdr_size + 3) a' sample))
      (write_ready_between ⦃os = roomy_os⦄
        (session_send_buf_write ⦃os = roomy_os⦄ (9 ∷ 8 ∷ []) 2)
        7
        three_bytes
        3
        1000
        sample)
write_ready_between-carry_example =
    write_ready_between-carry ⦃os = roomy_os⦄ 7 7 3 sample_stream sample_stream three_bytes
      (9 ∷ 8 ∷ []) sample sample roomy_os-Works sample-Joined (omega arith) (omega arith)
      (omega arith) (omega arith)
