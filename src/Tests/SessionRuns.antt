-- ===== src/Tests/SessionRuns.antt =====
-- The receiving side of mux.c on concrete sessions.
use yamux.Common.{subst, ap, ℕ, ◌≡◌, ◌⊎◌, refl, none, some, List, [], ◌∷◌, arith, false}
use yamux.Bio.{Buffer}
use yamux.Bio.Contents.{IsValid}
use yamux.State.{Stream, failure}
use yamux.State.Rules.{Returns}
use yamux.Sound.{IsSound, IsWindowed, target}
use yamux.Frame.{hdr_type}
use yamux.Data.{deliver, data_loop, session_handle_data}
use yamux.Data.Feed.{Fed, deliver_lem}
use yamux.Data.Inside.{InLoop}
use yamux.Data.Ends.{Rest, data_loop_lem}
use yamux.Data.Handle.{Handled, session_handle_data_lem}
use yamux.Handlers.{session_handle}
use yamux.Handlers.Safe.{session_handle_lem}
use yamux.Process.{session_process}
use yamux.Process.Total.{Ended, session_process_lem}
use yamux.Tests.Platform.{
  test_os, test_os-WritesWhole, test_stailq, test_tree, TestSys, TestBio, sample_stream,
  sample_session, sample,
}
use yamux.Tests.StreamRuns.{sample_stream-IsWindowed, sample_stream_only}

-- A data frame of four bytes for the stream 1 and the first three bytes of the next header.
abbrev frame_bytes : List ℕ
frame_bytes = 0 ∷ 0 ∷ 0 ∷ 0 ∷ 0 ∷ 0 ∷ 0 ∷ 1 ∷ 0 ∷ 0 ∷ 0 ∷ 4 ∷ 65 ∷ 66 ∷ 67 ∷ 68 ∷ 0 ∷ 1 ∷ 0 ∷ []

abbrev full_queue : TestBio
full_queue = record {
  buffers = record { len = 19; bytes = frame_bytes } ∷ [];
  offset = 0;
  len = 19;
}

abbrev pub busy : TestSys
busy = record sample { session = record sample_session { recv_buf = full_queue } }

full_queue-IsValid : IsValid full_queue
full_queue-IsValid = record { queued = omega arith; counted = refl; fits = omega arith }

pub busy-IsSound : IsSound busy
busy-IsSound = record {
  found = λ id p e. (sample_stream, ground arith, ground arith);
  fresh = λ p le. ground arith;
  windowed = λ p x e. subst IsWindowed (sample_stream_only p x e) sample_stream-IsWindowed;
  received = full_queue-IsValid;
  fits_int = omega arith;
  framed = λ e. cc;
  promised_frame = λ e. cc;
}

-- Four bytes of a frame for the stream 1 are still to come.
abbrev inside : TestSys
inside = record sample {
  session = record sample_session {
    recv_buf = full_queue;
    new_frame = false;
    frame_remain = 4;
    hdr = 0 ∷ 0 ∷ 0 ∷ 0 ∷ 0 ∷ 0 ∷ 0 ∷ 1 ∷ 0 ∷ 0 ∷ 0 ∷ 4 ∷ [];
  };
}

inside-InLoop : InLoop inside
unfolding hdr_type
inside-InLoop = record {
  found = busy-IsSound.found;
  fresh = busy-IsSound.fresh;
  windowed = busy-IsSound.windowed;
  received = full_queue-IsValid;
  fits_int = omega arith;
  mid = refl;
  kind = refl;
  bound = omega arith;
  promised = λ p x a e.
      omega (arith, ap (λ (z : Stream (List Buffer)). z.recv_window) (sample_stream_only p x e));
}

session_process_example : Returns Ended (session_process busy)
session_process_example = session_process_lem busy test_os-WritesWhole busy-IsSound

session_handle_example : Returns (Handled busy) (session_handle busy)
session_handle_example = session_handle_lem busy test_os-WritesWhole busy-IsSound

session_handle_data_example : Returns (Handled busy) (session_handle_data busy)
unfolding hdr_type
session_handle_data_example = session_handle_data_lem busy test_os-WritesWhole busy-IsSound refl

data_loop_example :
    Returns (λ c s'. (c ≡ failure) ⊎ Rest inside s') (data_loop 4 (target inside) inside)
data_loop_example = data_loop_lem 4 (target inside) inside (omega arith) inside-InLoop refl

deliver_example :
    Returns
      (λ r s'. (r ≡ none) ⊎ ((r ≡ some 4) × Fed 7 sample_stream (0 ∷ 0 ∷ 0 ∷ 0 ∷ []) busy s'))
      (deliver 7 4 busy)
deliver_example =
    deliver_lem 7 sample_stream 4 busy refl sample_stream-IsWindowed full_queue-IsValid
      (omega arith) (omega arith) (omega arith)
