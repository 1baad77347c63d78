-- ===== src/Tests/StreamRuns.antt =====
-- Streams and sessions of mux.c on concrete inputs.
use yamux.Common.{ℕ, ◌≡◌, refl, subst, none, some, List, arith}
use yamux.Bio.{Buffer}
use yamux.Bio.Contents.{IsValid}
use yamux.State.{State, Stream, success}
use yamux.State.Rules.{Returns}
use yamux.State.Calm.{SameInput}
use yamux.Sound.{IsSound, IsWindowed}
use yamux.Streams.{stream_new, stream_free}
use yamux.Streams.Made.{Makes}
use yamux.Streams.Setup.{stream_new_lem}
use yamux.Streams.Free.{stream_free_lem}
use yamux.Frame.{has_flag}
use yamux.Flags.{stream_process_flags}
use yamux.Flags.Step.{Moves, Settles}
use yamux.Flags.Process.{stream_process_flags_lem, stream_process_flags-Moves}
use yamux.Incoming.{incoming_stream}
use yamux.Incoming.Safe.{Steady, incoming_stream-Steady}
use yamux.Tests.Platform.{
  test_os, test_os-WritesWhole, test_stailq, test_tree, empty_queue, sample_stream, sample,
}

pub empty_queue-IsValid : IsValid empty_queue
empty_queue-IsValid = record { queued = refl; counted = refl; fits = omega arith }

pub sample_stream-IsWindowed : IsWindowed sample_stream
sample_stream-IsWindowed = record {
  buffered = record { queued = omega arith; counted = refl; fits = omega arith };
  promised = omega arith;
}

pub sample_stream_only :
    (p : ℕ) (x : Stream (List Buffer)) → sample.heap p ≡ some x → sample_stream ≡ x
sample_stream_only p x e = ground arith

pub sample-IsSound : IsSound sample
sample-IsSound = record {
  found = λ id p e. (sample_stream, ground arith, ground arith);
  fresh = λ p le. ground arith;
  windowed = λ p x e. subst IsWindowed (sample_stream_only p x e) sample_stream-IsWindowed;
  received = empty_queue-IsValid;
  fits_int = omega arith;
  framed = λ e. cc;
  promised_frame = λ e. cc;
}

-- An ACK and a FIN.
stream_process_flags_example :
    Returns
      (λ c s'. (c ≡ success) × Settles 7 State.remote_close sample s')
      (stream_process_flags 7 6 sample)
unfolding has_flag
stream_process_flags_example = stream_process_flags_lem 7 6 sample sample_stream refl

stream_process_flags-Moves_example :
    Returns
      (λ _ s'. (y : Stream (List Buffer)) × (s'.heap 7 ≡ some y) × Moves State.established y.state)
      (stream_process_flags 7 6 sample)
stream_process_flags-Moves_example = stream_process_flags-Moves 7 6 sample sample_stream refl

stream_new_example :
    Returns (λ r s'. Makes 5 State.init r sample s') (stream_new 5 State.init sample)
stream_new_example =
    stream_new_lem 5 State.init sample sample-IsSound (record { absent = refl; unused = λ e. cc })

stream_free_example :
    Returns
      (λ _ s'. IsSound s' × SameInput sample s' × (test_tree.find 1 s'.session.streams ≡ none))
      (stream_free 7 sample)
stream_free_example = stream_free_lem 1 7 sample sample-IsSound refl

incoming_stream_example : Returns (λ _ s'. Steady sample s') (incoming_stream sample)
incoming_stream_example = incoming_stream-Steady sample test_os-WritesWhole sample-IsSound refl
