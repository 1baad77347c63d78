-- ===== src/Tests/IoRuns.antt =====
-- The calls of a user of mux.c on concrete sessions.
use yamux.Common.{ℕ, ◌≡◌, refl, none, some, List, [], ◌∷◌, arith, if◌then◌else◌, ◌==◌, subst}
use yamux.Bio.{Buffer}
use yamux.State.{Stream}
use yamux.Sound.{IsSound, IsWindowed}
use yamux.State.Rules.{Returns}
use yamux.Io.{Io, read_ready, stream_read, stream_write}
use yamux.Io.Read.{ReadOut, read_ready_lem}
use yamux.Io.Safe.{Serving}
use yamux.Io.Whole.{stream_read-Serving, stream_write-Serving}
use yamux.Open.{session_open, session_accept}
use yamux.Open.Accept.{Accepts, session_accept_lem}
use yamux.Open.Safe.{Opens, session_open_lem}
use yamux.Tests.Platform.{
  test_os, test_stailq, test_tree, TestSys, sample_stream, sample, sample_session,
}
use yamux.Tests.StreamRuns.{sample-IsSound, empty_queue-IsValid}
use yamux.Tests.BioRuns.{sample_bio-IsValid}
use yamux.Tests.LifeRuns.{test_os-SelectsOne}

read_ready_example :
    Returns (λ io s'. ReadOut 7 sample_stream 3 io sample s') (read_ready 7 3 sample)
read_ready_example =
    read_ready_lem 7 sample_stream 3 sample sample-IsSound refl (omega arith) (omega arith)

sample-Serving : Serving 7 sample
sample-Serving = record { sound = sample-IsSound; stream = sample_stream; here = refl }

-- Nothing else happens in the one wait.
stream_read_example : Returns (λ (_ : Io) t. Serving 7 t) (stream_read 7 3 ((λ s. s) ∷ []) sample)
stream_read_example =
    stream_read-Serving 7 3 ((λ s. s) ∷ []) sample test_os-SelectsOne ((λ s g. g), tt) (omega arith)
      sample-Serving

stream_write_example :
    Returns (λ (_ : Io) t. Serving 7 t) (stream_write 7 (1 ∷ 2 ∷ []) 2 ((λ s. s) ∷ []) sample)
stream_write_example =
    stream_write-Serving 7 (1 ∷ 2 ∷ []) 2 ((λ s. s) ∷ []) sample test_os-SelectsOne ((λ s g. g), tt)
      sample-Serving

-- Another thread opens a stream between the load of the id and the exchange.
session_open_example :
    Returns (λ r s'. Opens ((λ v. v) ∷ []) r sample s') (session_open ((λ v. v) ∷ []) sample)
session_open_example =
    session_open_lem ((λ v. v) ∷ []) sample ((λ v small. (refl, small)), tt)
      ((λ v. omega arith), tt) sample-IsSound (omega arith)
      (λ id le par. record { absent = ground (arith, le, par); unused = λ e. cc })

-- The pair gives the id 0, under which there is a stream.
abbrev zero_stream : Stream (List Buffer)
zero_stream = record sample_stream { id = 0 }

abbrev announced : TestSys
announced = record sample {
  heap = λ q. if q == 7 then some zero_stream else none;
  session = record sample_session { streams = (0, 7) ∷ [] };
}

zero_stream_only : (p : ℕ) (x : Stream (List Buffer)) → announced.heap p ≡ some x → zero_stream ≡ x
zero_stream_only p x e = ground arith

zero_stream-IsWindowed : IsWindowed zero_stream
zero_stream-IsWindowed = record { buffered = sample_bio-IsValid; promised = omega arith }

announced-IsSound : IsSound announced
announced-IsSound = record {
  found = λ id p e. (zero_stream, ground arith, ground arith);
  fresh = λ p le. ground arith;
  windowed = λ p x e. subst IsWindowed (zero_stream_only p x e) zero_stream-IsWindowed;
  received = empty_queue-IsValid;
  fits_int = omega arith;
  framed = λ e. cc;
  promised_frame = λ e. cc;
}

session_accept_example :
    Accepts
      (test_os.read announced.session.fd 4 announced.world).0
      announced
      (session_accept announced)
session_accept_example = session_accept_lem announced announced-IsSound
