-- ===== src/Tests/MiscRuns.antt =====
-- misc.c, sequences of calls on the queue of bio.h, and the transport's side of mux.c on concrete
-- inputs.
use yamux.Common.{
  ℕ, ◌<◌, ◌≡◌, ◌⊎◌, none, some, List, [], ◌∷◌, arith, length, take, drop, minus_one, min, int_of,
}
use yamux.Bio.Contents.{contents, IsValid}
use yamux.Bio.Queue.{Call, writes, reads, pendings, Serves, perform_all, perform_all-Serves}
use yamux.Misc.{xbasename, xstrdup}
use yamux.Misc.Basename.{xbasename_lem}
use yamux.Misc.Strdup.{xstrdup_lem}
use yamux.State.Rules.{Returns}
use yamux.Send.Queue.{unsent}
use yamux.Buffers.{session_recv_buf_write, session_send_buf_peek, session_send_buf_consume}
use yamux.Buffers.Input.{Receives, OnlyQueue, session_recv_buf_write_lem, send_buf_lem}
use yamux.Tests.Platform.{
  test_os, test_stailq, test_tree, TestSys, sample_bio, sample, sample_session,
}
use yamux.Tests.StreamRuns.{sample-IsSound}
use yamux.Tests.BioRuns.{sample_bio-IsValid}

-- "a/bc" with its terminator, and a byte after it.
xbasename_example :
    (xbasename (98 ∷ 99 ∷ 0 ∷ 1 ∷ []) ≡ some none)
    × (xbasename (97 ∷ 47 ∷ 98 ∷ 99 ∷ 0 ∷ 1 ∷ []) ≡ some (some (98 ∷ 99 ∷ 0 ∷ 1 ∷ [])))
xbasename_example =
    xbasename_lem (97 ∷ []) (98 ∷ 99 ∷ []) (1 ∷ []) (λ e. ground arith, tt)
      (λ e. ground arith, (λ e. ground arith, tt)) (λ e. ground arith, (λ e. ground arith, tt))

xstrdup_example :
    xstrdup {W = ℕ} (some (98 ∷ 99 ∷ 0 ∷ 1 ∷ [])) 5 ≡ some (some (98 ∷ 99 ∷ 0 ∷ []), 4)
xstrdup_example =
    xstrdup_lem {W = ℕ} (98 ∷ 99 ∷ []) (1 ∷ []) 5 (λ e. ground arith, (λ e. ground arith, tt))

-- Two bytes are written, six read, and what is left is counted.
abbrev calls : List Call
calls = writes (6 ∷ 7 ∷ []) ∷ reads 6 ∷ pendings ∷ []

perform_all_example :
    let (rs, b', w') = perform_all {W = ℕ} calls sample_bio 1000 in
    Serves calls (contents sample_bio) rs (contents b') × IsValid b'
perform_all_example =
    perform_all-Serves {W = ℕ} calls sample_bio 1000 sample_bio-IsValid (omega arith)

session_recv_buf_write_example :
    Returns
      (λ r s'.
        (k : ℕ) × Receives (1 ∷ 2 ∷ []) k sample s'
        × ((r ≡ 2) × (k ≡ 2) ⊎ (r ≡ minus_one) × (k < 2)))
      (session_recv_buf_write (1 ∷ 2 ∷ []) 2 sample)
session_recv_buf_write_example =
    session_recv_buf_write_lem (1 ∷ 2 ∷ []) sample sample-IsSound (omega arith)

-- The five bytes of `sample_bio` wait for the transport.
abbrev sending : TestSys
sending = record sample { session = record sample_session { send_buf = sample_bio } }

send_buf_example :
    Returns
      (λ r t.
        (t ≡ sending)
        × (r.1 ≡ take 4 (unsent sending))
        × Returns
            (λ c u.
              OnlyQueue sending u
              × IsValid u.session.send_buf
              × (unsent u ≡ drop 3 (unsent sending))
              × (c ≡ int_of (min 3 (length (unsent sending)))))
            (session_send_buf_consume 3 t))
      (session_send_buf_peek 4 sending)
send_buf_example = send_buf_lem 4 3 sending sample_bio-IsValid
