-- ===== src/Tests/SendRuns.antt =====
-- The sending side of mux.c and session_open on concrete sessions.
use yamux.Common.{ℕ, List, [], ◌∷◌, refl, arith, add32}
use yamux.State.Rules.{Returns}
use yamux.Send.{send_window_update}
use yamux.Send.Queue.{CanSend}
use yamux.Send.Window.{Updates, send_window_update_lem}
use yamux.Io.{write_ready}
use yamux.Io.Written.{Written}
use yamux.Io.Write.{write_ready_lem}
use yamux.Open.{reserve_id}
use yamux.Open.Ids.{Reserves, reserve_id_lem}
use yamux.Tests.Platform.{test_os, test_stailq, test_tree, sample_stream, sample}
use yamux.Tests.StreamRuns.{sample_stream-IsWindowed, empty_queue-IsValid}

sample-CanSend : CanSend 12 sample
sample-CanSend = record { valid = empty_queue-IsValid; room = omega arith }

send_window_update_example :
    Returns (λ c s'. Updates 7 sample_stream c sample s') (send_window_update 7 sample)
send_window_update_example =
    send_window_update_lem 7 sample_stream sample refl sample_stream-IsWindowed sample-CanSend

-- Another thread reserves an id on the way.
reserve_id_example :
    Returns
      (λ r s'. Reserves ((λ v. add32 v 2) ∷ []) r sample s')
      (reserve_id ((λ v. add32 v 2) ∷ []) sample)
reserve_id_example =
    reserve_id_lem ((λ v. add32 v 2) ∷ []) sample ((λ v w. (omega arith, omega arith)), tt)
      (omega arith)

abbrev three_bytes : List ℕ
three_bytes = 1 ∷ 2 ∷ 3 ∷ []

write_ready_example :
    Returns
      (λ io s'. Written 7 sample_stream three_bytes 3 io sample s')
      (write_ready 7 three_bytes 3 1000 sample)
write_ready_example =
    write_ready_lem 7 sample_stream three_bytes 3 sample refl (omega arith) (omega arith)
      (omega arith) (record { valid = empty_queue-IsValid; room = omega arith })
