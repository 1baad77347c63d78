-- ===== src/Link.antt =====
-- Two sessions of mux.c and the connection between them: what the owner of the connection does
-- with the bytes that one has queued, what a write on one side is on the other, and what the users
-- of both sides see.
pub mod Carry
pub mod Write
pub mod Channel
pub mod Puts
pub mod Repay
pub mod Takes
pub mod Taken
pub mod Run
pub mod Pieces
pub mod Torn
use yamux.Common.{ℕ, Option, none, some, List, [], ◌∷◌, length}
use yamux.Bio.{Buffer}
use yamux.Os.{Os}
use yamux.Stailq.{Stailq}
use yamux.Tree.{Tree}
use yamux.State.{Sys, success}
use yamux.Process.{Outcome, returned, session_process}
use yamux.Buffers.{
  session_recv_buf_write, session_send_buf_pending, session_send_buf_peek, session_send_buf_consume,
}
use yamux.Io.{Io, stream_read, stream_write}

-- What the user of a stream does: one end writes bytes, the other reads up to so many.
pub data Op : Type 0 where
  puts : ℕ → List ℕ → Op
  takes : ℕ → ℕ → Op

module _ {W Q T : Type 0} ⦃os : Os W⦄ ⦃sq : Stailq Buffer Q⦄ ⦃tr : Tree T⦄ where
  -- The first n bytes that `a` has queued are shown to the connection and taken away, and come to
  -- `b`, which processes them.
  pub carry : ℕ → Sys W Q T → Sys W Q T → Option (Outcome × (Sys W Q T × Sys W Q T))
  carry n a b = elim (session_send_buf_peek n a) [
    | none ↦ none
    | some (shown, a') ↦ elim (session_send_buf_consume n a') [
      | none ↦ none
      | some (taken, a'') ↦ elim (session_recv_buf_write shown.1 (length shown.1) b) [
        | none ↦ none
        | some (written, b') ↦ elim (session_process b') [
          | none ↦ none
          | some (o, b'') ↦ some (o, (a'', b''))
        ]
      ]
    ]
  ]

  -- The bytes come in pieces, as the connection cuts them.
  pub feed : List (List ℕ) → Sys W Q T → Option (Outcome × Sys W Q T)
  feed [] b = some (returned success, b)
  feed (piece ∷ rest) b = elim (session_recv_buf_write piece (length piece) b) [
    | none ↦ none
    | some (written, b') ↦ elim (session_process b') [
      | none ↦ none
      | some (o, b'') ↦ elim o [ returned success ↦ feed rest b'' | other ↦ some (other, b'') ]
    ]
  ]

  -- All that is queued.
  pub carry_all : Sys W Q T → Sys W Q T → Option (Outcome × (Sys W Q T × Sys W Q T))
  carry_all a b = elim (session_send_buf_pending a) [ none ↦ none | some (n, a') ↦ carry n a' b ]

  -- One operation, on the stream at an address in `a` that is linked with one in `b`. What it
  -- queues is carried over at once, a write's frame to `b` and a read's window update to `a`; the
  -- run stops if session_process does not return 0.
  pub exchange : (ℕ → ℕ) → Op → Sys W Q T → Sys W Q T → Option (Io × (Sys W Q T × Sys W Q T))
  exchange links (puts q bytes) a b = elim (stream_write q bytes (length bytes) [] a) [
    | none ↦ none
    | some (io, a') ↦ elim (carry_all a' b) [
      | none ↦ none
      | some (o, ends) ↦ elim o [ returned success ↦ some (io, ends) | _ ↦ none ]
    ]
  ]
  exchange links (takes q size) a b = elim (stream_read (links q) size [] b) [
    | none ↦ none
    | some (io, b') ↦ elim (carry_all b' a) [
      | none ↦ none
      | some (o, (b'', a')) ↦ elim o [ returned success ↦ some (io, (a', b'')) | _ ↦ none ]
    ]
  ]

  pub exchange_all :
      (ℕ → ℕ) → List Op → Sys W Q T → Sys W Q T → Option (List Io × (Sys W Q T × Sys W Q T))
  unfolding exchange
  exchange_all links [] a b = some ([], (a, b))
  exchange_all links (op ∷ rest) a b = elim (exchange links op a b) [
    | none ↦ none
    | some (io, (a', b')) ↦ elim (exchange_all links rest a' b') [
      | none ↦ none
      | some (ios, ends) ↦ some (io ∷ ios, ends)
    ]
  ]
