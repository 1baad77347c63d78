-- ===== src/Link/Pieces/Feed.antt =====
-- All pieces of a frame (session_recv_buf_write and session_process of mux.c for each).
use yamux.Common.{ℕ, List, [], ◌∷◌, ◌++◌}
use yamux.Os.{Os}
use yamux.Stailq.{Stailq}
use yamux.Tree.{Tree}
use yamux.State.{State}

-- The bytes of all pieces.
abbrev pub joined : List (List ℕ) → List ℕ
joined [] = []
joined (piece ∷ rest) = piece ++ joined rest
