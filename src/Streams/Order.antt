-- ===== src/Streams/Order.antt =====
-- The order of streams in the tree (stream_compare of mux.c) is by id.
use yamux.Common.{ℕ, ◌≡◌, ◌==◌, arith, int_lt, ltb}
use yamux.Streams.{stream_compare}

-- The result of stream_compare, as an int, is negative exactly if the first id is smaller,
-- positive exactly if the second one is, and 0 exactly if they are equal.
pub stream_compare-sign :
    (a b : ℕ)
    → (int_lt (stream_compare a b) 0 ≡ ltb a b)
      × (int_lt 0 (stream_compare a b) ≡ ltb b a)
      × ((stream_compare a b == 0) ≡ (a == b))
unfolding stream_compare
stream_compare-sign a b = ground arith
