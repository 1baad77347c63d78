-- ===== src/Os.antt =====
-- The calls that the program makes of the C library and of the kernel. `W` is the state of
-- everything outside the program; each call may change it, and any outcome is possible.
use yamux.Common.{ℕ, Bool, Option, List}

-- What is asked of malloc: one of the program's structures, or a number of bytes.
pub data Block : Type 0 where
  buffer_block bio_block stream_block event_block event_loop_block : Block
  bytes_block : ℕ → Block

-- The set of descriptors that a select waits on.
pub data Direction : Type 0 where
  to_read to_write : Direction

pub record Os (W : Type 0) : Type 0 where
  -- Whether there is memory; `false` is NULL. The model numbers its own addresses.
  pub malloc : Block → W → Bool × W
  -- What a fresh buffer on the stack or the heap holds before it is written.
  pub uninit : ℕ → W → List ℕ
  -- The two descriptors, or `none` for an error.
  pub socketpair : W → Option (ℕ × ℕ) × W
  -- Whether setsockopt of SO_RCVBUF or SO_SNDBUF fails.
  pub set_rcvbuf : ℕ → ℕ → W → Bool × W
  pub set_sndbuf : ℕ → ℕ → W → Bool × W
  -- getsockopt of SO_RCVBUF.
  pub get_rcvbuf : ℕ → W → Option ℕ × W
  -- The count, or `none` for -1.
  pub write : ℕ → List ℕ → W → Option ℕ × W
  -- The bytes, or `none` for -1.
  pub read : ℕ → ℕ → W → Option (List ℕ) × W
  pub close : ℕ → W → W
  -- The bytes of a uint32_t in memory, in the order of the machine, and the value of four bytes.
  pub bytes_of_u32 : ℕ → List ℕ
  pub u32_of_bytes : List ℕ → ℕ
  -- fcntl of F_GETFL, and the flag of fcntl.h that the program tests in it.
  pub fcntl_getfl : ℕ → W → Option ℕ × W
  pub o_nonblock : ℕ
  -- fcntl of F_SETFL with the int of the new flags: the int it returns.
  pub fcntl_setfl : ℕ → ℕ → W → ℕ × W
  -- The number of ready descriptors and FD_ISSET of the one in the set, or `none` for -1.
  pub select : Direction → ℕ → W → Option (ℕ × Bool) × W
