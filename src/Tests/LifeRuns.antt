-- ===== src/Tests/LifeRuns.antt =====
-- A session of mux.c on the concrete platform: from session_init on, and its calls.
use yamux.Common.{
  ℕ, ◌+◌, ◌≤◌, ◌<◌, ◌^◌, ◌≡◌, refl, true, false, none, some, List, [], ◌∷◌, arith, replicate,
}
use yamux.Bio.{Buffer, bio_new, bio_write, bio_pending}
use yamux.State.{State, Stream, Session}
use yamux.State.Rules.{Returns}
use yamux.Streams.{max_stream_window_size}
use yamux.Data.Inside.{unread}
use yamux.Process.{session_process}
use yamux.Buffers.{session_recv_buf_write}
use yamux.Open.{session_of, session_init, session_open, reserve_id, set_next_id}
use yamux.Streams.{
  stream_new, fill_stream, stream_connect, stream_setup_fd, shrink_fd, finish_stream, register,
  session_insert_stream,
}
use yamux.Send.{send_window_update, stream_send_flags, session_send_buf_write}
use yamux.Open.Init.{alone, IsNew, session_init_lem}
use yamux.Io.Safe.{SelectsOne}
use yamux.Life.{
  Step, arrives, opens, Reach-max_stream_window_size, Reach, begins, goes_on, Goes,
  Reach-session_process,
}
use yamux.Tests.Platform.{test_os, test_os-WritesWhole, test_stailq, test_tree, TestSys, Entries}

pub test_os-SelectsOne : SelectsOne test_os
test_os-SelectsOne = record { chosen = λ direction fd n is_set w e pos. ground arith }

abbrev client_session : Session (List Buffer) Entries
client_session = record {
  remote_go_away = false;
  local_go_away = false;
  next_id = 1;
  new_frame = true;
  frame_remain = 0;
  recv_buf = record { buffers = []; offset = 0; len = 0 };
  send_buf = record { buffers = []; offset = 0; len = 0 };
  streams = [];
  hdr = replicate 12 0;
  fd = 3;
  private_fd = 4;
}

abbrev client_system : TestSys
client_system = alone client_session 998

session_init_example : IsNew true client_system
unfolding session_init session_of bio_new
session_init_example = session_init_lem true 1000 client_session refl

started : Reach true client_system
unfolding session_init session_of bio_new
started = begins 1000 client_session refl

-- A window update of 16 bytes that opens the stream 2.
abbrev syn_bytes : List ℕ
syn_bytes = 0 ∷ 1 ∷ 0 ∷ 1 ∷ 0 ∷ 0 ∷ 0 ∷ 2 ∷ 0 ∷ 0 ∷ 0 ∷ 16 ∷ []

abbrev told_system : TestSys
told_system = record client_system {
  session = record client_session {
    recv_buf = record {
      buffers = record { len = 12; bytes = syn_bytes } ∷ [];
      offset = 0;
      len = 12;
    };
  };
  world = 996;
}

told-Step : Step client_system told_system
unfolding session_recv_buf_write bio_write
told-Step = arrives syn_bytes 12 (omega arith) refl

told-Reach : Reach true told_system
told-Reach = goes_on started told-Step

session_process_reached_example : Returns (Goes true) (session_process told_system)
session_process_reached_example =
    Reach-session_process true told_system test_os-WritesWhole test_os-SelectsOne told-Reach

-- The client opens its first stream.
abbrev opened_system : TestSys
opened_system = elim (session_open [] client_system) [ none ↦ client_system | some (r, t) ↦ t ]

abbrev first_stream : Stream (List Buffer)
first_stream = record {
  state = State.syn_sent;
  id = 1;
  send_padding = 2304;
  recv_window = 262144;
  send_window = 262144;
  recv_buf = record { buffers = []; offset = 0; len = 0 };
  readable = false;
  writeable = true;
  fd = 3;
  private_fd = 4;
}

first_stream_here : opened_system.heap 0 ≡ some first_stream
unfolding session_open reserve_id set_next_id stream_new fill_stream stream_connect stream_setup_fd
    shrink_fd finish_stream register session_insert_stream send_window_update stream_send_flags
    session_send_buf_write bio_new bio_write bio_pending
first_stream_here = refl

open_returns : session_open [] client_system ≡ some (some 0, opened_system)
unfolding session_open reserve_id set_next_id stream_new fill_stream stream_connect stream_setup_fd
    shrink_fd finish_stream register session_insert_stream send_window_update stream_send_flags
    session_send_buf_write bio_new bio_write bio_pending
open_returns = refl

opened-Reach : Reach true opened_system
opened-Reach = goes_on started (
    opens (some 0) (omega arith) (λ id le par. record { absent = refl; unused = λ e. cc })
      open_returns)

Reach-max_stream_window_size_example :
    (262144 + 0 ≤ max_stream_window_size)
    × (bio_pending first_stream.recv_buf ≡ 0)
    × (unread opened_system < 2 ^ 31)
Reach-max_stream_window_size_example =
    Reach-max_stream_window_size true opened_system 0 first_stream test_os-WritesWhole
      test_os-SelectsOne opened-Reach first_stream_here
