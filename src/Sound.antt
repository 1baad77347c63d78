-- ===== src/Sound.antt =====
-- What holds of a session of mux.c between two calls: the tree finds the streams that are in
-- memory, no stream has promised more than its window, and the frame that is being received fits.
pub mod Keep
pub mod Store
use yamux.Common.{
  ℕ, ◌+◌, ◌*◌, ◌^◌, ◌≤◌, ◌<◌, ◌≡◌, Bool, true, false, Option, none, some, List, length,
}
use yamux.Bio.{Bio, Buffer}
use yamux.Bio.Contents.{contents, IsValid}
use yamux.Stailq.{Stailq}
use yamux.Tree.{Tree}
use yamux.Frame.{hdr_type, hdr_stream_id, type_data}
use yamux.State.{Stream, Sys, Session}
use yamux.Streams.{max_stream_window_size}

module _ {Q : Type 0} ⦃sq : Stailq Buffer Q⦄ where
  -- The bytes that wait and those that the peer may still send fit in the window.
  pub record IsWindowed (x : Stream Q) : Type 0 where
    pub buffered : IsValid x.recv_buf
    pub promised : x.recv_window + length (contents x.recv_buf) ≤ max_stream_window_size

module _ {W Q T : Type 0} ⦃sq : Stailq Buffer Q⦄ ⦃tr : Tree T⦄ where
  -- The stream that the current frame is for, if there is one.
  abbrev pub target : Sys W Q T → Option ℕ
  target s = tr.find (hdr_stream_id s.session.hdr) s.session.streams

  pub record IsSound (s : Sys W Q T) : Type 0 where
    -- The tree leads to streams, each under its own id.
    pub found :
        (id p : ℕ)
        → tr.find id s.session.streams ≡ some p
        → (x : Stream Q) × (s.heap p ≡ some x) × (x.id ≡ id)
    -- No address is used twice.
    pub fresh : (p : ℕ) → s.next_address ≤ p → s.heap p ≡ none
    pub windowed : (p : ℕ) (x : Stream Q) → s.heap p ≡ some x → IsWindowed x
    pub received : IsValid s.session.recv_buf
    -- `bio_pending` returns an int.
    pub fits_int : length (contents s.session.recv_buf) < 2 ^ 31
    -- Inside a frame there are bytes of it to come, and it is a data frame.
    pub framed :
        s.session.new_frame ≡ false
        → (hdr_type s.session.hdr ≡ type_data)
          × (0 < s.session.frame_remain)
          × (s.session.frame_remain < 2 ^ 32)
    -- What is left of it fits in the window of its stream.
    pub promised_frame :
        s.session.new_frame ≡ false
        → (p : ℕ) (x : Stream Q) → target s ≡ some p
        → s.heap p ≡ some x
        → s.session.frame_remain ≤ x.recv_window
