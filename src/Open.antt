-- ===== src/Open.antt =====
-- The session and its streams (mux.c): session_init, session_open and session_accept.
pub mod Ids
pub mod Init
pub mod Safe
pub mod Accept
use yamux.Common.{
  ℕ, ◌==◌, Bool, true, false, Option, none, some, List, [], ◌∷◌, if◌then◌else◌, leb, length, add32,
  replicate,
}
use yamux.Bio.{Bio, Buffer, bio_new}
use yamux.Os.{Os}
use yamux.Stailq.{Stailq}
use yamux.Tree.{Tree}
use yamux.Frame.{go_away_internal_err, hdr_size}
use yamux.State.{
  State, Session, M, success, failure, ◌>>=◌, ◌>>◌, pure, assert, call, get_session, put_session,
}
use yamux.Streams.{session_find_stream, stream_new, stream_free}
use yamux.Send.{session_go_away_for_reason, send_window_update}

-- A session, or `none` for -1.
unfoldable pub session_of :
    {Q T : Type 0}
    → Bool
    → Option (Bio Q)
    → Option (Bio Q)
    → Option (ℕ × ℕ)
    → T
    → Option (Session Q T)
session_of client (some recv_buf) (some send_buf) (some (fd, private_fd)) streams = some (record {
  remote_go_away = false;
  local_go_away = false;
  next_id = if client then 1 else 2;
  new_frame = true;
  frame_remain = 0;
  recv_buf = recv_buf;
  send_buf = send_buf;
  streams = streams;
  hdr = replicate hdr_size 0;
  fd = fd;
  private_fd = private_fd;
})
session_of client recv_buf send_buf fds streams = none

module _ {W Q T : Type 0} ⦃os : Os W⦄ ⦃sq : Stailq Buffer Q⦄ ⦃tr : Tree T⦄ where
  -- Each step is taken only if those before it succeeded.
  unfoldable pub session_init : Bool → W → Option (Session Q T) × W
  unfolding session_of
  session_init client w =
      let (recv_buf, w1) = bio_new w in
      elim recv_buf [
        | none ↦ (none, w1)
        | some received ↦
            let (send_buf, w2) = bio_new w1 in
            elim send_buf [
              | none ↦ (none, w2)
              | some sent ↦
                  let (fds, w3) = os.socketpair w2 in
                  (session_of client (some received) (some sent) fds tr.init, w3)
            ]
      ]

-- UINT32_MAX
abbrev pub uint32_max : ℕ
uint32_max = 0xffffffff

module _ {W Q T : Type 0} where
  unfoldable pub set_next_id : ℕ → M W Q T (Unit {0})
  set_next_id id = do session ← get_session; put_session (record session { next_id = id })

  -- The compare-and-swap loop of session_open. Each entry is what other threads do to `next_id`
  -- between the load and the exchange of one round; after the last nobody interferes.
  unfoldable pub reserve_id : List (ℕ → ℕ) → M W Q T (Option ℕ)
  unfolding set_next_id
  reserve_id [] = do
    session ← get_session
    let id = session.next_id
    if leb uint32_max id then pure none else do set_next_id (add32 id 2); pure (some id)
  reserve_id (f ∷ rest) = do
    session ← get_session
    let id = session.next_id
    if leb uint32_max id then pure none else do
      set_next_id (f id)
      if f id == id then (do set_next_id (add32 id 2); pure (some id)) else reserve_id rest

module _ {W Q T : Type 0} ⦃os : Os W⦄ ⦃sq : Stailq Buffer Q⦄ ⦃tr : Tree T⦄ where
  -- The stream, or `none` for -1.
  unfoldable pub session_open : List (ℕ → ℕ) → M W Q T (Option ℕ)
  unfolding reserve_id
  session_open races = do
    session ← get_session
    if session.remote_go_away then pure none else do
      reserved ← reserve_id races
      elim reserved [
        | none ↦ pure none
        | some id ↦ do
          made ← stream_new id State.init
          elim made [
            | none ↦ pure none
            | some p ↦ do
              sent ← send_window_update p
              elim sent [ success ↦ pure (some p) | failure ↦ do stream_free p; pure none ]
          ]
      ]

  -- The stream, or `none` for -1.
  pub session_accept : M W Q T (Option ℕ)
  session_accept = do
    session ← get_session
    r ← call (os.read session.fd 4)
    elim r [
      | none ↦ do session_go_away_for_reason go_away_internal_err; pure none
      | some bytes ↦ do
        assert (length bytes == 4)
        found ← session_find_stream (os.u32_of_bytes bytes)
        elim found [
          | none ↦ do assert false; pure none
          | some p ↦ do
            sent ← send_window_update p
            pure (elim sent [ success ↦ some p | failure ↦ none ])
        ]
    ]
