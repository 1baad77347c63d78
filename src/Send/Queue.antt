-- ===== src/Send/Queue.antt =====
-- What session_send_buf_write of mux.c queues for the peer.
use yamux.Common.{
  length-take, true, some, ℕ, ◌+◌, ◌^◌, ◌≤◌, ◌<◌, ◌≡◌, ◌⊎◌, refl, false, List, ◌++◌, arith, inl,
  inr, length, take, minus_one, ◌==◌,
}
use yamux.Bio.{Buffer, bio_write}
use yamux.Bio.Contents.{contents, IsValid}
use yamux.Bio.Write.{bio_write_lem}
use yamux.Os.{Os}
use yamux.Stailq.{Stailq}
use yamux.State.{Stream, Sys, Code, success, failure, update}
use yamux.State.Rules.{Returns, Returns-map}
use yamux.Frame.{hdr_encode, hdr_size, type_go_away}
use yamux.Send.{
  session_send_buf_write, session_go_away_for_reason, stream_send_flags, flags_of, sent_state,
}

pub length-hdr_encode : (type flags id len : ℕ) → length (hdr_encode type flags id len) ≡ hdr_size
unfolding hdr_encode
length-hdr_encode type flags id len = refl

module _ {W Q T : Type 0} ⦃sq : Stailq Buffer Q⦄ where
  -- The bytes that wait to be sent.
  abbrev pub unsent : Sys W Q T → List ℕ
  unsent s = contents s.session.send_buf

  -- There is room in the count of the queue.
  pub record CanSend (n : ℕ) (s : Sys W Q T) : Type 0 where
    pub valid : IsValid s.session.send_buf
    pub room : length (unsent s) + n < 2 ^ 64

  -- Only the send queue and the world outside differ.
  pub record SendOnly (s s' : Sys W Q T) : Type 0 where
    pub heap : s'.heap ≡ s.heap
    pub next_address : s'.next_address ≡ s.next_address
    pub session : s'.session ≡ record s.session { send_buf = s'.session.send_buf }

  -- The first n of the bytes are queued, or -1 is returned after a first part of them.
  pub record Queued (bytes : List ℕ) (n : ℕ) (c : Code) (s s' : Sys W Q T) : Type 0 where
    pub only : SendOnly s s'
    pub valid : IsValid s'.session.send_buf
    pub count : ℕ
    pub within : count ≤ n
    pub appended : unsent s' ≡ unsent s ++ take count bytes
    pub outcome : (c ≡ success) × (count ≡ n) ⊎ (c ≡ failure) × (count < n)

module _ {W Q T : Type 0} ⦃os : Os W⦄ ⦃sq : Stailq Buffer Q⦄ where
  -- With room in the queue, fewer than 2 ^ 32 - 1 bytes are appended to what waits to be sent, all
  -- of them unless -1 is returned, and nothing else of the program's state changes.
  pub session_send_buf_write_lem :
      (bytes : List ℕ) (n : ℕ) (s : Sys W Q T)
      → n ≤ length bytes
      → CanSend n s
      → n < minus_one
      → Returns (λ c s'. Queued bytes n c s s') (session_send_buf_write bytes n s)
  unfolding session_send_buf_write
  session_send_buf_write_lem bytes n s has can short =
      let (r, b, w) = bio_write bytes n s.session.send_buf s.world in
      let (k, le, app, v, how) =
        bio_write_lem bytes n s.session.send_buf s.world has can.valid can.room in
      elim how [
        | inl (e, all) ↦
            let same : (r == minus_one) ≡ false = ground (arith, e) in
            record {
              only = record { heap = refl; next_address = refl; session = refl };
              valid = v;
              count = k;
              within = le;
              appended = app;
              outcome = rw (same) (inl (refl, all));
            }
        | inr (e, less, al) ↦ record {
          only = record { heap = refl; next_address = refl; session = refl };
          valid = v;
          count = k;
          within = le;
          appended = app;
          outcome = rw (e) (inr (refl, less));
        }
      ]

module _ {W Q T : Type 0} ⦃os : Os W⦄ ⦃sq : Stailq Buffer Q⦄ where
  -- A go-away frame, or a part of it.
  pub session_go_away_for_reason_lem :
      (reason : ℕ) (s : Sys W Q T)
      → CanSend hdr_size s
      → Returns
          (λ (_ : Code) s'.
            (s'.heap ≡ s.heap)
            × IsValid s'.session.send_buf
            × ((extra : List ℕ) × (length extra ≤ hdr_size) × (unsent s' ≡ unsent s ++ extra)))
          (session_go_away_for_reason reason s)
  unfolding session_go_away_for_reason
  session_go_away_for_reason_lem reason s can =
      let frame = hdr_encode type_go_away 0 0 reason in
      let t : Sys W Q T = record s { session = record s.session { local_go_away = true } } in
      Returns-map (λ c u. Queued frame hdr_size c t u)
        (λ (_ : Code) s'.
          (s'.heap ≡ s.heap)
          × IsValid s'.session.send_buf
          × ((extra : List ℕ) × (length extra ≤ hdr_size) × (unsent s' ≡ unsent s ++ extra)))
        (session_send_buf_write frame hdr_size t)
        (session_send_buf_write_lem frame hdr_size t
          (omega (arith, length-hdr_encode type_go_away 0 0 reason))
          (record { valid = can.valid; room = can.room }) (omega arith))
        λ c u q. (
          q.only.heap,
          q.valid,
          (take q.count frame, omega (arith, q.within, length-take q.count frame), q.appended),
        )

module _ {W Q T : Type 0} where
  pub stream_send_flags_lem :
      (p : ℕ) (x : Stream Q) (s : Sys W Q T)
      → s.heap p ≡ some x
      → Returns
          (λ f t.
            (f ≡ flags_of x.state)
            × (t ≡ record s {
              heap = update s.heap p (some (record x { state = sent_state x.state }));
            }))
          (stream_send_flags p s)
  unfolding stream_send_flags
  stream_send_flags_lem p x s live = rw (live, Returns) (refl, refl)
