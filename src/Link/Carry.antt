-- ===== src/Link/Carry.antt =====
-- A data frame from one session of mux.c to the other, and stream_write on one side with
-- session_process on the other.
use yamux.Common.{
  ℕ, ◌+◌, ◌^◌, ◌<◌, ◌≡◌, ◌≢◌, ◌⊎◌, subst, ◌∙◌, ap, true, false, Option, some, List, [], ◌++◌, arith,
  inl, inr, length, take, drop, take_all, int_of, sym, ◌==◌, minus_one,
}
use yamux.Bio.{Buffer, bio_write}
use yamux.Bio.Contents.{contents, IsValid}
use yamux.Bio.Memory.{bio_write_whole}
use yamux.Os.{Os, Block}
use yamux.Stailq.{Stailq}
use yamux.Tree.{Tree}
use yamux.Frame.{hdr_stream_id}
use yamux.State.{State, Stream, Sys}
use yamux.State.Rules.{Returns, Returns-bind, Returns-map, Returns-both}
use yamux.State.Calm.{Calm}
use yamux.State.Signals.{Alike}
use yamux.Sound.{IsSound}
use yamux.Data.Tells.{Works}
use yamux.Send.Queue.{unsent}
use yamux.Data.Inside.{unread}
use yamux.Process.{Outcome, returned, session_process}
use yamux.State.{success}
use yamux.Process.Deliver.{Framed, Arrived, session_process-Arrived}
use yamux.Buffers.{
  session_send_buf_pending, session_recv_buf_write, session_send_buf_peek, session_send_buf_consume,
}
use yamux.Buffers.Input.{
  session_send_buf_pending_lem, Receives, OnlyQueue-Calm, session_recv_buf_write_lem, send_buf_lem,
}
use yamux.Link.{carry, carry_all}

module _ {W Q T : Type 0} ⦃os : Os W⦄ ⦃sq : Stailq Buffer Q⦄ ⦃tr : Tree T⦄ where
  -- With memory all bytes are appended to the input.
  session_recv_buf_write_whole :
      (bytes : List ℕ) (s : Sys W Q T)
      → ((b : Block) (w : W) → (os.malloc b w).0 ≡ true)
      → length bytes < 2 ^ 31
      → Returns (λ r _. r ≢ minus_one) (session_recv_buf_write bytes (length bytes) s)
  unfolding session_recv_buf_write
  session_recv_buf_write_whole bytes s memory small =
      let n = length bytes in
      let e : ((bio_write bytes n s.session.recv_buf s.world).0 == minus_one) ≡ false =
        ground (arith, bio_write_whole memory bytes n s.session.recv_buf s.world) in
      rw (Returns, e) (λ h. absurd (omega (arith, h)))

  Arrived-Receives :
      (p k : ℕ) (c : State) (y : Stream Q) (payload bytes : List ℕ) (b b' b'' : Sys W Q T)
      → Receives bytes k b b'
      → Arrived p c y payload b' b''
      → Arrived p c y payload b b''
  Arrived-Receives p k c y payload bytes b b' b'' h a = record {
    sound = a.sound;
    stream = a.stream;
    here = a.here;
    appended = a.appended;
    state = a.state;
    window = a.window;
    told = a.told;
    empty = a.empty;
    between = a.between;
    streams = a.streams ∙ h.frame.3;
    send_buf = a.send_buf ∙ h.send_buf;
    others = λ q other.
        subst (λ (m : ℕ → Option (Stream Q)). Alike (m q) (b''.heap q)) h.heap (a.others q other);
  }

  -- Bytes that come to a session.
  pub received :
      (P : Sys W Q T → Type 0) (bytes : List ℕ) (b : Sys W Q T)
      → ((d : Block) (w : W) → (os.malloc d w).0 ≡ true)
      → IsSound b
      → unread b + length bytes < 2 ^ 31
      → ((b' : Sys W Q T)
          → Receives bytes (length bytes) b b'
          → Returns (λ o b''. (o ≡ returned success) × P b'') (session_process b'))
      → Returns
          (λ r b'. Returns (λ o b''. (o ≡ returned success) × P b'') (session_process b'))
          (session_recv_buf_write bytes (length bytes) b)
  received P bytes b memory v small next =
      let R : ℕ → Sys W Q T → Type 0 = λ r b'.
        (k : ℕ) × Receives bytes k b b'
        × ((r ≡ length bytes) × (k ≡ length bytes) ⊎ (r ≡ minus_one) × (k < length bytes)) in
      Returns-map (λ r b'. R r b' × (r ≢ minus_one)) _
        (session_recv_buf_write bytes (length bytes) b)
        (Returns-both R (λ r _. r ≢ minus_one) (session_recv_buf_write bytes (length bytes) b)
          (session_recv_buf_write_lem bytes b v small)
          (session_recv_buf_write_whole bytes b memory (omega arith)))
        λ r b' ((k, h, how), fine). elim how [
          | inr (bad, less) ↦ absurd (fine bad)
          | inl (whole, all) ↦ next b' (subst (λ m. Receives bytes m b b') all h)
        ]

  -- The first n bytes have been taken from what is queued, and no stream has changed.
  pub record Rest (n : ℕ) (a a' : Sys W Q T) : Type 0 where
    pub valid : IsValid a'.session.send_buf
    pub left : unsent a' ≡ drop n (unsent a)
    pub heap : a'.heap ≡ a.heap
    pub calm : Calm a a'

  -- The first n bytes that one session has queued come to another, which has nothing unread and
  -- does with them as P says.
  pub carry_bytes :
      (P : Sys W Q T → Type 0) (n : ℕ) (bytes : List ℕ) (a b : Sys W Q T)
      → ((d : Block) (w : W) → (os.malloc d w).0 ≡ true)
      → IsValid a.session.send_buf
      → IsSound b
      → contents b.session.recv_buf ≡ []
      → take n (unsent a) ≡ bytes
      → length bytes < 2 ^ 31
      → ((b' : Sys W Q T)
          → Receives bytes (length bytes) b b'
          → contents b'.session.recv_buf ≡ bytes
          → Returns (λ o b''. (o ≡ returned success) × P b'') (session_process b'))
      → Returns (λ o s. (o ≡ returned success) × Rest n a s.0 × P s.1) (carry n a b)
  unfolding carry
  carry_bytes P n bytes a b memory valid v empty shown small next =
      let R : Outcome → Sys W Q T × Sys W Q T → Type 0 =
        λ o s. (o ≡ returned success) × Rest n a s.0 × P s.1 in
      Returns-bind _ R (session_send_buf_peek n a) _ (send_buf_lem n n a valid)
        λ r a' (same, out, taken).
          Returns-bind _ R (session_send_buf_consume n a') _ taken
            λ taken_count a'' (only, valid', rest, counted).
              let whole = ap (λ (u : Sys W Q T). u.heap) only in
              let calm = OnlyQueue-Calm a a'' only in
              let e : r.1 ≡ bytes = out ∙ shown in
              Returns-bind _ R (session_recv_buf_write r.1 (length r.1) b) _
                (received P r.1 b memory v
                  (omega (arith, ap (length {A = ℕ}) e, ap (length {A = ℕ}) empty))
                  λ b' h.
                    let h' = subst (λ ys. Receives ys (length ys) b b') e h in
                    next b' h' (
                      h'.appended
                      ∙ ap (λ ys. ys ++ take (length bytes) bytes) empty
                      ∙ take_all (length bytes) bytes (omega arith)))
                λ q b' done.
                  Returns-bind _ R (session_process b') (λ o b''. some (o, (a'', b''))) done
                    λ o b'' (ok, h).
                      (ok, record { valid = valid'; left = rest; heap = whole; calm = calm }, h)

  -- The first n bytes that one session has queued are a frame for the other.
  pub carry_lem :
      (n p : ℕ) (c : State) (y : Stream Q) (hdr payload : List ℕ) (a b : Sys W Q T)
      → Works os
      → IsValid a.session.send_buf
      → IsSound b
      → contents b.session.recv_buf ≡ []
      → take n (unsent a) ≡ hdr ++ payload
      → length (hdr ++ payload) < 2 ^ 31
      → Framed p c y hdr payload b
      → Returns
          (λ o s. (o ≡ returned success) × Rest n a s.0 × Arrived p c y payload b s.1)
          (carry n a b)
  carry_lem n p c y hdr payload a b works valid v empty shown small f =
      carry_bytes (Arrived p c y payload b) n (hdr ++ payload) a b works.memory valid v empty shown
        small
        λ b' h input.
          let framed : Framed p c y hdr payload b' = record {
            start = h.frame.0 ∙ f.start;
            long = f.long;
            right_version = f.right_version;
            kind = f.kind;
            counted = f.counted;
            found = ap (λ t. tr.find (hdr_stream_id hdr) t) h.frame.3 ∙ f.found;
            here = ap (λ (m : ℕ → Option (Stream Q)). m p) h.heap ∙ f.here;
            plain = f.plain;
            fine = f.fine;
            some_bytes = f.some_bytes;
            fits = f.fits;
          } in
          Returns-map _ _ (session_process b')
            (session_process-Arrived p c y hdr payload b' works h.sound input framed)
            λ o b'' (ok, a''). (
              ok,
              Arrived-Receives p (length (hdr ++ payload)) c y payload (hdr ++ payload) b b' b'' h
                  a'',
            )

  -- All that is queued is carried.
  pub carry_all-carry :
      (R : Outcome → Sys W Q T × Sys W Q T → Type 0) (n : ℕ) (a b : Sys W Q T)
      → IsValid a.session.send_buf
      → length (unsent a) ≡ n
      → n < 2 ^ 31
      → Returns R (carry n a b)
      → Returns R (carry_all a b)
  unfolding carry_all
  carry_all-carry R n a b v long small h =
      let e : int_of (length (unsent a)) ≡ n = omega (arith, long, small) in
      Returns-bind (λ r t. (r ≡ int_of (length (unsent a))) × (t ≡ a)) R
        (session_send_buf_pending a) (λ r t. carry r t b) (session_send_buf_pending_lem a v)
        λ r t (er, et).
          subst (λ u. Returns R (carry r u b)) (sym et)
            (subst (λ k. Returns R (carry k a b)) (sym (er ∙ e)) h)
