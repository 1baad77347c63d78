-- ===== src/Link/Write.antt =====
-- stream_write (mux.c) on one side of a connection, and the stream on the other.
use yamux.Common.{
  ℕ, ◌+◌, ◌-◌, ◌^◌, ◌≤◌, ◌<◌, ◌≡◌, ◌∙◌, ap, true, some, List, [], ◌++◌, arith, inl, inr, length,
  length-append, take, take-append, take-append_le, take_all, int_of, length-take,
}
use yamux.Bio.{Buffer, min_of}
use yamux.Bio.Contents.{contents, IsValid}
use yamux.Os.{Os}
use yamux.Stailq.{Stailq}
use yamux.Tree.{Tree}
use yamux.Frame.{hdr_size, hdr_encode, type_data, has_flag, flag_syn}
use yamux.Frame.Codec.{hdr_decode-encode}
use yamux.State.{State, Stream, Sys, success}
use yamux.State.Rules.{Returns, Returns-map, Returns-both}
use yamux.Sound.{IsSound}
use yamux.Data.Tells.{Works}
use yamux.Flags.Step.{after_flags}
use yamux.Send.{flags_of}
use yamux.Send.Queue.{unsent, length-hdr_encode}
use yamux.Process.{returned}
use yamux.Process.Deliver.{Framed, Arrived}
use yamux.Io.{Io, count, write_ready, stream_write}
use yamux.Io.Written.{Written, data_frame}
use yamux.Io.Write.{write_ready_lem}
use yamux.Io.Memory.{write_ready_counts, stream_write-write_ready}
use yamux.Link.{carry}
use yamux.Link.Carry.{carry_lem}

module _ {W Q T : Type 0} ⦃sq : Stailq Buffer Q⦄ ⦃tr : Tree T⦄ where
  -- The streams at q in a and at p in b are the two ends of one established stream, a has nothing
  -- queued, b has nothing unread, and what the writer may send is no more than the reader allows.
  pub record Joined (q p : ℕ) (x y : Stream Q) (a b : Sys W Q T) : Type 0 where
    pub writer : a.heap q ≡ some x
    pub up : x.state ≡ State.established
    pub valid : IsValid a.session.send_buf
    pub nothing_queued : unsent a ≡ []
    pub sound : IsSound b
    pub nothing_unread : contents b.session.recv_buf ≡ []
    pub between : b.session.new_frame ≡ true
    pub reader : b.heap p ≡ some y
    pub same_id : tr.find x.id b.session.streams ≡ some p
    pub id_fits : x.id < 2 ^ 32
    pub allowed : x.send_window ≤ y.recv_window

  -- The frame that is queued fits the other session.
  pub Joined-Framed :
      (q p max : ℕ) (x y : Stream Q) (bytes : List ℕ) (a b : Sys W Q T)
      → Joined q p x y a b
      → 0 < max
      → max ≤ x.send_window
      → max ≤ length bytes
      → Framed p y.state y (hdr_encode type_data 0 x.id max) (take max bytes) b
  unfolding has_flag
  Joined-Framed q p max x y bytes a b j pos fits has =
      let win = j.sound.windowed p y j.reader in
      let (long, all, right, kind, flags, id, len) =
        hdr_decode-encode type_data 0 x.id max (omega arith) (omega arith) j.id_fits
          (omega (arith, win.promised, j.allowed)) in
      let taken = length-take max bytes in
      record {
        start = j.between;
        long = long;
        right_version = right;
        kind = kind;
        counted = len ∙ omega (arith, taken);
        found = ap (λ i. tr.find i b.session.streams) id ∙ j.same_id;
        here = j.reader;
        plain = ap (λ f. has_flag f flag_syn) flags;
        fine = ap (λ f. after_flags f y.state) flags;
        some_bytes = omega (arith, taken);
        fits = omega (arith, taken, j.allowed);
      }

module _ {W Q T : Type 0} ⦃os : Os W⦄ ⦃sq : Stailq Buffer Q⦄ ⦃tr : Tree T⦄ where
  -- The frame stands first in the queue.
  Written-take :
      (q p max : ℕ) (x y : Stream Q) (bytes extra : List ℕ) (a b a' : Sys W Q T)
      → Joined q p x y a b
      → max ≤ length bytes
      → unsent a' ≡ (unsent a ++ take (hdr_size + max) (data_frame x bytes max)) ++ extra
      → take (hdr_size + max) (unsent a') ≡ hdr_encode type_data 0 x.id max ++ take max bytes
  Written-take q p max x y bytes extra a b a' j has e =
      let n = hdr_size + max in
      let hdr = hdr_encode type_data (flags_of x.state) x.id max in
      let long = length-hdr_encode type_data (flags_of x.state) x.id max in
      let frame = take n (hdr ++ bytes) in
      let size : length frame ≡ n =
        length-take n (hdr ++ bytes) ∙ omega (arith, length-append hdr bytes, long, has) in
      let rest : n - length hdr ≡ max = omega (arith, long) in
      ap (take n) (e ∙ ap (λ ys. (ys ++ frame) ++ extra) j.nothing_queued)
      ∙ take-append_le n frame extra (omega (arith, size))
      ∙ take_all n frame (omega (arith, size))
      ∙ take-append n hdr bytes
      ∙ ap (λ ys. ys ++ take (n - length hdr) bytes) (take_all n hdr (omega (arith, long)))
      ∙ ap (λ k. hdr ++ take k bytes) rest
      ∙ ap (λ s. hdr_encode type_data (flags_of s) x.id max ++ take max bytes) j.up

  -- Between a session with an established stream, whose id has 32 bits, and a valid queue with
  -- nothing in it, and a sound session between two frames with the stream of the same id, nothing
  -- unread and a receive window that is no smaller than the writer's window, on a platform with
  -- memory whose sockets take a byte: stream_write of at least one byte with an open window
  -- returns the lesser of the window and the count; and when so many bytes and a header are
  -- carried from the one queue to the other session, session_process returns 0 there, the stream
  -- has exactly the first bytes written appended to what it held, its state is the same, its
  -- window is smaller by as many, it is said to be readable, nothing is sent, and no other stream
  -- changes but in readiness.
  pub stream_write-carry :
      (q p n : ℕ) (x y : Stream Q) (bytes : List ℕ) (a b : Sys W Q T)
      → Works os
      → Joined q p x y a b
      → 0 < x.send_window
      → 0 < n
      → n ≤ length bytes
      → let max = min_of x.send_window n in
        Returns
          (λ io a'.
            (io ≡ count max [])
            × Returns
                (λ o s. (o ≡ returned success) × Arrived p y.state y (take max bytes) b s.1)
                (carry (hdr_size + max) a' b))
          (stream_write q bytes n [] a)
  stream_write-carry q p n x y bytes a b works j room pos has =
      let max = min_of x.send_window n in
      let bounds : (0 < max) × (max ≤ n) × (max ≤ x.send_window) = ground arith in
      let win = j.sound.windowed p y j.reader in
      let small : max < 2 ^ 31 = omega (arith, bounds, win.promised, j.allowed) in
      let R : Io → Sys W Q T → Type 0 = λ io a'.
        (io ≡ count max [])
        × Returns (λ o s. (o ≡ returned success) × Arrived p y.state y (take max bytes) b s.1)
            (carry (hdr_size + max) a' b) in
      let frame = hdr_encode type_data 0 x.id max in
      let long = length-hdr_encode type_data 0 x.id max in
      stream_write-write_ready R q n bytes x a j.writer j.up room (
        Returns-map (λ io a'. Written q x bytes max io a a' × (io ≡ count (int_of max) [])) R
          (write_ready q bytes n x.send_window a)
          (Returns-both (λ io a'. Written q x bytes max io a a')
            (λ io _. io ≡ count (int_of max) []) (write_ready q bytes n x.send_window a)
            (write_ready_lem q x bytes n a j.writer has (omega (arith, small))
              (omega (arith, win.promised, j.allowed))
              (record {
                valid = j.valid;
                room = omega (arith, small, ap (length {A = ℕ}) j.nothing_queued);
              }))
            (write_ready_counts q n x.send_window bytes x a works.memory (omega (arith, small))
              j.writer))
          λ io a' (w, e). elim w.outcome [
            | inl (bad, same, part) ↦ absurd (ground (arith, e, bad))
            | inr (good, window, (extra, few, app)) ↦ (
              e ∙ ap (λ k. count k []) (omega (arith, small)),
              Returns-map _ _ (carry (hdr_size + max) a' b)
                  (carry_lem (hdr_size + max) p y.state y frame (take max bytes) a' b works w.valid
                    j.sound j.nothing_unread
                    (Written-take q p max x y bytes extra a b a' j (omega (arith, bounds, has)) app)
                    (omega (
                      arith,
                      length-append frame (take max bytes),
                      long,
                      length-take max bytes,
                      win.promised,
                      j.allowed,
                      bounds,
                    ))
                    (Joined-Framed q p max x y bytes a b j bounds.0 bounds.2
                      (omega (arith, bounds, has))))
                  λ o s (ok, left, arrived). (ok, arrived),
            )
          ])
