-- ===== src/Link/Takes.antt =====
-- A read on one side of a link (stream_read of mux.c, and its window update carried back) is a read
-- from its channel.
use yamux.Common.{
  ℕ, ◌+◌, ◌^◌, ◌<◌, ◌≡◌, ◌⊎◌, sym, ◌∙◌, ap, List, [], ◌++◌, arith, inl, inr, length, take, take_all,
  drop, min,
}
use yamux.Bio.{Buffer}
use yamux.Bio.Contents.{contents}
use yamux.Os.{Os}
use yamux.Stailq.{Stailq}
use yamux.Tree.{Tree}
use yamux.Frame.{hdr_encode, type_window_update}
use yamux.State.{Stream, Sys, success}
use yamux.State.Rules.{Returns, Returns-bind, Returns-map, Returns-both}
use yamux.Data.Inside.{one_value}
use yamux.Data.Tells.{Works}
use yamux.Handlers.Wake.{Drains}
use yamux.Process.{returned, session_process}
use yamux.Send.Queue.{unsent, length-hdr_encode}
use yamux.Io.{Io, count, failed, read_ready, stream_read}
use yamux.Io.Read.{ReadOut, read_ready_lem, stream_read-read_ready}
use yamux.Io.Refill.{gap, Refill, read_ready-Refill}
use yamux.Buffers.Input.{Receives}
use yamux.Link.{takes, carry, carry_all, exchange}
use yamux.Link.Carry.{Rest, carry_bytes, carry_all-carry}
use yamux.Link.Repay.{Repaid, none-Repaid, update-Repaid}
use yamux.Link.Channel.{
  Channel, spare_of, refill, refill_little, refill_much, Rest-Quiet, Linked, after_op, answer,
}
use yamux.Link.Taken.{Linked-takes}

module _ {W Q T : Type 0} ⦃os : Os W⦄ ⦃sq : Stailq Buffer Q⦄ ⦃tr : Tree T⦄ (L : ℕ → Type 0)
    (links : ℕ → ℕ) (f : ℕ → Channel) (a b : Sys W Q T) (k : Linked L links f a b) (q size : ℕ)
    (l : L q) where
  -- The bytes that the read has queued come back.
  carried_bytes :
      (d : ℕ) (bytes : List ℕ) (io : Io) (b' : Sys W Q T)
      → Works os
      → ReadOut (links q) (k.ends q l).reader size io b b'
      → (h : Refill (links q) size (k.ends q l).reader b b')
      → h.stream.recv_window ≡ (k.ends q l).reader.recv_window + d
      → refill (record (f q) { queue = drop size (f q).queue })
        ≡ record { queue = drop size (f q).queue; credit = (f q).credit + d }
      → unsent b' ≡ bytes
      → length bytes < 2 ^ 31
      → ((a' : Sys W Q T)
          → Receives bytes (length bytes) a a'
          → contents a'.session.recv_buf ≡ bytes
          → Returns
              (λ o t. (o ≡ returned success) × Repaid q d (k.ends q l).writer a t)
              (session_process a'))
      → Returns
          (λ o s. (o ≡ returned success) × Linked L links (after_op (takes q size) f) s.1 s.0)
          (carry_all b' a)
  carried_bytes d bytes io b' works out h window channel queued small next =
      let n = length bytes in
      let e = k.ends q l in
      let long : length (unsent b') ≡ n = ap (length {A = ℕ}) queued in
      carry_all-carry _ n b' a h.valid long small (
        Returns-map (λ o s. (o ≡ returned success) × Rest n b' s.0 × Repaid q d e.writer a s.1) _
          (carry n b' a)
          (carry_bytes (Repaid q d e.writer a) n bytes b' a works.memory h.valid k.near.sound
            k.near.nothing_unread (take_all n (unsent b') (omega (arith, long)) ∙ queued) small
            next)
          λ o s (ok, rest, paid). (
            ok,
            Linked-takes L links f a b k q size l d io s.1 b' s.0 out h window channel paid
                (Rest-Quiet n b' s.0 out.steady.sound
                  (ap contents out.steady.input.recv_buf ∙ k.far.nothing_unread)
                  (out.steady.input.new_frame ∙ k.far.between) (omega (arith, long)) rest)
                rest.heap rest.calm.streams,
          ))

  -- What the read has queued, and what its channel comes to.
  carried :
      (io : Io) (b' : Sys W Q T)
      → Works os
      → Drains os
      → ReadOut (links q) (k.ends q l).reader size io b b'
      → Refill (links q) size (k.ends q l).reader b b'
      → Returns
          (λ o s. (o ≡ returned success) × Linked L links (after_op (takes q size) f) s.1 s.0)
          (carry_all b' a)
  carried io b' works drains out h =
      let e = k.ends q l in
      let c : Channel = record (f q) { queue = drop size (f q).queue } in
      let win = k.far.sound.windowed (links q) e.reader e.receives in
      let gaps : gap size e.reader ≡ spare_of c =
        omega (arith, ap (λ ys. length (drop size ys)) e.queue, e.agreed, e.credit) in
      elim h.told [
        | inl (little, window, same) ↦
            carried_bytes 0 [] io b' works out h (omega (arith, window))
              (refill_little c (omega (arith, little, gaps))
                ∙ ap (λ n. record c { credit = n }) (omega arith))
              (same ∙ k.far.nothing_queued) (omega arith)
              λ a' got input. none-Repaid q e.writer a a' k.near e.sends got
        | inr (much, window, queued) ↦
            let d = gap size e.reader in
            let (x, live, named) = k.far.sound.found e.writer.id (links q) e.same_id in
            let one = one_value (b.heap (links q)) e.reader x e.receives live in
            let same : e.reader.id ≡ e.writer.id = ap (λ (z : Stream Q). z.id) one ∙ named in
            let long = length-hdr_encode type_window_update 0 e.writer.id d in
            carried_bytes d (hdr_encode type_window_update 0 e.writer.id d) io b' works out h window
              (refill_much c (omega (arith, much, gaps))
                ∙ ap (λ n. record c { credit = (f q).credit + n }) (sym gaps))
              (queued
                ∙ ap (λ ys. ys ++ hdr_encode type_window_update 0 e.reader.id d)
                    k.far.nothing_queued
                ∙ ap (λ i. hdr_encode type_window_update 0 i d) same)
              (omega (arith, long))
              λ a' got input.
                update-Repaid q d e.writer a a' drains k.near e.sends e.padded e.id_fits e.knows
                  (omega (arith, much)) (omega (arith, e.agreed, win.promised)) got input
      ]

  -- A read that is permitted, on a platform with memory, where sockets take a byte and a filled
  -- socket gives bytes.
  pub takes-Linked :
      Works os
      → Drains os
      → 0 < size
      → 0 < length (f q).queue
      → Returns
          (λ io s.
            (io ≡ answer (takes q size) f) × Linked L links (after_op (takes q size) f) s.0 s.1)
          (exchange links (takes q size) a b)
  unfolding exchange
  takes-Linked works drains pos some_bytes =
      let e = k.ends q l in
      let held : 0 < length (contents e.reader.recv_buf) =
        omega (arith, some_bytes, ap (length {A = ℕ}) e.queue) in
      let R : Io → Sys W Q T → Type 0 = λ io b'.
        ReadOut (links q) e.reader size io b b'
        × ((io ≡ failed) ⊎ Refill (links q) size e.reader b b') in
      let R' : Io → Sys W Q T × Sys W Q T → Type 0 = λ io s.
        (io ≡ answer (takes q size) f) × Linked L links (after_op (takes q size) f) s.0 s.1 in
      Returns-bind R R' (stream_read (links q) size [] b) _
        (stream_read-read_ready R (links q) size e.reader b k.far.sound e.receives e.reader_up held
          (Returns-both (λ io b'. ReadOut (links q) e.reader size io b b')
            (λ io b'. (io ≡ failed) ⊎ Refill (links q) size e.reader b b')
            (read_ready (links q) size b)
            (read_ready_lem (links q) e.reader size b k.far.sound e.receives pos held)
            (read_ready-Refill (links q) size e.reader b works.memory k.far.sound
              (record {
                valid = k.far.valid;
                room = omega (arith, ap (length {A = ℕ}) k.far.nothing_queued);
              })
              e.receives e.reader_up pos held)))
        λ io b' (out, how).
          let good : io ≡ answer (takes q size) f = elim out.outcome [
            | inl e' ↦ e' ∙ ap (λ ys. count (min size (length ys)) (take size ys)) e.queue
            | inr (bad, last, (told, silent)) ↦
                absurd (ground (arith, sym silent ∙ drains.gives _ 1 _ (omega arith)))
          ] in
          elim how [
            | inl bad ↦ absurd (ground (arith, good, bad))
            | inr h ↦
                Returns-bind
                  (λ o s.
                    (o ≡ returned success) × Linked L links (after_op (takes q size) f) s.1 s.0)
                  R' (carry_all b' a) _ (carried io b' works drains out h)
                  λ o s (ok, linked). rw (ok, Returns) (good, linked)
          ]
