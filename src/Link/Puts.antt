-- ===== src/Link/Puts.antt =====
-- A write on one side of a link (stream_write of mux.c, carried over) is a write to its channel.
use yamux.Common.{
  ℕ, ◌+◌, ◌-◌, ◌^◌, ◌<◌, ◌≡◌, ◌≢◌, sym, subst, ◌∙◌, ap, Option, List, [], ◌++◌, arith, length,
  length-append, take, take_all, sub32,
}
use yamux.Bio.{Buffer}
use yamux.Bio.Contents.{contents, IsValid}
use yamux.Os.{Os}
use yamux.Stailq.{Stailq}
use yamux.Tree.{Tree}
use yamux.Frame.{hdr_size, hdr_encode, type_data, has_flag, flag_syn}
use yamux.Frame.Codec.{hdr_decode-encode}
use yamux.State.{State, Stream, Sys, success}
use yamux.State.Rules.{Returns, Returns-bind}
use yamux.Data.Tells.{Works}
use yamux.Flags.Step.{after_flags}
use yamux.Send.{flags_of, sent_state}
use yamux.Send.Queue.{unsent, length-hdr_encode}
use yamux.Process.{Outcome, returned}
use yamux.Process.Deliver.{Framed, Arrived}
use yamux.Io.{Io, count, stream_write}
use yamux.Io.Ample.{Sent, stream_write-Sent}
use yamux.Link.{puts, carry_all, exchange}
use yamux.Link.Carry.{Rest, carry_lem, carry_all-carry}
use yamux.State.Calm.{Calm}
use yamux.Sound.Keep.{Calm-IsSound}
use yamux.Link.Channel.{
  Channel, set_lem, Ends, Ends-same, Quiet, Rest-Quiet, Linked, after_op, answer, Permitted,
}

module _ {W Q T : Type 0} ⦃os : Os W⦄ ⦃sq : Stailq Buffer Q⦄ ⦃tr : Tree T⦄ where
  -- The frame that has been queued.
  Sent-queue :
      (q : ℕ) (x : Stream Q) (bytes : List ℕ) (io : Io) (a a' : Sys W Q T)
      → unsent a ≡ []
      → x.state ≡ State.established
      → Sent q (length bytes) x bytes io a a'
      → unsent a' ≡ hdr_encode type_data 0 x.id (length bytes) ++ bytes
  Sent-queue q x bytes io a a' empty up h =
      let n = length bytes in
      let hdr = hdr_encode type_data (flags_of x.state) x.id n in
      let long = length-hdr_encode type_data (flags_of x.state) x.id n in
      h.queued
      ∙ ap (λ ys. (ys ++ take hdr_size hdr) ++ take n bytes) empty
      ∙ ap (λ ys. ys ++ take n bytes) (take_all hdr_size hdr (omega (arith, long)))
      ∙ ap (λ ys. hdr ++ ys) (take_all n bytes (omega arith))
      ∙ ap (λ s. hdr_encode type_data (flags_of s) x.id n ++ bytes) up

  -- It fits the other session.
  Linked-Framed :
      (L : ℕ → Type 0) (links : ℕ → ℕ) (f : ℕ → Channel) (a b : Sys W Q T) (q : ℕ) (l : L q)
      (bytes : List ℕ) (k : Linked L links f a b)
      → 0 < length bytes
      → length bytes < (f q).credit
      → let e = k.ends q l in
        Framed
          (links q)
          State.established
          e.reader
          (hdr_encode type_data 0 e.writer.id (length bytes))
          bytes
          b
  unfolding has_flag
  Linked-Framed L links f a b q l bytes k pos fits =
      let e = k.ends q l in
      let n = length bytes in
      let win = k.far.sound.windowed (links q) e.reader e.receives in
      let (long, all, right, kind, flags, id, len) =
        hdr_decode-encode type_data 0 e.writer.id n (omega arith) (omega arith) e.id_fits
          (omega (arith, win.promised, e.agreed, e.credit)) in
      record {
        start = k.far.between;
        long = long;
        right_version = right;
        kind = kind;
        counted = len;
        found = ap (λ i. tr.find i b.session.streams) id ∙ e.same_id;
        here = e.receives;
        plain = ap (λ fl. has_flag fl flag_syn) flags;
        fine = ap (λ fl. after_flags fl e.reader.state) flags ∙ ap (λ s. (success, s)) e.reader_up;
        some_bytes = pos;
        fits = omega (arith, fits, e.agreed, e.credit);
      }

  -- The channels after a write.
  Linked-puts :
      (L : ℕ → Type 0) (links : ℕ → ℕ) (f : ℕ → Channel) (a b a' a'' b' : Sys W Q T) (q : ℕ)
      (l : L q) (bytes : List ℕ) (io : Io) (k : Linked L links f a b)
      → length bytes < (f q).credit
      → Sent q (length bytes) (k.ends q l).writer bytes io a a'
      → Rest (hdr_size + length bytes) a' a''
      → Arrived (links q) State.established (k.ends q l).reader bytes b b'
      → Quiet a''
      → Linked L links (after_op (puts q bytes) f) a'' b'
  Linked-puts L links f a b a' a'' b' q l bytes io k fits sent rest h near =
      let e = k.ends q l in
      let n = length bytes in
      let win = k.far.sound.windowed (links q) e.reader e.receives in
      let narrower : sub32 e.writer.send_window n ≡ e.writer.send_window - n =
        omega (arith, fits, e.credit, e.agreed, win.promised) in
      let kept : (r : ℕ) → a''.heap r ≡ a'.heap r =
        λ r. ap (λ (m : ℕ → Option (Stream Q)). m r) rest.heap in
      let tree : a''.session.streams ≡ a.session.streams = rest.calm.streams ∙ sent.streams in
      record {
        apart = k.apart;
        near = near;
        far = record {
          sound = h.sound;
          valid = subst IsValid (sym h.send_buf) k.far.valid;
          nothing_queued = ap contents h.send_buf ∙ k.far.nothing_queued;
          nothing_unread = h.empty;
          between = h.between;
        };
        ends =
            set_lem L
              (λ r c.
                Ends r (links r) c (a''.heap r) (b'.heap (links r)) a''.session.streams
                  b'.session.streams)
              f q _
              (record {
                writer = record e.writer {
                  state = sent_state e.writer.state;
                  send_window = sub32 e.writer.send_window n;
                };
                reader = h.stream;
                sends = kept q ∙ sent.here;
                receives = h.here;
                up = ap sent_state e.up;
                reader_up = h.state;
                padded = e.padded;
                knows = ap (tr.find e.writer.id) tree ∙ e.knows;
                same_id = ap (tr.find e.writer.id) h.streams ∙ e.same_id;
                id_fits = e.id_fits;
                agreed = omega (arith, narrower, h.window, e.agreed);
                credit = omega (arith, narrower, e.credit);
                queue = h.appended ∙ ap (λ ys. ys ++ bytes) e.queue;
              })
              λ r other m.
                let away : links r ≢ links q = λ same. other (k.apart r q m l same) in
                Ends-same r (links r) (f r) (a.heap r) (a''.heap r) (b.heap (links r))
                  (b'.heap (links r)) a.session.streams a''.session.streams b.session.streams
                  b'.session.streams (kept r ∙ sent.others r other) (h.others (links r) away) tree
                  h.streams (k.ends r m);
      }

  -- A write that is permitted, on a platform with memory whose sockets take a byte.
  pub puts-Linked :
      (L : ℕ → Type 0) (links : ℕ → ℕ) (f : ℕ → Channel) (a b : Sys W Q T) (q : ℕ) (bytes : List ℕ)
      → Works os
      → Linked L links f a b
      → Permitted L (puts q bytes) f
      → Returns
          (λ io s.
            (io ≡ answer (puts q bytes) f) × Linked L links (after_op (puts q bytes) f) s.0 s.1)
          (exchange links (puts q bytes) a b)
  unfolding exchange
  puts-Linked L links f a b q bytes works k (l, pos, fits) =
      let e = k.ends q l in
      let n = length bytes in
      let win = k.far.sound.windowed (links q) e.reader e.receives in
      let small : n < 2 ^ 30 = omega (arith, win.promised, e.agreed, e.credit, fits) in
      let R : Io → Sys W Q T × Sys W Q T → Type 0 = λ io s.
        (io ≡ answer (puts q bytes) f) × Linked L links (after_op (puts q bytes) f) s.0 s.1 in
      Returns-bind (λ io a'. Sent q n e.writer bytes io a a' × Calm a a') R
        (stream_write q bytes n [] a) _
        (stream_write-Sent q bytes e.writer a works.memory e.sends e.up (omega (arith, small))
          (omega (arith, fits, e.credit)) (omega (arith, win.promised, e.agreed))
          (record {
            valid = k.near.valid;
            room = omega (arith, small, ap (length {A = ℕ}) k.near.nothing_queued);
          }))
        λ io a' (sent, calm).
          let frame = hdr_encode type_data 0 e.writer.id n in
          let long = length-hdr_encode type_data 0 e.writer.id n in
          let queued = Sent-queue q e.writer bytes io a a' k.near.nothing_queued e.up sent in
          let size : length (unsent a') ≡ hdr_size + n =
            omega (arith, ap (length {A = ℕ}) queued, length-append frame bytes, long) in
          let R' : Outcome → Sys W Q T × Sys W Q T → Type 0 = λ o s.
            (o ≡ returned success)
            × Rest (hdr_size + n) a' s.0
            × Arrived (links q) State.established e.reader bytes b s.1 in
          Returns-bind R' R (carry_all a' b) _
            (carry_all-carry R' (hdr_size + n) a' b sent.valid size (omega (arith, small)) (
              carry_lem (hdr_size + n) (links q) State.established e.reader frame bytes a' b works
                sent.valid k.far.sound k.far.nothing_unread
                (take_all (hdr_size + n) (unsent a') (omega (arith, size)) ∙ queued)
                (omega (arith, length-append frame bytes, long, small))
                (Linked-Framed L links f a b q l bytes k pos fits)))
            λ o s (ok, rest, h).
              rw (ok, Returns)
                (
                  sent.result ∙ ap (λ c. count c []) (omega (arith, small)),
                  Linked-puts L links f a b a' s.0 s.1 q l bytes io k fits sent rest h (
                      Rest-Quiet (hdr_size + n) a' s.0 (Calm-IsSound a a' calm k.near.sound)
                        (ap contents calm.recv_buf ∙ k.near.nothing_unread)
                        (calm.new_frame ∙ k.near.between) (omega (arith, size)) rest),
                )
