-- ===== src/Link/Taken.antt =====
-- The channels after a read (stream_read of mux.c, and its window update carried back).
use yamux.Common.{ℕ, ◌+◌, ◌≡◌, ◌≢◌, sym, subst, ◌∙◌, ap, Option, arith, inl, inr, drop}
use yamux.Bio.{Buffer}
use yamux.Os.{Os}
use yamux.Stailq.{Stailq}
use yamux.Tree.{Tree}
use yamux.State.{Stream, Sys}
use yamux.State.Signals.{Alike}
use yamux.Data.Inside.{one_value}
use yamux.Send.{sent_state}
use yamux.Io.{Io}
use yamux.Io.Read.{ReadOut}
use yamux.Io.Refill.{Refill}
use yamux.Link.{takes}
use yamux.Link.Repay.{Repaid}
use yamux.Link.Channel.{Channel, set_lem, refill, Ends, Ends-same, Quiet, Linked, after_op}

module _ {W Q T : Type 0} ⦃os : Os W⦄ ⦃sq : Stailq Buffer Q⦄ ⦃tr : Tree T⦄ (L : ℕ → Type 0)
    (links : ℕ → ℕ) (f : ℕ → Channel) (a b : Sys W Q T) (k : Linked L links f a b) (q size : ℕ)
    (l : L q) where
  -- The channels after a read that has given d bytes of credit back.
  pub Linked-takes :
      (d : ℕ) (io : Io) (a' b' b'' : Sys W Q T)
      → ReadOut (links q) (k.ends q l).reader size io b b'
      → (h : Refill (links q) size (k.ends q l).reader b b')
      → h.stream.recv_window ≡ (k.ends q l).reader.recv_window + d
      → refill (record (f q) { queue = drop size (f q).queue })
        ≡ record { queue = drop size (f q).queue; credit = (f q).credit + d }
      → Repaid q d (k.ends q l).writer a a'
      → Quiet b''
      → b''.heap ≡ b'.heap
      → b''.session.streams ≡ b'.session.streams
      → Linked L links (after_op (takes q size) f) a' b''
  Linked-takes d io a' b' b'' out h window channel paid far heap tree =
      let e = k.ends q l in
      let kept : (r : ℕ) → b''.heap r ≡ b'.heap r =
        λ r. ap (λ (m : ℕ → Option (Stream Q)). m r) heap in
      let one = one_value (b'.heap (links q)) out.stream h.stream out.here h.here in
      record {
        apart = k.apart;
        near = paid.near;
        far = far;
        ends =
            set_lem L
              (λ r c.
                Ends r (links r) c (a'.heap r) (b''.heap (links r)) a'.session.streams
                  b''.session.streams)
              f q _
              (record {
                writer = paid.writer;
                reader = out.stream;
                sends = paid.here;
                receives = kept (links q) ∙ out.here;
                up = paid.state ∙ e.up;
                reader_up = elim out.state [
                  | inl same ↦ same ∙ e.reader_up
                  | inr sent ↦ sent ∙ ap sent_state e.reader_up
                ];
                padded = omega (arith, e.padded, paid.padding);
                knows =
                    ap (λ i. tr.find i a'.session.streams) paid.id
                    ∙ ap (tr.find e.writer.id) paid.streams
                    ∙ e.knows;
                same_id =
                    ap (λ i. tr.find i b''.session.streams) paid.id
                    ∙ ap (tr.find e.writer.id) (tree ∙ out.streams)
                    ∙ e.same_id;
                id_fits = omega (arith, e.id_fits, paid.id);
                agreed = omega (
                  arith,
                  paid.window,
                  window,
                  e.agreed,
                  ap (λ (z : Stream Q). z.recv_window) one,
                );
                credit =
                    paid.window ∙ omega (arith, e.credit, ap (λ (c : Channel). c.credit) channel);
                queue =
                    out.left ∙ ap (drop size) e.queue ∙ sym (ap (λ (c : Channel). c.queue) channel);
              })
              λ r other m.
                let away : links r ≢ links q = λ same. other (k.apart r q m l same) in
                Ends-same r (links r) (f r) (a.heap r) (a'.heap r) (b.heap (links r))
                  (b''.heap (links r)) a.session.streams a'.session.streams b.session.streams
                  b''.session.streams (paid.others r other)
                  (subst (Alike (b.heap (links r))) (sym (kept (links r)))
                    (out.others (links r) away))
                  paid.streams (tree ∙ out.streams) (k.ends r m);
      }
