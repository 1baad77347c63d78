-- ===== src/Link/Repay.antt =====
-- What a read has queued comes back to the writer's session (session_process of mux.c): nothing, or
-- a window update.
use yamux.Common.{
  ℕ, ◌+◌, ◌%◌, ◌^◌, ◌<◌, ◌≡◌, ◌≢◌, refl, sym, subst, ◌∙◌, ap, true, Option, some, [], append-nil,
  arith, length,
}
use yamux.Bio.{Buffer}
use yamux.Bio.Contents.{contents, IsValid}
use yamux.Os.{Os}
use yamux.Stailq.{Stailq}
use yamux.Tree.{Tree}
use yamux.Frame.{hdr_encode, type_window_update}
use yamux.Frame.Codec.{hdr_decode-encode}
use yamux.State.{Stream, Sys, success}
use yamux.State.Rules.{Returns, Returns-map}
use yamux.Process.{returned, session_process}
use yamux.Process.Frame.{session_process_none}
use yamux.Process.Credit.{Credits, Credited, session_process-Credited}
use yamux.Buffers.Input.{Receives}
use yamux.Handlers.Wake.{Drains}
use yamux.Link.Channel.{Quiet}

module _ {W Q T : Type 0} ⦃sq : Stailq Buffer Q⦄ ⦃tr : Tree T⦄ where
  -- The stream at q, x before, may send d bytes more; nothing else has changed.
  pub record Repaid (q d : ℕ) (x : Stream Q) (a a' : Sys W Q T) : Type 0 where
    pub near : Quiet a'
    pub writer : Stream Q
    pub here : a'.heap q ≡ some writer
    pub id : writer.id ≡ x.id
    pub state : writer.state ≡ x.state
    pub padding : writer.send_padding ≡ x.send_padding
    pub window : writer.send_window ≡ x.send_window + d
    pub others : (r : ℕ) → r ≢ q → a'.heap r ≡ a.heap r
    pub streams : a'.session.streams ≡ a.session.streams

module _ {W Q T : Type 0} ⦃os : Os W⦄ ⦃sq : Stailq Buffer Q⦄ ⦃tr : Tree T⦄ where
  -- No byte comes.
  pub none-Repaid :
      (q : ℕ) (x : Stream Q) (a a' : Sys W Q T)
      → Quiet a
      → a.heap q ≡ some x
      → Receives [] 0 a a'
      → Returns (λ o t. (o ≡ returned success) × Repaid q 0 x a t) (session_process a')
  none-Repaid q x a a' quiet live h =
      let empty = h.appended ∙ append-nil (contents a.session.recv_buf) ∙ quiet.nothing_unread in
      Returns-map (λ o t. (o ≡ returned success) × (t ≡ a')) _ (session_process a')
        (session_process_none a' h.sound empty)
        λ o t (ok, same). (
          ok,
          subst (Repaid q 0 x a) (sym same) (record {
            near = record {
              sound = h.sound;
              valid = subst IsValid (sym h.send_buf) quiet.valid;
              nothing_queued = ap contents h.send_buf ∙ quiet.nothing_queued;
              nothing_unread = empty;
              between = h.frame.0 ∙ quiet.between;
            };
            writer = x;
            here = ap (λ (m : ℕ → Option (Stream Q)). m q) h.heap ∙ live;
            id = refl;
            state = refl;
            padding = refl;
            window = omega arith;
            others = λ r other. ap (λ (m : ℕ → Option (Stream Q)). m r) h.heap;
            streams = h.frame.3;
          }),
        )

  -- A window update comes.
  pub update-Repaid :
      (q d : ℕ) (x : Stream Q) (a a' : Sys W Q T)
      → Drains os
      → Quiet a
      → a.heap q ≡ some x
      → 0 < x.send_padding
      → x.id < 2 ^ 32
      → tr.find x.id a.session.streams ≡ some q
      → 0 < d
      → x.send_window + d < 2 ^ 32
      → let hdr = hdr_encode type_window_update 0 x.id d in
        Receives hdr (length hdr) a a'
        → contents a'.session.recv_buf ≡ hdr
        → Returns (λ o t. (o ≡ returned success) × Repaid q d x a t) (session_process a')
  update-Repaid q d x a a' drains quiet live pad id_fits knows pos word h input =
      let hdr = hdr_encode type_window_update 0 x.id d in
      let (long, all, right, kind, flags, id, len) =
        hdr_decode-encode type_window_update 0 x.id d (omega arith) (omega arith) id_fits
          (omega arith) in
      let credits : Credits q d hdr a' = record {
        long = long;
        right_version = right;
        kind = kind;
        plain = flags;
        counted = len;
        found = ap (λ i. tr.find i a'.session.streams) id ∙ ap (tr.find x.id) h.frame.3 ∙ knows;
        more = pos;
      } in
      Returns-map (λ o t. (o ≡ returned success) × Credited q d x a' t) _ (session_process a')
        (session_process-Credited q d x hdr a' drains h.sound (h.frame.0 ∙ quiet.between) input
          (ap (λ (m : ℕ → Option (Stream Q)). m q) h.heap ∙ live) pad credits)
        λ o t (ok, c). (
          ok,
          record {
            near = record {
              sound = c.sound;
              valid = subst IsValid (sym (c.send_buf ∙ h.send_buf)) quiet.valid;
              nothing_queued = ap contents (c.send_buf ∙ h.send_buf) ∙ quiet.nothing_queued;
              nothing_unread = c.empty;
              between = c.between;
            };
            writer = record x { send_window = (x.send_window + d) % 2 ^ 32; writeable = true };
            here = c.here;
            id = refl;
            state = refl;
            padding = refl;
            window = omega (arith, word);
            others = λ r other. c.others r other ∙ ap (λ (m : ℕ → Option (Stream Q)). m r) h.heap;
            streams = c.streams ∙ h.frame.3;
          },
        )
