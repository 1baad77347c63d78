-- ===== src/Io/Torn.antt =====
-- Two threads that write at once (stream_write of mux.c): send_lock is held for each call of
-- session_send_buf_write and not for the two that make a frame.
use yamux.Common.{
  ℕ, ◌^◌, ◌≤◌, ◌<◌, ◌≡◌, subst, sym, ◌∙◌, ap, true, false, Option, some, List, [], ◌++◌, arith,
  length, length-append, take, take_all, ◌==◌, sub32,
}
use yamux.Bio.{Buffer, min_of}
use yamux.Bio.Contents.{IsValid}
use yamux.Os.{Os}
use yamux.Stailq.{Stailq}
use yamux.Tree.{Tree}
use yamux.Frame.{hdr_size, hdr_encode, type_data}
use yamux.State.{State, Stream, Sys, M, Code, success, failure, pure, load, update, ◌>>◌, ◌>>=◌}
use yamux.State.Rules.{Returns, Returns-bind}
use yamux.Data.Tells.{Works}
use yamux.Send.{flags_of, sent_state, stream_send_flags, session_send_buf_write}
use yamux.Send.Queue.{unsent, stream_send_flags_lem, length-hdr_encode}
use yamux.Io.{Io, failed, write_ready_between}
use yamux.Io.Finish.{after_body}
use yamux.Io.Written.{after_hdr}
use yamux.Io.Ample.{Put, session_send_buf_write-Put}

module _ {W Q T : Type 0} ⦃os : Os W⦄ ⦃sq : Stailq Buffer Q⦄ ⦃tr : Tree T⦄ where
  -- What has been queued is valid, and starts after what was there.
  pub record Queues (before after : List ℕ) (s : Sys W Q T) : Type 0 where
    pub valid : IsValid s.session.send_buf
    pub queued : unsent s ≡ before ++ after

  after_body-Queues :
      (q max : ℕ) (x : Stream Q) (before after : List ℕ) (s : Sys W Q T)
      → s.heap q ≡ some x
      → max < x.send_window
      → x.send_window < 2 ^ 32
      → Queues before after s
      → Returns (λ (_ : Io) t. Queues before after t) (after_body q max success s)
  after_body-Queues q max x before after s live less word h =
      let e : (sub32 x.send_window max == 0) ≡ false = ground arith in
      rw (live, Returns, e) (record { valid = h.valid; queued = h.queued })

  -- The other thread has written.
  abbrev after_other : ℕ → List ℕ → ℕ → List ℕ → Code → M W Q T Io
  after_other q bytes max extra success = do
    session_send_buf_write extra (length extra)
    after_hdr q bytes max success
  after_other q bytes max extra failure = pure failed

  after_other-Queues :
      (q n : ℕ) (bytes extra : List ℕ) {hdr : List ℕ} (y : Stream Q) (t w : Sys W Q T)
      → Works os
      → t.heap q ≡ some y
      → w.heap ≡ t.heap
      → n ≤ length bytes
      → n < 2 ^ 30
      → n < y.send_window
      → y.send_window < 2 ^ 32
      → length extra < 2 ^ 30
      → length (unsent w) < 2 ^ 30
      → IsValid w.session.send_buf
      → unsent w ≡ hdr
      → Returns
          (λ (_ : Io) u. Queues (hdr ++ extra) (take n bytes) u)
          (after_other q bytes n extra success w)
  after_other-Queues q n bytes extra {hdr} y t w works live heap has small less word few short v
        first =
      let R : Io → Sys W Q T → Type 0 = λ _ u. Queues (hdr ++ extra) (take n bytes) u in
      Returns-bind (λ c u. Put extra (length extra) c w u) R
        (session_send_buf_write extra (length extra) w) (λ _. after_hdr q bytes n success)
        (session_send_buf_write-Put extra (length extra) w works.memory (omega arith)
          (record { valid = v; room = omega (arith, short, few) }) (omega (arith, few)))
        λ c u h.
          let both : unsent u ≡ hdr ++ extra =
            h.queued
            ∙ ap (λ ys. unsent w ++ ys) (take_all (length extra) extra (omega arith))
            ∙ ap (λ ys. ys ++ extra) first in
          Returns-bind (λ d z. Put bytes n d u z) R (session_send_buf_write bytes n u)
            (after_body q n)
            (session_send_buf_write-Put bytes n u works.memory has
              (record {
                valid = h.valid;
                room = omega (
                  arith,
                  ap (length {A = ℕ}) both,
                  length-append hdr extra,
                  ap (length {A = ℕ}) first,
                  short,
                  few,
                  small,
                );
              })
              (omega (arith, small)))
            λ d z k. rw (k.good) (
              after_body-Queues q n y (hdr ++ extra) (take n bytes) z
                (ap (λ (m : ℕ → Option (Stream Q)). m q) (k.heap ∙ h.heap ∙ heap) ∙ live) less word
                (record {
                  valid = k.valid;
                  queued = k.queued ∙ ap (λ ys. ys ++ take n bytes) both;
                }))

  -- After the flags are taken.
  abbrev after_flags_sent : ℕ → List ℕ → ℕ → List ℕ → ℕ → M W Q T Io
  after_flags_sent q bytes max extra flags = do
    stream ← load q
    sent ← session_send_buf_write (hdr_encode type_data flags stream.id max) hdr_size
    after_other q bytes max extra sent

  pub write_ready_between-Queues :
      (q n : ℕ) (bytes extra : List ℕ) (x : Stream Q) (s : Sys W Q T)
      → Works os
      → s.heap q ≡ some x
      → x.state ≡ State.established
      → n ≤ length bytes
      → n < 2 ^ 30
      → n < x.send_window
      → x.send_window < 2 ^ 32
      → length extra < 2 ^ 30
      → unsent s ≡ []
      → IsValid s.session.send_buf
      → Returns
          (λ (_ : Io) t. Queues (hdr_encode type_data 0 x.id n ++ extra) (take n bytes) t)
          (write_ready_between
            (session_send_buf_write extra (length extra))
            q
            bytes
            n
            x.send_window
            s)
  unfolding write_ready_between
  write_ready_between-Queues q n bytes extra x s works live up has small less word few empty v =
      let max = min_of x.send_window n in
      let whole : max ≡ n = ground arith in
      let y = record x { state = sent_state x.state } in
      let t : Sys W Q T = record s { heap = update s.heap q (some y) } in
      let frame = hdr_encode type_data (flags_of x.state) x.id n in
      let long = length-hdr_encode type_data (flags_of x.state) x.id n in
      let none_yet = ap (length {A = ℕ}) empty in
      let self : (q == q) ≡ true = ground arith in
      let live_t : t.heap q ≡ some y = ground arith in
      let R : Io → Sys W Q T → Type 0 =
        λ _ u. Queues (hdr_encode type_data 0 x.id n ++ extra) (take n bytes) u in
      Returns-bind (λ fl u. (fl ≡ flags_of x.state) × (u ≡ t)) R (stream_send_flags q s)
        (after_flags_sent q bytes max extra) (stream_send_flags_lem q x s live)
        λ fl u (ef, eu).
          subst (λ g. Returns R (after_flags_sent q bytes max extra g u)) (sym ef)
            (subst (λ w. Returns R (after_flags_sent q bytes max extra (flags_of x.state) w))
              (sym eu)
              (subst (λ m. Returns R (after_flags_sent q bytes m extra (flags_of x.state) t))
                (sym whole)
                (rw (self, Returns)
                  (Returns-bind (λ c w. Put frame hdr_size c t w) R
                    (session_send_buf_write frame hdr_size t) (after_other q bytes n extra)
                    (session_send_buf_write-Put frame hdr_size t works.memory (omega (arith, long))
                      (record { valid = v; room = omega (arith, none_yet) }) (omega arith))
                    λ c w h.
                      let first : unsent w ≡ hdr_encode type_data 0 x.id n =
                        h.queued
                        ∙ ap (λ ys. ys ++ take hdr_size frame) empty
                        ∙ take_all hdr_size frame (omega (arith, long))
                        ∙ ap (λ st. hdr_encode type_data (flags_of st) x.id n) up in
                      rw (h.good) (
                        after_other-Queues q n bytes extra y t w works live_t h.heap has small less
                          word few
                          (omega (
                            arith,
                            ap (length {A = ℕ}) first,
                            length-hdr_encode type_data 0 x.id n,
                          ))
                          h.valid first)))))
