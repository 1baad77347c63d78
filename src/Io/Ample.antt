-- ===== src/Io/Ample.antt =====
-- stream_write (mux.c) where memory does not run out and the window stays open: nothing is signalled.
use yamux.Common.{
  ℕ, ◌+◌, ◌^◌, ◌≤◌, ◌<◌, ◌≡◌, ◌≢◌, refl, ap, subst, ◌∙◌, sym, true, false, some, Option, List, [],
  ◌++◌, arith, inl, inr, length, take, length-append, length-take, minus_one, ◌==◌, int_of, sub32,
}
use yamux.Bio.{Buffer, min_of}
use yamux.Bio.Contents.{IsValid}
use yamux.Os.{Os, Block}
use yamux.Stailq.{Stailq}
use yamux.Tree.{Tree}
use yamux.Frame.{hdr_encode, hdr_size, type_data}
use yamux.State.{State, Stream, Session, Sys, Code, success, update}
use yamux.State.Rules.{Returns, Returns-bind, Returns-map, Returns-both}
use yamux.State.Calm.{Calm}
use yamux.Io.Safe.{write_ready-Calm}
use yamux.Send.{flags_of, sent_state, stream_send_flags, session_send_buf_write}
use yamux.Send.Queue.{
  unsent, CanSend, Queued, session_send_buf_write_lem, stream_send_flags_lem, length-hdr_encode,
}
use yamux.Io.{Io, count, write_ready, stream_write}
use yamux.Io.Finish.{after_body}
use yamux.Io.Written.{after_hdr, after_send_flags}
use yamux.Io.Memory.{session_send_buf_write_whole, stream_write-write_ready}

module _ {W Q T : Type 0} ⦃sq : Stailq Buffer Q⦄ where
  -- All n bytes are queued, and the rest of the session is as it was.
  pub record Put (bytes : List ℕ) (n : ℕ) (c : Code) (s s' : Sys W Q T) : Type 0 where
    pub good : c ≡ success
    pub heap : s'.heap ≡ s.heap
    pub streams : s'.session.streams ≡ s.session.streams
    pub valid : IsValid s'.session.send_buf
    pub queued : unsent s' ≡ unsent s ++ take n bytes

module _ {W Q T : Type 0} ⦃os : Os W⦄ ⦃sq : Stailq Buffer Q⦄ where
  pub session_send_buf_write-Put :
      (bytes : List ℕ) (n : ℕ) (s : Sys W Q T)
      → ((b : Block) (w : W) → (os.malloc b w).0 ≡ true)
      → n ≤ length bytes
      → CanSend n s
      → n < minus_one
      → Returns (λ c s'. Put bytes n c s s') (session_send_buf_write bytes n s)
  session_send_buf_write-Put bytes n s memory has can small =
      Returns-map (λ c t. Queued bytes n c s t × ((c ≡ success) × (t.heap ≡ s.heap)))
        (λ c t. Put bytes n c s t) (session_send_buf_write bytes n s)
        (Returns-both (λ c t. Queued bytes n c s t) (λ c t. (c ≡ success) × (t.heap ≡ s.heap))
          (session_send_buf_write bytes n s) (session_send_buf_write_lem bytes n s has can small)
          (session_send_buf_write_whole bytes n s memory small))
        λ c t (q, (good, same)). record {
          good = good;
          heap = same;
          streams = ap (λ (k : Session Q T). k.streams) q.only.session;
          valid = q.valid;
          queued =
              q.appended
              ∙ ap (λ k. unsent s ++ take k bytes)
                  (elim q.outcome [
                    | inl (_, all) ↦ all
                    | inr (bad, less) ↦ absurd (ground (arith, good, bad))
                  ]);
        }

module _ {W Q T : Type 0} ⦃os : Os W⦄ ⦃sq : Stailq Buffer Q⦄ ⦃tr : Tree T⦄ where
  -- The stream at q, x before, has sent max bytes in one frame, and its window is open still.
  pub record Sent (q max : ℕ) (x : Stream Q) (bytes : List ℕ) (io : Io) (s s' : Sys W Q T)
      : Type 0 where
    pub result : io ≡ count (int_of max) []
    pub here :
        s'.heap q
        ≡ some (record x { state = sent_state x.state; send_window = sub32 x.send_window max })
    pub others : (r : ℕ) → r ≢ q → s'.heap r ≡ s.heap r
    pub streams : s'.session.streams ≡ s.session.streams
    pub valid : IsValid s'.session.send_buf
    pub queued :
        unsent s'
        ≡ (unsent s ++ take hdr_size (hdr_encode type_data (flags_of x.state) x.id max))
          ++ take max bytes

  -- The header and the body are queued in t.
  after_body-Sent :
      (q max : ℕ) (bytes : List ℕ) (x : Stream Q) (s t : Sys W Q T)
      → max < x.send_window
      → x.send_window < 2 ^ 32
      → t.heap ≡ update s.heap q (some (record x { state = sent_state x.state }))
      → t.session.streams ≡ s.session.streams
      → IsValid t.session.send_buf
      → unsent t
        ≡ (unsent s ++ take hdr_size (hdr_encode type_data (flags_of x.state) x.id max))
          ++ take max bytes
      → Returns (λ io u. Sent q max x bytes io s u) (after_body q max success t)
  after_body-Sent q max bytes x s t less word heap streams valid queued =
      let e : (sub32 x.send_window max == 0) ≡ false = ground arith in
      let y = record x { state = sent_state x.state } in
      let live : t.heap q ≡ some y = ap (λ (h : ℕ → Option (Stream Q)). h q) heap ∙ ground arith in
      rw (live, Returns, e)
        (record {
          result = refl;
          here = ground arith;
          others = λ r other. ground (arith, ap (λ (h : ℕ → Option (Stream Q)). h r) heap);
          streams = streams;
          valid = valid;
          queued = queued;
        })

  -- The header is queued in t.
  after_hdr-Sent :
      (q max : ℕ) (bytes : List ℕ) (x : Stream Q) (s t : Sys W Q T)
      → ((b : Block) (w : W) → (os.malloc b w).0 ≡ true)
      → max ≤ length bytes
      → max < minus_one
      → max < x.send_window
      → x.send_window < 2 ^ 32
      → CanSend max t
      → t.heap ≡ update s.heap q (some (record x { state = sent_state x.state }))
      → t.session.streams ≡ s.session.streams
      → unsent t ≡ unsent s ++ take hdr_size (hdr_encode type_data (flags_of x.state) x.id max)
      → Returns (λ io u. Sent q max x bytes io s u) (after_hdr q bytes max success t)
  after_hdr-Sent q max bytes x s t memory has small less word can heap streams queued =
      Returns-bind (λ c u. Put bytes max c t u) (λ io u. Sent q max x bytes io s u)
        (session_send_buf_write bytes max t) (after_body q max)
        (session_send_buf_write-Put bytes max t memory has can small)
        λ c u h. rw (h.good) (
          after_body-Sent q max bytes x s u less word (h.heap ∙ heap) (h.streams ∙ streams) h.valid
            (h.queued ∙ ap (λ ys. ys ++ take max bytes) queued))

  write_ready-Sent :
      (q n : ℕ) (bytes : List ℕ) (x : Stream Q) (s : Sys W Q T)
      → ((b : Block) (w : W) → (os.malloc b w).0 ≡ true)
      → s.heap q ≡ some x
      → n ≤ length bytes
      → n < minus_one
      → n < x.send_window
      → x.send_window < 2 ^ 32
      → CanSend (hdr_size + n) s
      → Returns (λ io u. Sent q n x bytes io s u) (write_ready q bytes n x.send_window s)
  unfolding write_ready
  write_ready-Sent q n bytes x s memory live has small less word can =
      let max = min_of x.send_window n in
      let whole : max ≡ n = ground arith in
      let y = record x { state = sent_state x.state } in
      let t : Sys W Q T = record s { heap = update s.heap q (some y) } in
      let frame = hdr_encode type_data (flags_of x.state) x.id n in
      let long = length-hdr_encode type_data (flags_of x.state) x.id n in
      let self : (q == q) ≡ true = ground arith in
      let R : Io → Sys W Q T → Type 0 = λ io u. Sent q n x bytes io s u in
      Returns-bind (λ f u. (f ≡ flags_of x.state) × (u ≡ t)) R (stream_send_flags q s)
        (after_send_flags q bytes max) (stream_send_flags_lem q x s live)
        λ f u (ef, eu).
          subst (λ g. Returns R (after_send_flags q bytes max g u)) (sym ef)
            (subst (λ v. Returns R (after_send_flags q bytes max (flags_of x.state) v)) (sym eu)
              (subst (λ m. Returns R (after_send_flags q bytes m (flags_of x.state) t)) (sym whole)
                (rw (self, Returns)
                  (Returns-bind (λ c v. Put frame hdr_size c t v) R
                    (session_send_buf_write frame hdr_size t) (after_hdr q bytes n)
                    (session_send_buf_write-Put frame hdr_size t memory (omega (arith, long))
                      (record { valid = can.valid; room = omega (arith, can.room) }) (omega arith))
                    λ c v h. rw (h.good) (
                      after_hdr-Sent q n bytes x s v memory has small less word
                        (record {
                          valid = h.valid;
                          room = omega (
                            arith,
                            can.room,
                            ap (length {A = ℕ}) h.queued,
                            length-append (unsent s) (take hdr_size frame),
                            length-take hdr_size frame,
                          );
                        })
                        h.heap h.streams h.queued)))))

  -- An established stream, with a window that is wider than what is written.
  pub stream_write-Sent :
      (q : ℕ) (bytes : List ℕ) (x : Stream Q) (s : Sys W Q T)
      → ((b : Block) (w : W) → (os.malloc b w).0 ≡ true)
      → s.heap q ≡ some x
      → x.state ≡ State.established
      → length bytes < minus_one
      → length bytes < x.send_window
      → x.send_window < 2 ^ 32
      → CanSend (hdr_size + length bytes) s
      → Returns
          (λ io u. Sent q (length bytes) x bytes io s u × Calm s u)
          (stream_write q bytes (length bytes) [] s)
  stream_write-Sent q bytes x s memory live up small less word can =
      let n = length bytes in
      stream_write-write_ready (λ io u. Sent q n x bytes io s u × Calm s u) q n bytes x s live up
        (omega (arith, less))
        (Returns-both (λ io u. Sent q n x bytes io s u) (λ _ u. Calm s u)
          (write_ready q bytes n x.send_window s)
          (write_ready-Sent q n bytes x s memory live (omega arith) small less word can)
          (write_ready-Calm q bytes n x.send_window s x live))
