-- ===== src/Io/Written.antt =====
-- What stream_write (mux.c) queues, and the body of a frame.
use yamux.Common.{
  ℕ, ◌+◌, ◌^◌, ◌≤◌, ◌<◌, ◌≡◌, ◌⊎◌, refl, ap, ◌∙◌, sym, Option, some, List, [], ◌++◌, arith, inl,
  inr, length, take, take_all, append_assoc, take-append, length-append, int_of, length-take,
}
use yamux.Bio.{Buffer}
use yamux.Bio.Contents.{IsValid}
use yamux.Os.{Os}
use yamux.Stailq.{Stailq}
use yamux.Tree.{Tree}
use yamux.Frame.{hdr_encode, hdr_size, type_data}
use yamux.State.{Stream, Sys, M, Code, success, failure, ◌>>=◌, pure, load}
use yamux.State.Rules.{Returns, Returns-map}
use yamux.Send.{flags_of, sent_state, session_send_buf_write}
use yamux.Send.Queue.{unsent, CanSend, Queued, length-hdr_encode}
use yamux.Io.{Io, count, failed}
use yamux.Io.Finish.{after_body, Counted, after_body_lem}

-- What is queued for a data frame of max bytes: the first hdr_size + max bytes of this list.
abbrev pub data_frame : {Q : Type 0} → Stream Q → List ℕ → ℕ → List ℕ
data_frame x bytes max = hdr_encode type_data (flags_of x.state) x.id max ++ bytes

-- A whole header and then a first part of the body.
joined :
    (sent hdr bytes : List ℕ) (n k : ℕ)
    → length hdr ≡ n
    → (sent ++ take n hdr) ++ take k bytes ≡ sent ++ take (n + k) (hdr ++ bytes)
joined sent hdr bytes n k long =
    append_assoc sent (take n hdr) (take k bytes)
    ∙ ap (λ t. sent ++ t)
        (ap (λ t. t ++ take k bytes)
            (take_all n hdr (omega arith) ∙ sym (take_all (n + k) hdr (omega arith)))
          ∙ ap (λ m. take (n + k) hdr ++ take m bytes) (omega arith)
          ∙ sym (take-append (n + k) hdr bytes))

module _ {W Q T : Type 0} ⦃os : Os W⦄ ⦃sq : Stailq Buffer Q⦄ ⦃tr : Tree T⦄ where
  -- How a write of the first max bytes ends, for the stream at p, x before: with -1 after a first
  -- part of the frame and the window as it was, or with max, the whole frame queued (and at most a
  -- go-away frame after it) and the window smaller by max.
  pub record Written (p : ℕ) (x : Stream Q) (bytes : List ℕ) (max : ℕ) (io : Io) (s s' : Sys W Q T)
      : Type 0 where
    pub stream : Stream Q
    pub here : s'.heap p ≡ some stream
    pub state : stream.state ≡ sent_state x.state
    pub valid : IsValid s'.session.send_buf
    pub outcome :
        (io ≡ failed)
          × (stream.send_window ≡ x.send_window)
          × ((k : ℕ) × (k < hdr_size + max)
              × (unsent s' ≡ unsent s ++ take k (data_frame x bytes max)))
        ⊎ (io ≡ count (int_of max) [])
          × (stream.send_window + max ≡ x.send_window)
          × ((extra : List ℕ) × (length extra ≤ hdr_size)
              × (unsent s' ≡ (unsent s ++ take (hdr_size + max) (data_frame x bytes max)) ++ extra))

  -- After the header is queued.
  abbrev pub after_hdr : ℕ → List ℕ → ℕ → Code → M W Q T Io
  after_hdr p bytes max failure = pure failed
  after_hdr p bytes max success = do sent ← session_send_buf_write bytes max; after_body p max sent

  -- After the flags are taken.
  abbrev pub after_send_flags : ℕ → List ℕ → ℕ → ℕ → M W Q T Io
  after_send_flags p bytes max flags = do
    stream ← load p
    sent ← session_send_buf_write (hdr_encode type_data flags stream.id max) hdr_size
    after_hdr p bytes max sent

  pub bodied :
      (p : ℕ) (x : Stream Q) (bytes : List ℕ) (max : ℕ) (s v : Sys W Q T) (c : Code) (z : Sys W Q T)
      → max ≤ x.send_window
      → x.send_window < 2 ^ 32
      → CanSend (hdr_size + max + hdr_size) s
      → v.heap p ≡ some (record x { state = sent_state x.state })
      → unsent v ≡ unsent s ++ take hdr_size (hdr_encode type_data (flags_of x.state) x.id max)
      → Queued bytes max c v z
      → Returns (λ io s'. Written p x bytes max io s s') (after_body p max c z)
  bodied p x bytes max s v c z le word can here hdr q =
      let y = record x { state = sent_state x.state } in
      let long = length-hdr_encode type_data (flags_of x.state) x.id max in
      let there : z.heap p ≡ some y = ap (λ (g : ℕ → Option (Stream Q)). g p) q.only.heap ∙ here in
      let sent : unsent z ≡ unsent s ++ take (hdr_size + q.count) (data_frame x bytes max) =
        q.appended
        ∙ ap (λ t. t ++ take q.count bytes) hdr
        ∙ joined (unsent s) (hdr_encode type_data (flags_of x.state) x.id max) bytes hdr_size
            q.count long in
      elim q.outcome [
        | inr (f, less) ↦
            rw (f, Returns)
              (record {
                stream = y;
                here = there;
                state = refl;
                valid = q.valid;
                outcome = inl (refl, refl, (hdr_size + q.count, omega (arith, less), sent));
              })
        | inl (f, all) ↦
            let bound = ap (length {A = ℕ}) sent ∙ length-append (unsent s) _ in
            let cut = length-take (hdr_size + q.count) (data_frame x bytes max) in
            rw (f) (
              Returns-map (λ io s'. Counted p y max io z s')
                (λ io s'. Written p x bytes max io s s') (after_body p max success z)
                (after_body_lem p y max z there le word
                  (record { valid = q.valid; room = omega (arith, bound, cut, all, can.room) }))
                λ io s' k. record {
                  stream = k.stream;
                  here = k.here;
                  state = k.state;
                  valid = k.valid;
                  outcome = inr (
                    k.result,
                    k.window,
                    (
                      k.extra,
                      k.few,
                      k.appended
                          ∙ ap (λ t. t ++ k.extra) sent
                          ∙ ap
                              (λ m.
                                (unsent s ++ take (hdr_size + m) (data_frame x bytes max))
                                ++ k.extra)
                              all,
                    ),
                  );
                })
      ]
