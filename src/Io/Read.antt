-- ===== src/Io/Read.antt =====
-- stream_read of mux.c, from its bio_read on.
use yamux.Common.{
  ℕ, ◌^◌, ◌≤◌, ◌<◌, ◌≡◌, ◌≢◌, ◌⊎◌, refl, ap, ◌∙◌, sym, true, false, some, List, [], arith, inl, inr,
  length, take, drop, length-drop, ◌==◌, if◌then◌else◌, Bool-cases, int_lt, min,
}
use yamux.Bio.{Buffer, bio_read, bio_pending}
use yamux.Bio.Contents.{contents, IsValid}
use yamux.Bio.Read.{bio_read_lem, bio_pending_lem}
use yamux.Os.{Os}
use yamux.Stailq.{Stailq}
use yamux.Tree.{Tree}
use yamux.State.{State, Stream, Sys, M, Code, success, failure, update, ◌>>◌, pure}
use yamux.State.Rules.{Returns, Returns-bind, Returns-map, Returns-both}
use yamux.State.Calm.{Calm-live}
use yamux.State.Signals.{Signals, Signals-refl, Alike, Alike-equal, Alike-trans}
use yamux.Notify.{got_bytes, stream_readable_waiting}
use yamux.Notify.Signals.{stream_readable_waiting-Signals}
use yamux.Sound.{IsSound}
use yamux.Sound.Store.{store-IsSound}
use yamux.Incoming.Safe.{Steady, Calm-Steady, Steady-trans}
use yamux.Send.{sent_state, send_window_update}
use yamux.Send.Steady.{Offers, send_window_update-Offers}
use yamux.Io.{Io, count, failed, read_gate, read_ready, read_once, stream_read}

module _ {W Q T : Type 0} ⦃os : Os W⦄ ⦃sq : Stailq Buffer Q⦄ ⦃tr : Tree T⦄ where
  -- The stream is said to be readable, and the read of the one byte of its signal from its
  -- descriptor fails.
  abbrev pub IsSilent : Stream Q → Sys W Q T → Type 0
  IsSilent x s = (x.readable ≡ true) × (got_bytes (os.read x.fd 1 s.world).0 ≡ false)

  -- The stream at p, x before, has lost the first bytes that it held. They are the reader's, unless
  -- it was the last of them and the signal could not be taken back.
  pub record ReadOut (p : ℕ) (x : Stream Q) (size : ℕ) (io : Io) (s s' : Sys W Q T) : Type 0 where
    pub steady : Steady s s'
    pub streams : s'.session.streams ≡ s.session.streams
    pub stream : Stream Q
    pub here : s'.heap p ≡ some stream
    pub left : contents stream.recv_buf ≡ drop size (contents x.recv_buf)
    pub same_id : stream.id ≡ x.id
    pub state : (stream.state ≡ x.state) ⊎ (stream.state ≡ sent_state x.state)
    pub window : x.recv_window ≤ stream.recv_window
    pub others : (q : ℕ) → q ≢ p → Alike (s.heap q) (s'.heap q)
    pub outcome :
        (io ≡ count (min size (length (contents x.recv_buf))) (take size (contents x.recv_buf)))
        ⊎ (io ≡ failed) × (length (contents x.recv_buf) ≤ size) × IsSilent x s

  -- After the signal.
  abbrev pub after_told : ℕ → ℕ → List ℕ → Code → M W Q T Io
  after_told p r bytes failure = pure failed
  after_told p r bytes success = do send_window_update p; pure (count r bytes)

  stream_readable_waiting-IsSilent :
      (p : ℕ) (s : Sys W Q T) (x : Stream Q)
      → s.heap p ≡ some x
      → Returns (λ c (_ : Sys W Q T). (c ≡ success) ⊎ IsSilent x s) (stream_readable_waiting p s)
  unfolding stream_readable_waiting
  stream_readable_waiting-IsSilent p s x live = elim (Bool-cases x.readable) [
    | inr e ↦ rw (live, Returns, e) (inl refl)
    | inl e ↦ elim (Bool-cases (got_bytes (os.read x.fd 1 s.world).0)) [
      | inl f ↦ rw (live, Returns, e, f) (inl refl)
      | inr f ↦ rw (live, Returns, e, f) (inr (e, f))
    ]
  ]

  pub taken_back :
      (p : ℕ) (s : Sys W Q T) (y : Stream Q)
      → s.heap p ≡ some y
      → IsValid y.recv_buf
      → length (contents y.recv_buf) < 2 ^ 31
      → Returns
          (λ c t. Signals s t × ((c ≡ success) ⊎ (length (contents y.recv_buf) ≡ 0) × IsSilent y s))
          ((if bio_pending y.recv_buf == 0 then stream_readable_waiting p else pure success) s)
  taken_back p s y live v small =
      let n : bio_pending y.recv_buf ≡ length (contents y.recv_buf) =
        bio_pending_lem y.recv_buf v ∙ omega arith in
      elim (Bool-cases (bio_pending y.recv_buf == 0)) [
        | inl e ↦ rw (e) (
            Returns-map (λ c t. Signals s t × ((c ≡ success) ⊎ IsSilent y s))
              (λ c t.
                Signals s t × ((c ≡ success) ⊎ (length (contents y.recv_buf) ≡ 0) × IsSilent y s))
              (stream_readable_waiting p s)
              (Returns-both (λ (_ : Code) t. Signals s t)
                (λ c (_ : Sys W Q T). (c ≡ success) ⊎ IsSilent y s) (stream_readable_waiting p s)
                (stream_readable_waiting-Signals p s y live)
                (stream_readable_waiting-IsSilent p s y live))
              λ c t (h, how).
                (h, elim how [ inl ok ↦ inl ok | inr bad ↦ inr (ground (arith, n), bad) ]))
        | inr e ↦ rw (e, Returns) (Signals-refl s, inl refl)
      ]

  after_told_lem :
      (p : ℕ) (x z : Stream Q) (size : ℕ) (s u : Sys W Q T) (c : Code) (r : ℕ) (bytes : List ℕ)
      → Steady s u
      → u.session.streams ≡ s.session.streams
      → u.heap p ≡ some z
      → contents z.recv_buf ≡ drop size (contents x.recv_buf)
      → r ≡ min size (length (contents x.recv_buf))
      → bytes ≡ take size (contents x.recv_buf)
      → z.id ≡ x.id
      → z.state ≡ x.state
      → z.recv_window ≡ x.recv_window
      → ((q : ℕ) → q ≢ p → Alike (s.heap q) (u.heap q))
      → (c ≡ success) ⊎ (length (contents x.recv_buf) ≤ size) × IsSilent x s
      → Returns (λ io s'. ReadOut p x size io s s') (after_told p r bytes c u)
  after_told_lem p x z size s u failure r bytes steady same there left er eb i st win kept (inl e) =
      absurd (ground arith)
  after_told_lem p x z size s u failure r bytes steady same there left er eb i st win kept
        (inr last) =
      record {
        steady = steady;
        streams = same;
        stream = z;
        here = there;
        left = left;
        same_id = i;
        state = inl st;
        window = omega (arith, win);
        others = kept;
        outcome = inr (refl, last.0, last.1);
      }
  after_told_lem p x z size s u success r bytes steady same there left er eb i st win kept how =
      Returns-bind (λ (_ : Code) w. Offers p z u w) (λ io s'. ReadOut p x size io s s')
        (send_window_update p u) (λ _. pure (count r bytes))
        (send_window_update-Offers p z u steady.sound there)
        λ _ w o. record {
          steady = Steady-trans s u w steady o.steady;
          streams = o.streams ∙ same;
          stream = o.stream;
          here = o.here;
          left = ap contents o.buffer ∙ left;
          same_id = o.same_id ∙ i;
          state = inr (o.state ∙ ap sent_state st);
          window = omega (arith, win, o.window);
          others = λ q other.
              Alike-trans (s.heap q) (u.heap q) (w.heap q) (kept q other)
                (Alike-equal (u.heap q) (w.heap q) (o.others q other));
          outcome = inl (
              ap (λ n. count n bytes) er ∙ ap (count (min size (length (contents x.recv_buf)))) eb);
        }

  -- In a sound session, for a stream that is there and holds bytes, and a buffer of at least one:
  -- from bio_read on, stream_read returns, the stream loses exactly the first bytes that fit in
  -- the buffer, and those bytes and their number are what is returned, unless it was the last of
  -- them, the stream was said to be readable, the read of one byte from its descriptor in the
  -- world of the call gives none, and -1 is returned. The stream keeps its id, is in the same
  -- state or the one after its flags are sent and has a window that is no smaller; no other stream
  -- changes but in readiness, and the session stays sound and its input and tree as they were.
  pub read_ready_lem :
      (p : ℕ) (x : Stream Q) (size : ℕ) (s : Sys W Q T)
      → IsSound s
      → s.heap p ≡ some x
      → 0 < size
      → 0 < length (contents x.recv_buf)
      → Returns (λ io s'. ReadOut p x size io s s') (read_ready p size s)
  unfolding read_ready
  read_ready_lem p x size s v live pos some_bytes =
      let win = v.windowed p x live in
      let (r, bytes, b) = bio_read true size x.recv_buf in
      let (er, eb, rest, valid) = bio_read_lem size x.recv_buf win.buffered in
      let got = min size (length (contents x.recv_buf)) in
      let number : r ≡ got = er ∙ omega (arith, win.promised) in
      let fewer = ap (length {A = ℕ}) rest ∙ length-drop size (contents x.recv_buf) in
      let y = record x { recv_buf = b } in
      let t : Sys W Q T = record s { heap = update s.heap p (some y) } in
      let here : t.heap p ≡ some y = ground arith in
      let vt : IsSound t =
        store-IsSound s p x y v live refl (omega arith)
          (record { buffered = valid; promised = omega (arith, win.promised, fewer) }) in
      let tested : int_lt 0 r ≡ true = ground (arith, number, win.promised) in
      let ready : Steady s t = record {
        sound = vt;
        input = record { recv_buf = refl; new_frame = refl; frame_remain = refl; hdr = refl };
      } in
      rw (live, Returns, tested)
        (Returns-bind
          (λ c u. Signals t u × ((c ≡ success) ⊎ (length (contents b) ≡ 0) × IsSilent y t))
          (λ io s'. ReadOut p x size io s s')
          ((if bio_pending b == 0 then stream_readable_waiting p else pure success) t)
          (after_told p r bytes) (taken_back p t y here valid (omega (arith, fewer, win.promised)))
          λ c u h.
            let (z, there, core) = Calm-live t u p h.0.calm here in
            let steady = Steady-trans s t u ready (Calm-Steady t u vt h.0.calm) in
            let left : contents z.recv_buf ≡ drop size (contents x.recv_buf) =
              ap contents (sym core.2) ∙ rest in
            after_told_lem p x z size s u c r bytes steady h.0.calm.streams there left number eb
              (sym core.0) (ground (arith, h.0.sending_same p)) (sym core.1)
              (λ q other.
                Alike-trans (s.heap q) (t.heap q) (u.heap q)
                  (Alike-equal (s.heap q) (t.heap q) (ground arith))
                  (h.0.calm.heap q, h.0.sending_same q))
              (elim h.1 [ inl e ↦ inl e | inr (e, bad) ↦ inr (omega (arith, fewer, e), bad) ]))

  -- An established stream that holds bytes does not wait.
  pub stream_read-read_ready :
      (R : Io → Sys W Q T → Type 0) (p size : ℕ) (x : Stream Q) (s : Sys W Q T)
      → IsSound s
      → s.heap p ≡ some x
      → x.state ≡ State.established
      → 0 < length (contents x.recv_buf)
      → Returns R (read_ready p size s)
      → Returns R (stream_read p size [] s)
  unfolding stream_read read_once read_gate
  stream_read-read_ready R p size x s v live up some_bytes h =
      let win = v.windowed p x live in
      let n = bio_pending_lem x.recv_buf win.buffered in
      let more : (bio_pending x.recv_buf == 0) ≡ false =
        ground (arith, n, some_bytes, win.promised) in
      rw (live, Returns) (rw (up, more) h)
