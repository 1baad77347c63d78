-- ===== src/Io/Finish.antt =====
-- The end of stream_write of mux.c: the window is reduced and the signal given.
use yamux.Common.{
  ℕ, ◌+◌, ◌^◌, ◌≤◌, ◌<◌, ◌≡◌, refl, ap, subst, ◌∙◌, sym, Option, some, List, [], ◌++◌, arith, inl,
  inr, length, append-nil, ◌==◌, if◌then◌else◌, Bool-cases, sub32, int_of,
}
use yamux.Bio.{Buffer}
use yamux.Bio.Contents.{contents, IsValid}
use yamux.Os.{Os}
use yamux.Stailq.{Stailq}
use yamux.Tree.{Tree}
use yamux.Frame.{hdr_size, go_away_internal_err}
use yamux.State.{
  Stream, Session, Sys, M, Code, success, failure, update, ◌>>=◌, ◌>>◌, pure, load, store,
}
use yamux.State.Rules.{Returns, Returns-bind, Returns-map}
use yamux.State.Signals.{Signals, Signals-refl, Signals-live}
use yamux.Notify.{stream_writeable_waiting}
use yamux.Notify.Signals.{stream_writeable_waiting-Signals}
use yamux.Send.{session_go_away_for_reason}
use yamux.Send.Queue.{unsent, CanSend, session_go_away_for_reason_lem}
use yamux.Io.{Io, count, failed}

module _ {W Q T : Type 0} ⦃os : Os W⦄ ⦃sq : Stailq Buffer Q⦄ ⦃tr : Tree T⦄ where
  -- The end of a write: the signal has been given, or a go-away frame is queued for its failure.
  abbrev pub closing : ℕ → Code → M W Q T Io
  closing max success = pure (count (int_of max) [])
  closing max failure = do
    session_go_away_for_reason go_away_internal_err
    pure (count (int_of max) [])

  -- The count is returned, the streams stay as they are, and at most a go-away frame is queued.
  record Closed (max : ℕ) (io : Io) (s s' : Sys W Q T) : Type 0 where
    result : io ≡ count (int_of max) []
    heap : s'.heap ≡ s.heap
    valid : IsValid s'.session.send_buf
    extra : List ℕ
    few : length extra ≤ hdr_size
    appended : unsent s' ≡ unsent s ++ extra

  closing_lem :
      (max : ℕ) (c : Code) (s : Sys W Q T)
      → CanSend hdr_size s
      → Returns (λ io s'. Closed max io s s') (closing max c s)
  closing_lem max success s can = record {
    result = refl;
    heap = refl;
    valid = can.valid;
    extra = [];
    few = omega arith;
    appended = sym (append-nil (unsent s));
  }
  closing_lem max failure s can =
      Returns-bind
        (λ (_ : Code) s'.
          (s'.heap ≡ s.heap)
          × IsValid s'.session.send_buf
          × ((extra : List ℕ) × (length extra ≤ hdr_size) × (unsent s' ≡ unsent s ++ extra)))
        (λ io s'. Closed max io s s') (session_go_away_for_reason go_away_internal_err s)
        (λ _. pure (count (int_of max) []))
        (session_go_away_for_reason_lem go_away_internal_err s can)
        λ _ u (h, valid, (extra, few, app)). record {
          result = refl;
          valid = valid;
          heap = h;
          extra = extra;
          few = few;
          appended = app;
        }

  -- The signal where the window is used up.
  unfoldable pub signal : ℕ → ℕ → M W Q T Code
  signal p left = if left == 0 then stream_writeable_waiting p else pure success

  pub signal-Signals :
      (p left : ℕ) (s : Sys W Q T) (x : Stream Q)
      → s.heap p ≡ some x
      → Returns (λ (_ : Code) u. Signals s u) (signal p left s)
  unfolding signal
  signal-Signals p left s x live = elim (Bool-cases (left == 0)) [
    | inl e ↦ rw (e) (stream_writeable_waiting-Signals p s x live)
    | inr e ↦ rw (e, Returns) (Signals-refl s)
  ]

  -- After the body is queued.
  abbrev pub after_body : ℕ → ℕ → Code → M W Q T Io
  after_body p max failure = pure failed
  after_body p max success = do
    stream ← load p
    let left = sub32 stream.send_window max
    store p (record stream { send_window = left })
    told ← if left == 0 then stream_writeable_waiting p else pure success
    closing max told

  -- The window of the stream at p, y before, is smaller by the count that is returned.
  pub record Counted (p : ℕ) (y : Stream Q) (max : ℕ) (io : Io) (s s' : Sys W Q T) : Type 0 where
    pub stream : Stream Q
    pub here : s'.heap p ≡ some stream
    pub state : stream.state ≡ y.state
    pub window : stream.send_window + max ≡ y.send_window
    pub result : io ≡ count (int_of max) []
    pub valid : IsValid s'.session.send_buf
    pub extra : List ℕ
    pub few : length extra ≤ hdr_size
    pub appended : unsent s' ≡ unsent s ++ extra

  pub after_body_lem :
      (p : ℕ) (y : Stream Q) (max : ℕ) (s : Sys W Q T)
      → s.heap p ≡ some y
      → max ≤ y.send_window
      → y.send_window < 2 ^ 32
      → CanSend hdr_size s
      → Returns (λ io s'. Counted p y max io s s') (after_body p max success s)
  unfolding signal
  after_body_lem p y max s live le word can =
      let left = sub32 y.send_window max in
      let z = record y { send_window = left } in
      let t : Sys W Q T = record s { heap = update s.heap p (some z) } in
      let here : t.heap p ≡ some z = ground arith in
      rw (live, Returns)
        (Returns-bind (λ (_ : Code) u. Signals t u) (λ io s'. Counted p y max io s s')
          (signal p left t) (closing max) (signal-Signals p left t z here)
          λ c u h.
            let (v, there, same) = Signals-live t u p h here in
            let exact : v.send_window ≡ left = ground (arith, h.sending_same p) in
            let can' : CanSend hdr_size u = record {
              valid = subst (λ (k : Session Q T). IsValid k.send_buf) (sym h.session) can.valid;
              room = omega (
                arith,
                can.room,
                ap (λ (k : Session Q T). length (contents k.send_buf)) h.session,
              );
            } in
            Returns-map (λ io s'. Closed max io u s') (λ io s'. Counted p y max io s s')
              (closing max c u) (closing_lem max c u can')
              λ io s' k. record {
                stream = v;
                here = ap (λ (g : ℕ → Option (Stream Q)). g p) k.heap ∙ there;
                state = same;
                window = omega (arith, exact);
                result = k.result;
                valid = k.valid;
                extra = k.extra;
                few = k.few;
                appended =
                    k.appended
                    ∙ ap (λ (k' : Session Q T). contents k'.send_buf ++ k.extra) h.session;
              })
