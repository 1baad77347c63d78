-- ===== src/Data/Feed.antt =====
-- The bytes of a data frame on their way to the stream (session_handle_data of mux.c, the branch of
-- its loop in which the stream is there).
use yamux.Common.{
  ℕ, ◌+◌, ◌^◌, ◌≤◌, ◌<◌, ◌≡◌, ◌≢◌, ◌⊎◌, refl, sym, ◌∙◌, ap, subst, true, false, Option, none, some,
  List, ◌++◌, arith, inl, inr, length, take, take_all, length-take, min, minus_one, ◌==◌, int_of,
  int_lt, sub32,
}
use yamux.Bio.{Bio, Buffer, bio_write}
use yamux.Bio.Contents.{contents, IsValid}
use yamux.Bio.Read.{bio_peek_lem}
use yamux.Bio.Write.{bio_write_lem}
use yamux.Os.{Os}
use yamux.Stailq.{Stailq}
use yamux.Tree.{Tree}
use yamux.Frame.{go_away_internal_err}
use yamux.State.{Stream, Sys, Code, success, failure, update, pure, ◌>>◌}
use yamux.State.Signals.{Signals}
use yamux.State.Rules.{Returns, Returns-bind, Returns-map}
use yamux.State.Calm.{
  Calm, Calm-refl, Calm-trans, Calm-world, Calm-live, SameCore, SameCore-refl, SameCore-trans,
  SameInput, SameInput-trans, Calm-SameInput,
}
use yamux.Notify.{stream_readable_notify}
use yamux.Notify.Signals.{stream_readable_notify-Signals}
use yamux.Sound.{IsWindowed}
use yamux.Incoming.{fail_with}
use yamux.Incoming.Safe.{fail_with-Calm}
use yamux.Data.{after_notify, after_write, feed, deliver}

module _ {W Q T : Type 0} ⦃sq : Stailq Buffer Q⦄ (p : ℕ) (x : Stream Q) (bytes : List ℕ) where
  -- The stream at p, x before, has received the bytes and its window is smaller by their number;
  -- the input and the other streams are as they were.
  pub record Fed (s s' : Sys W Q T) : Type 0 where
    pub input : SameInput s s'
    pub streams : s'.session.streams ≡ s.session.streams
    pub next_address : s'.next_address ≡ s.next_address
    pub stream : Stream Q
    pub here : s'.heap p ≡ some stream
    pub same_id : stream.id ≡ x.id
    pub appended : contents stream.recv_buf ≡ contents x.recv_buf ++ bytes
    pub valid : IsValid stream.recv_buf
    pub window : stream.recv_window + length bytes ≡ x.recv_window
    pub others : (q : ℕ) → q ≢ p → SameCore (s.heap q) (s'.heap q)

  Fed-Calm : (s t u : Sys W Q T) → Fed s t → Calm t u → Fed s u
  Fed-Calm s t u h c =
      let (y, e, k) = Calm-live t u p c h.here in
      record {
        input = SameInput-trans s t u h.input (Calm-SameInput t u c);
        streams = c.streams ∙ h.streams;
        next_address = c.next_address ∙ h.next_address;
        stream = y;
        here = e;
        same_id = sym k.0 ∙ h.same_id;
        appended = subst (λ (b : Bio Q). contents b ≡ contents x.recv_buf ++ bytes) k.2 h.appended;
        valid = subst IsValid k.2 h.valid;
        window = omega (arith, h.window, k.1);
        others = λ q n. SameCore-trans (s.heap q) (t.heap q) (u.heap q) (h.others q n) (c.heap q);
      }

  Fed-world : (s u : Sys W Q T) (w : W) → Fed (record s { world = w }) u → Fed s u
  Fed-world s u w h = record {
    input =
        SameInput-trans s (record s { world = w }) u (Calm-SameInput s _ (Calm-world s w)) h.input;
    streams = h.streams;
    next_address = h.next_address;
    stream = h.stream;
    here = h.here;
    same_id = h.same_id;
    appended = h.appended;
    valid = h.valid;
    window = h.window;
    others = h.others;
  }

module _ {W Q T : Type 0} ⦃os : Os W⦄ ⦃sq : Stailq Buffer Q⦄ ⦃tr : Tree T⦄ where
  fails :
      (s : Sys W Q T)
      → Returns (λ (r : Option ℕ) _. r ≡ none) ((do fail_with go_away_internal_err; pure none) s)
  fails s =
      Returns-bind (λ (_ : Code) _. Unit {0}) (λ (r : Option ℕ) _. r ≡ none)
        (fail_with go_away_internal_err s) (λ _. pure none)
        (Returns-map _ _ (fail_with go_away_internal_err s) (fail_with-Calm go_away_internal_err s)
          λ _ _ _. tt)
        λ _ _ _. refl

  after_notify_lem :
      (k : ℕ) (c : Code) (s : Sys W Q T)
      → Returns (λ r s'. (r ≡ none) ⊎ ((r ≡ some k) × Calm s s')) (after_notify k c s)
  unfolding after_notify
  after_notify_lem k success s = inr (refl, Calm-refl s)
  after_notify_lem k failure s =
      Returns-map (λ (r : Option ℕ) _. r ≡ none) _
        ((do fail_with go_away_internal_err; pure none) s) (fails s) λ _ _ e. inl e

  after_write_failed :
      (p : ℕ) (x : Stream Q) (b : Bio Q) (s : Sys W Q T)
      → Returns (λ r _. r ≡ none) (after_write p x (minus_one, b) s)
  unfolding after_write
  after_write_failed p x b s =
      fails (record s { heap = update s.heap p (some (record x { recv_buf = b })) })

  after_write_done :
      (p : ℕ) (x : Stream Q) (bytes : List ℕ) (k : ℕ) (b : Bio Q) (s : Sys W Q T)
      → s.heap p ≡ some x
      → contents b ≡ contents x.recv_buf ++ bytes
      → IsValid b
      → k ≡ length bytes
      → k ≤ x.recv_window
      → x.recv_window < 2 ^ 32
      → (k == minus_one) ≡ false
      → Returns
          (λ r s'. (r ≡ none) ⊎ ((r ≡ some k) × Fed p x bytes s s'))
          (after_write p x (k, b) s)
  unfolding after_write
  after_write_done p x bytes k b s live app v count fits word distinct =
      let y = record x { recv_buf = b; recv_window = sub32 x.recv_window k } in
      let t = record s {
        heap = update (update s.heap p (some (record x { recv_buf = b }))) p (some y);
      } in
      let here : t.heap p ≡ some y = ground arith in
      let fed : Fed p x bytes s t = record {
        input = record { recv_buf = refl; new_frame = refl; frame_remain = refl; hdr = refl };
        streams = refl;
        next_address = refl;
        stream = y;
        here = here;
        same_id = refl;
        appended = app;
        valid = v;
        window = omega arith;
        others = λ q n. ground (arith, SameCore-refl (s.heap q));
      } in
      rw (distinct, Returns)
        (Returns-bind (λ (_ : Code) u. Signals t u) _ (stream_readable_notify p t) (after_notify k)
          (stream_readable_notify-Signals p t y here)
          λ c u h. Returns-map _ _ (after_notify k c u) (after_notify_lem k c u) λ r z o. elim o [
            | inl e ↦ inl e
            | inr (e, calm) ↦ inr (e, Fed-Calm p x bytes s t z fed (Calm-trans t u z h.calm calm))
          ])

  -- Bytes that fit the window are given to the stream, or -1 is returned.
  feed_lem :
      (p : ℕ) (x : Stream Q) (bytes : List ℕ) (s : Sys W Q T)
      → s.heap p ≡ some x
      → IsWindowed x
      → 0 < length bytes
      → length bytes ≤ x.recv_window
      → Returns
          (λ r s'. (r ≡ none) ⊎ ((r ≡ some (length bytes)) × Fed p x bytes s s'))
          (feed p (length bytes, bytes) s)
  unfolding feed
  feed_lem p x bytes s live win pos fits =
      let (r, b, w) = bio_write bytes (length bytes) x.recv_buf s.world in
      let (j, le, app, v, how) =
        bio_write_lem bytes (length bytes) x.recv_buf s.world (omega arith) win.buffered
          (omega (arith, win.promised)) in
      let t : Sys W Q T = record s { world = w } in
      let tested : int_lt 0 (length bytes) ≡ true = ground (arith, win.promised) in
      rw (tested, live, Returns)
        (elim how [
          | inl (e, all) ↦
              let same : r ≡ length bytes = e ∙ omega (arith, win.promised) in
              let whole : contents b ≡ contents x.recv_buf ++ bytes =
                app ∙ ap (λ ys. contents x.recv_buf ++ ys) (take_all j bytes (omega arith)) in
              rw (same) (
                Returns-map _ _ (after_write p x (length bytes, b) t)
                  (after_write_done p x bytes (length bytes) b t live whole v refl fits
                    (omega (arith, win.promised)) (ground (arith, win.promised)))
                  λ q z o. elim o [
                    | inl n ↦ inl n
                    | inr (n, fed) ↦ inr (n, Fed-world p x bytes s z w fed)
                  ])
          | inr (e, less, al) ↦ rw (e) (
              Returns-map (λ (q : Option ℕ) _. q ≡ none) _ (after_write p x (minus_one, b) t)
                (after_write_failed p x b t) λ _ _ z. inl z)
        ])

  -- In a session with a valid input that has unread bytes, for a stream that is there and keeps to
  -- its window, a round of session_handle_data for at least one byte and at most as many as the
  -- stream's receive window returns -1, or gives the stream exactly the first unread bytes, as
  -- many as were asked for and are there: they are appended to what it holds, its window is
  -- smaller by their number, and neither the input nor any other stream changes in id, window or
  -- received bytes.
  pub deliver_lem :
      (p : ℕ) (x : Stream Q) (size : ℕ) (s : Sys W Q T)
      → s.heap p ≡ some x
      → IsWindowed x
      → IsValid s.session.recv_buf
      → 0 < length (contents s.session.recv_buf)
      → 0 < size
      → size ≤ x.recv_window
      → let bytes = take size (contents s.session.recv_buf) in
        Returns
          (λ r s'. (r ≡ none) ⊎ ((r ≡ some (length bytes)) × Fed p x bytes s s'))
          (deliver p size s)
  unfolding deliver
  deliver_lem p x size s live win v pending pos fits =
      let input = contents s.session.recv_buf in
      let bytes = take size input in
      let long = length-take size input in
      let count : int_of (min size (length input)) ≡ length bytes =
        omega (arith, long, win.promised) in
      rw (bio_peek_lem size s.session.recv_buf v, count)
        (feed_lem p x bytes s live win (omega (arith, long)) (omega (arith, long)))
