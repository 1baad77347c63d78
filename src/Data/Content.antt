-- ===== src/Data/Content.antt =====
-- What the loop of session_handle_data (mux.c) gives to the stream of a frame.
use yamux.Common.{
  ℕ, true, zero, suc, ◌+◌, ◌≤◌, ◌<◌, ◌≡◌, ◌≢◌, ◌⊎◌, refl, subst, sym, ◌∙◌, ap, none, some, ◌++◌,
  ◌||◌, arith, inl, inr, min, length, take, drop, length-take, take_split, drop-drop, append_assoc,
  append-nil, take-min-length, ◌==◌, Bool-cases,
}
use yamux.Bio.{Bio, Buffer, min_of, bio_consume, bio_pending}
use yamux.Bio.Contents.{contents}
use yamux.Bio.Read.{bio_consume_lem}
use yamux.Os.{Os}
use yamux.Stailq.{Stailq}
use yamux.Tree.{Tree}
use yamux.State.{Stream, Session, Sys, success}
use yamux.State.Rules.{Returns, Returns-bind, Returns-map, Returns-both}
use yamux.Sound.{target}
use yamux.Data.Feed.{Fed, deliver_lem}
use yamux.Data.Inside.{InLoop, unread, one_value}
use yamux.Data.Rounds.{taken, Fed-InLoop}
use yamux.Data.Tells.{Works, Told, deliver-Told}
use yamux.Data.Ends.{next_round, remaining, take_from_frame_lem, pending_lem}
use yamux.Data.{drop_or_deliver, take_from_frame, data_loop}

module _ {W Q T : Type 0} ⦃sq : Stailq Buffer Q⦄ ⦃tr : Tree T⦄ where
  -- The stream at p, x before, has received the first n unread bytes, which have been taken from
  -- the frame.
  pub record Given (p n : ℕ) (x : Stream Q) (s s' : Sys W Q T) : Type 0 where
    pub loop : InLoop s'
    pub stream : Stream Q
    pub here : s'.heap p ≡ some stream
    pub appended :
        contents stream.recv_buf ≡ contents x.recv_buf ++ take n (contents s.session.recv_buf)
    pub window : stream.recv_window + n ≡ x.recv_window
    -- Its reader has been told.
    pub told : (x.readable ≡ true) ⊎ (0 < n) → stream.readable ≡ true
    pub state : stream.state ≡ x.state
    pub left : contents s'.session.recv_buf ≡ drop n (contents s.session.recv_buf)
    pub remain : s'.session.frame_remain + n ≡ s.session.frame_remain
    pub streams : s'.session.streams ≡ s.session.streams
    pub hdr : s'.session.hdr ≡ s.session.hdr
    pub send_buf : s'.session.send_buf ≡ s.session.send_buf
    pub others : (q : ℕ) → q ≢ p → s'.heap q ≡ s.heap q

  -- Nothing is left of the frame, or of the input.
  Given-none :
      (p n : ℕ) (x : Stream Q) (s : Sys W Q T)
      → InLoop s
      → s.heap p ≡ some x
      → n ≡ 0
      → Given p n x s s
  Given-none p n x s v live e = rw (e) (record {
    loop = v;
    stream = x;
    here = live;
    appended = sym (append-nil (contents x.recv_buf));
    window = omega arith;
    told = λ h. elim h [ inl e ↦ e | inr pos ↦ absurd (omega arith) ];
    state = refl;
    left = refl;
    remain = omega arith;
    streams = refl;
    hdr = refl;
    send_buf = refl;
    others = λ q other. refl;
  })

  -- A round and the rest.
  Given-Fed :
      (p k m size : ℕ) (x : Stream Q) (s t s' : Sys W Q T)
      → InLoop s
      → k ≡ min size (unread s)
      → k ≤ s.session.frame_remain
      → Told p x s t
      → (fed : Fed p x (take size (contents s.session.recv_buf)) s t)
      → Given p m fed.stream (taken k t) s'
      → Given p (k + m) x s s'
  Given-Fed p k m size x s t s' v ek le ((y, at_p, ready, same_state), kept, session) fed g =
      let input = contents s.session.recv_buf in
      let bytes : take size input ≡ take k input =
        sym (take-min-length size input) ∙ ap (λ n. take n input) (sym ek) in
      let (count, rest, after) = bio_consume_lem k s.session.recv_buf v.received in
      let next : contents (bio_consume k t.session.recv_buf).1 ≡ drop k input =
        ap (λ (b : Bio Q). contents (bio_consume k b).1) fed.input.recv_buf ∙ rest in
      record {
        loop = g.loop;
        stream = g.stream;
        here = g.here;
        appended =
            g.appended
            ∙ ap (λ ys. contents fed.stream.recv_buf ++ take m ys) next
            ∙ ap (λ ys. ys ++ take m (drop k input))
                (fed.appended ∙ ap (λ ys. contents x.recv_buf ++ ys) bytes)
            ∙ append_assoc (contents x.recv_buf) (take k input) (take m (drop k input))
            ∙ ap (λ ys. contents x.recv_buf ++ ys) (take_split k m input);
        window =
            omega (arith, g.window, fed.window, ap (length {A = ℕ}) bytes, length-take k input, ek);
        told = λ _. g.told (
            inl (
              ap (λ (z : Stream Q). z.readable) (one_value (t.heap p) fed.stream y fed.here at_p)
              ∙ ready));
        state =
            g.state
            ∙ ap (λ (z : Stream Q). z.state) (one_value (t.heap p) fed.stream y fed.here at_p)
            ∙ same_state;
        left = g.left ∙ ap (drop m) next ∙ drop-drop m k input;
        remain = omega (arith, g.remain, fed.input.frame_remain, le);
        streams = g.streams ∙ fed.streams;
        hdr = g.hdr ∙ fed.input.hdr;
        send_buf = g.send_buf ∙ ap (λ (k : Session Q T). k.send_buf) session;
        others = λ q other. g.others q other ∙ kept q other;
      }

module _ {W Q T : Type 0} ⦃os : Os W⦄ ⦃sq : Stailq Buffer Q⦄ ⦃tr : Tree T⦄ where
  -- The loop gives what there is of the frame.
  pub data_loop-Given :
      (fuel p : ℕ) (x : Stream Q) (s : Sys W Q T)
      → Works os
      → s.session.frame_remain ≤ fuel
      → InLoop s
      → target s ≡ some p
      → s.heap p ≡ some x
      → Returns
          (λ c s'. (c ≡ success) × Given p (min s.session.frame_remain (unread s)) x s s')
          (data_loop fuel (some p) s)
  unfolding data_loop
  data_loop-Given zero p x s works enough v aim live =
      (refl, Given-none p (min s.session.frame_remain (unread s)) x s v live (omega arith))
  data_loop-Given (suc fuel) p x s works enough v aim live =
      let n = min s.session.frame_remain (unread s) in
      elim (Bool-cases (s.session.frame_remain == 0 || bio_pending s.session.recv_buf == 0)) [
        | inl stop ↦
            rw (stop, Returns) (refl, (Given-none p n x s v live (ground (arith, pending_lem s v))))
        | inr go ↦
            let size = min_of s.session.frame_remain 4096 in
            let bytes = take size (contents s.session.recv_buf) in
            let k = length bytes in
            let remain : 0 < s.session.frame_remain = ground arith in
            let pending : 0 < unread s = ground (arith, pending_lem s v) in
            let bounds : (0 < size) × (size ≤ s.session.frame_remain) = ground arith in
            let fits = v.promised p x aim live in
            let long = length-take size (contents s.session.recv_buf) in
            rw (go, Returns)
              (Returns-bind
                (λ m t.
                  ((m ≡ none) ⊎ ((m ≡ some k) × Fed p x bytes s t)) × ((m ≡ some k) × Told p x s t))
                _ (drop_or_deliver (some p) size s) (next_round fuel (some p))
                (Returns-both (λ m t. (m ≡ none) ⊎ ((m ≡ some k) × Fed p x bytes s t))
                  (λ m t. (m ≡ some k) × Told p x s t) (drop_or_deliver (some p) size s)
                  (deliver_lem p x size s live (v.windowed p x live) v.received pending bounds.0
                    (omega (arith, bounds)))
                  (deliver-Told p x size s works live v.received pending bounds.0 (ground arith)))
                λ m t (o, (made, told)). elim o [
                  | inl e ↦ cc
                  | inr (e, fed) ↦ rw (e) (
                      let small : k ≤ s.session.frame_remain = omega (arith, bounds, long) in
                      let some_bytes : 0 < k = omega (arith, bounds, long) in
                      let u = taken k t in
                      let inside = Fed-InLoop p x bytes s t v live aim fed small in
                      let aimed : target u ≡ some p = rw (fed.input.hdr, fed.streams) aim in
                      Returns-bind (λ _ t'. t' ≡ u) (λ c s'. (c ≡ success) × Given p n x s s')
                        (take_from_frame k t) (λ _. data_loop fuel (some p))
                        (take_from_frame_lem k t (omega (arith, fed.input.frame_remain))
                          (omega (arith, v.bound, fed.input.frame_remain)))
                        λ _ t' same. rw (same) (
                          Returns-map _ _ (data_loop fuel (some p) u)
                            (data_loop-Given fuel p fed.stream u works
                              (omega (arith, fed.input.frame_remain)) inside aimed fed.here)
                            λ c s' (ok, g). (
                              ok,
                              subst (λ j. Given p j x s s')
                                  (omega (
                                    arith,
                                    remaining k s t v.received fed.input.recv_buf,
                                    fed.input.frame_remain,
                                    long,
                                    bounds,
                                  ))
                                  (Given-Fed p k (min u.session.frame_remain (unread u)) size x s t
                                    s' v long small told fed g),
                            )))
                ])
      ]
