-- ===== src/Data/Ends.antt =====
-- The loop of session_handle_data (mux.c) ends, with the frame or with the bytes that came.
use yamux.Common.{
  ℕ, zero, suc, ◌-◌, ◌^◌, ◌≤◌, ◌<◌, ◌≡◌, ◌⊎◌, refl, sym, ◌∙◌, ap, Option, none, some, ◌||◌, arith,
  inl, inr, length, take, length-take, length-drop, ◌==◌, Bool-cases,
}
use yamux.Bio.{Bio, Buffer, min_of, bio_consume, bio_pending}
use yamux.Bio.Contents.{contents, IsValid}
use yamux.Bio.Read.{bio_consume_lem, bio_pending_lem}
use yamux.Os.{Os}
use yamux.Stailq.{Stailq}
use yamux.Tree.{Tree}
use yamux.State.{Sys, Code, failure, ◌>>◌}
use yamux.State.Rules.{Returns, Returns-bind, Returns-map}
use yamux.Sound.{target}
use yamux.Data.Feed.{deliver_lem}
use yamux.Data.Inside.{InLoop, unread}
use yamux.Data.Rounds.{taken, taken-InLoop, Fed-InLoop}
use yamux.Data.{drop_or_deliver, take_from_frame, data_loop}

module _ {W Q T : Type 0} ⦃os : Os W⦄ ⦃sq : Stailq Buffer Q⦄ ⦃tr : Tree T⦄ where
  -- A round has given or dropped r bytes, at least one, which are to be taken from the frame.
  record Round (r : ℕ) (s t : Sys W Q T) : Type 0 where
    pos : 0 < r
    within : r ≤ s.session.frame_remain
    same_remain : t.session.frame_remain ≡ s.session.frame_remain
    remaining : unread (taken r t) ≡ unread s - r
    same_target : target t ≡ target s
    left : InLoop (taken r t)

  pub remaining :
      (r : ℕ) (s t : Sys W Q T)
      → IsValid s.session.recv_buf
      → t.session.recv_buf ≡ s.session.recv_buf
      → unread (taken r t) ≡ unread s - r
  remaining r s t v e =
      let (count, rest, valid) = bio_consume_lem r s.session.recv_buf v in
      ap (λ (b : Bio Q). length (contents (bio_consume r b).1)) e
      ∙ ap (length {A = ℕ}) rest
      ∙ length-drop r (contents s.session.recv_buf)

  round_lem :
      (found : Option ℕ) (s : Sys W Q T)
      → InLoop s
      → found ≡ target s
      → 0 < s.session.frame_remain
      → 0 < unread s
      → Returns
          (λ m t. (m ≡ none) ⊎ ((r : ℕ) × (m ≡ some r) × Round r s t))
          (drop_or_deliver found (min_of s.session.frame_remain 4096) s)
  unfolding drop_or_deliver
  round_lem none s v e remain pending =
      let size = min_of s.session.frame_remain 4096 in
      inr (
        size,
        refl,
        record {
          pos = ground arith;
          within = ground arith;
          same_remain = refl;
          remaining = remaining size s s v.received refl;
          same_target = refl;
          left = taken-InLoop size s v (ground arith);
        },
      )
  round_lem (some p) s v e remain pending =
      let size = min_of s.session.frame_remain 4096 in
      let bounds : (0 < size) × (size ≤ s.session.frame_remain) = ground arith in
      let (x, live, ix) = v.found _ p (sym e) in
      let fits = v.promised p x (sym e) live in
      let bytes = take size (contents s.session.recv_buf) in
      let long = length-take size (contents s.session.recv_buf) in
      Returns-map _ _ (drop_or_deliver (some p) size s)
        (deliver_lem p x size s live (v.windowed p x live) v.received pending bounds.0
          (omega (arith, bounds)))
        λ m t o. elim o [
          | inl n ↦ inl n
          | inr (n, fed) ↦ inr (
            length bytes,
            n,
            record {
              pos = omega (arith, bounds, long);
              within = omega (arith, bounds, long);
              same_remain = fed.input.frame_remain;
              remaining = remaining (length bytes) s t v.received fed.input.recv_buf;
              same_target = rw (fed.input.hdr, fed.streams) refl;
              left = Fed-InLoop p x bytes s t v live (sym e) fed (omega (arith, bounds, long));
            },
          )
        ]

  pub take_from_frame_lem :
      (r : ℕ) (t : Sys W Q T)
      → r ≤ t.session.frame_remain
      → t.session.frame_remain < 2 ^ 32
      → Returns (λ _ t'. t' ≡ taken r t) (take_from_frame r t)
  unfolding take_from_frame
  take_from_frame_lem r t le word =
      ap
        (λ (k : ℕ). record t {
          session = record t.session {
            recv_buf = (bio_consume r t.session.recv_buf).1;
            frame_remain = k;
          };
        })
        (omega arith)

  -- How the loop ends: the frame is used up or the bytes are, and some have been taken if there
  -- were any.
  pub record Rest (s s' : Sys W Q T) : Type 0 where
    pub loop : InLoop s'
    pub over : (s'.session.frame_remain ≡ 0) ⊎ (unread s' ≡ 0)
    pub less : unread s' ≤ unread s
    pub progress : 0 < s.session.frame_remain → 0 < unread s → unread s' < unread s

  pub pending_lem : (s : Sys W Q T) → InLoop s → bio_pending s.session.recv_buf ≡ unread s
  pending_lem s v = bio_pending_lem s.session.recv_buf v.received ∙ omega (arith, v.fits_int)

  -- After a round the rest of the loop goes on.
  Rest-Round : (r : ℕ) (s t s' : Sys W Q T) → Round r s t → Rest (taken r t) s' → Rest s s'
  Rest-Round r s t s' h k = record {
    loop = k.loop;
    over = k.over;
    less = omega (arith, k.less, h.remaining);
    progress = λ a b. omega (arith, k.less, h.remaining, h.pos);
  }

  -- What the loop does after `drop_or_deliver`.
  abbrev pub next_round : ℕ → Option ℕ → Option ℕ → Sys W Q T → Option (Code × Sys W Q T)
  next_round fuel found none t = some (failure, t)
  next_round fuel found (some r) t = (do take_from_frame r; data_loop fuel found) t

  -- Inside a frame of a session, for the frame's stream if it has one, with fuel for as many
  -- rounds as bytes of the frame remain, the loop of session_handle_data returns -1, or ends
  -- inside a sound session with the frame used up or no byte unread, and has taken a byte at least
  -- if there was one for the frame.
  pub data_loop_lem :
      (fuel : ℕ) (found : Option ℕ) (s : Sys W Q T)
      → s.session.frame_remain ≤ fuel
      → InLoop s
      → found ≡ target s
      → Returns (λ c s'. (c ≡ failure) ⊎ Rest s s') (data_loop fuel found s)
  unfolding data_loop
  data_loop_lem zero found s enough v e = inr (record {
    loop = v;
    over = inl (omega arith);
    less = omega arith;
    progress = λ a b. absurd (omega arith);
  })
  data_loop_lem (suc fuel) found s enough v e =
      elim (Bool-cases (s.session.frame_remain == 0 || bio_pending s.session.recv_buf == 0)) [
        | inl stop ↦
            rw (stop, Returns)
              (inr (record {
                loop = v;
                over = ground (arith, pending_lem s v);
                less = omega arith;
                progress = λ a b. absurd (ground (arith, pending_lem s v));
              }))
        | inr go ↦
            let size = min_of s.session.frame_remain 4096 in
            let remain : 0 < s.session.frame_remain = ground arith in
            let pending : 0 < unread s = ground (arith, pending_lem s v) in
            rw (go, Returns)
              (Returns-bind (λ m t. (m ≡ none) ⊎ ((r : ℕ) × (m ≡ some r) × Round r s t)) _
                (drop_or_deliver found size s) (next_round fuel found)
                (round_lem found s v e remain pending)
                λ m t o. elim o [
                  | inl n ↦ rw (n, Returns) (inl refl)
                  | inr (r, n, h) ↦ rw (n) (
                      Returns-bind (λ _ t'. t' ≡ taken r t) (λ c s'. (c ≡ failure) ⊎ Rest s s')
                        (take_from_frame r t) (λ _. data_loop fuel found)
                        (take_from_frame_lem r t (omega (arith, h.within, h.same_remain))
                          (omega (arith, v.bound, h.same_remain)))
                        λ _ t' same. rw (same) (
                          Returns-map _ _ (data_loop fuel found (taken r t))
                            (data_loop_lem fuel found (taken r t)
                              (omega (arith, h.pos, h.within, h.same_remain)) h.left
                              (e ∙ sym h.same_target))
                            λ c s' q. elim q [
                              | inl f ↦ inl f
                              | inr k ↦ inr (Rest-Round r s t s' h k)
                            ]))
                ])
      ]
