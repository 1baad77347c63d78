-- ===== src/Data/Begin.antt =====
-- The first call of session_handle_data (mux.c) for a frame: its flags and its length.
use yamux.Common.{
  ℕ, ◌≤◌, ◌≡◌, ◌⊎◌, refl, sym, ◌∙◌, ap, true, false, Option, none, some, arith, inl, inr, length,
  ◌==◌, if◌then◌else◌, Bool-cases, ltb, ltb→le,
}
use yamux.Bio.{Bio, Buffer}
use yamux.Bio.Contents.{contents}
use yamux.Os.{Os}
use yamux.Stailq.{Stailq}
use yamux.Tree.{Tree}
use yamux.Frame.{type_data, hdr_type, hdr_length, hdr_flags, go_away_proto_err}
use yamux.Frame.Codec.{hdr_bounds}
use yamux.State.{Stream, Sys, M, Code, success, failure, ◌>>=◌, ◌>>◌, pure, load}
use yamux.State.Rules.{Returns, Returns-bind}
use yamux.State.Calm.{Calm, Calm-refl, Calm-trans}
use yamux.Flags.{stream_process_flags}
use yamux.Flags.Step.{Settles, after_flags}
use yamux.Flags.Process.{stream_process_flags_lem}
use yamux.Sound.{IsSound, target}
use yamux.Sound.Keep.{Calm-IsSound}
use yamux.Incoming.{fail_with}
use yamux.Incoming.Safe.{fail_with-Calm}
use yamux.Data.Inside.{InLoop, unread, one_value}
use yamux.Data.{check_frame, start_frame, begin_frame}

module _ {W Q T : Type 0} ⦃os : Os W⦄ ⦃sq : Stailq Buffer Q⦄ ⦃tr : Tree T⦄ where
  -- How the tests on a new frame end: with -1, with 0 for a frame without data, or with a frame
  -- that fits in the stream's window.
  abbrev pub Verdict : ℕ → Option Code → Sys W Q T → Type 0
  Verdict p m u =
      (m ≡ some failure)
      ⊎ ((m ≡ some success) × (hdr_length u.session.hdr ≡ 0)
          ⊎ ((m ≡ none)
              × ((y : Stream Q) × (u.heap p ≡ some y)
                  × (hdr_length u.session.hdr ≤ y.recv_window))))

  refuse :
      (p : ℕ) (s t : Sys W Q T)
      → Calm s t
      → Returns
          (λ m u. Calm s u × Verdict p m u)
          ((do code ← fail_with go_away_proto_err; pure (some code)) t)
  refuse p s t c =
      Returns-bind (λ c u. (c ≡ failure) × Calm t u) (λ m u. Calm s u × Verdict p m u)
        (fail_with go_away_proto_err t) (λ code. pure (some code))
        (fail_with-Calm go_away_proto_err t) λ code u h. (Calm-trans s t u c h.1, inl (ap some h.0))

  pub check_frame_lem :
      (p : ℕ) (s : Sys W Q T) (x : Stream Q)
      → s.heap p ≡ some x
      → Returns (λ m u. Calm s u × Verdict p m u) (check_frame p s)
  unfolding check_frame
  check_frame_lem p s x live =
      let flags = hdr_flags s.session.hdr in
      let (code, b) = after_flags flags x.state in
      Returns-bind (λ c t. (c ≡ code) × Settles p b s t) (λ m u. Calm s u × Verdict p m u)
        (stream_process_flags p flags s) _ (stream_process_flags_lem p flags s x live)
        λ c t h. judged c t h.1
    where
      judged :
          (c : Code) (t : Sys W Q T)
          → Settles p (after_flags (hdr_flags s.session.hdr) x.state).1 s t
          → Returns
              (λ m u. Calm s u × Verdict p m u)
              ((elim c as (λ _. M W Q T (Option Code)) [
                | failure ↦ (do code ← fail_with go_away_proto_err; pure (some code))
                | success ↦ if hdr_length s.session.hdr == 0 then pure (some success) else (do
                  stream ← load p
                  if ltb stream.recv_window (hdr_length s.session.hdr)
                      then (do code ← fail_with go_away_proto_err; pure (some code))
                      else pure none)
              ])
                t)
      judged failure t h = refuse p s t h.calm
      judged success t h = elim (Bool-cases (hdr_length s.session.hdr == 0)) [
        | inl e ↦
            rw (e, Returns) (h.calm, inr (inl (refl, ap hdr_length h.calm.hdr ∙ ground arith)))
        | inr e ↦
            rw (e, Returns, h.here)
              (elim (Bool-cases (ltb h.stream.recv_window (hdr_length s.session.hdr))) [
                | inl f ↦ rw (f) (refuse p s t h.calm)
                | inr f ↦
                    rw (f, Returns)
                      (
                        h.calm,
                        inr (
                            inr (
                              refl,
                              (
                                h.stream,
                                h.here,
                                omega (arith, ltb→le _ _ f, ap hdr_length h.calm.hdr),
                              ),
                            )),
                      )
              ])
      ]

  pub start_frame_lem :
      (u : Sys W Q T)
      → IsSound u
      → hdr_type u.session.hdr ≡ type_data
      → ((p : ℕ) (x : Stream Q)
          → target u ≡ some p
          → u.heap p ≡ some x
          → hdr_length u.session.hdr ≤ x.recv_window)
      → Returns (λ _ t. InLoop t × (unread t ≡ unread u) × (target t ≡ target u)) (start_frame u)
  unfolding start_frame
  start_frame_lem u v kind room = (
    record {
      found = v.found;
      fresh = v.fresh;
      windowed = v.windowed;
      received = v.received;
      fits_int = v.fits_int;
      mid = refl;
      kind = kind;
      bound = (hdr_bounds u.session.hdr).3;
      promised = room;
    },
    refl,
    refl,
  )

  -- What begin_frame leaves at a new frame: -1, a sound session if there is nothing to read, or one
  -- inside the frame.
  abbrev pub Begun : Sys W Q T → Option Code → Sys W Q T → Type 0
  Begun s m t =
      (m ≡ some failure)
      ⊎ ((m ≡ some success) × IsSound t × (unread t ≡ unread s)
          ⊎ (m ≡ none) × InLoop t × (unread t ≡ unread s) × (target t ≡ target s))

  -- From `session->frame_remain = len` on.
  started :
      (s u : Sys W Q T)
      → Calm s u
      → IsSound u
      → hdr_type u.session.hdr ≡ type_data
      → ((p : ℕ) (x : Stream Q)
          → target u ≡ some p
          → u.heap p ≡ some x
          → hdr_length u.session.hdr ≤ x.recv_window)
      → Returns (Begun s) ((do start_frame; pure none) u)
  started s u c v kind room =
      Returns-bind (λ _ t. InLoop t × (unread t ≡ unread u) × (target t ≡ target u)) (Begun s)
        (start_frame u) (λ _. pure none) (start_frame_lem u v kind room)
        λ _ t h. inr (
          inr (
            refl,
            h.0,
            h.1 ∙ ap (λ (b : Bio Q). length (contents b)) c.recv_buf,
            h.2 ∙ rw (c.hdr, c.streams) refl,
          ))

  pub begin_frame_lem :
      (found : Option ℕ) (s : Sys W Q T)
      → IsSound s
      → found ≡ target s
      → s.session.new_frame ≡ true
      → hdr_type s.session.hdr ≡ type_data
      → Returns (Begun s) (begin_frame found s)
  unfolding begin_frame
  begin_frame_lem none s v e new kind =
      simp (new) (started s s (Calm-refl s) v kind λ p x a h. absurd (ground arith))
  begin_frame_lem (some p) s v e new kind =
      let (x, live, ix) = v.found _ p (sym e) in
      simp (new) (
        Returns-bind (λ m u. Calm s u × Verdict p m u) (Begun s) (check_frame p s) _
          (check_frame_lem p s x live) λ m u h. decided m u h.0 h.1)
    where
      decided :
          (m : Option Code) (u : Sys W Q T)
          → Calm s u
          → Verdict p m u
          → Returns (Begun s) (
              (elim m as (λ _. M W Q T (Option Code)) [
                | some code ↦ pure (some code)
                | none ↦ (do start_frame; pure none)
              ])
                u)
      decided m u c (inl f) = rw (f, Returns) (inl refl)
      decided m u c (inr (inl (f, z))) =
          rw (f, Returns)
            (inr (
              inl (refl, Calm-IsSound s u c v, ap (λ (b : Bio Q). length (contents b)) c.recv_buf)))
      decided m u c (inr (inr (f, (y, here, le)))) = rw (f) (
          started s u c (Calm-IsSound s u c v) (ap hdr_type c.hdr ∙ kind) λ q z a h.
            let aimed : target s ≡ some q = rw (c.hdr, c.streams) at a in
            let same : q ≡ p = one_value (target s) q p aimed (sym e) in
            let one = one_value (u.heap p) y z here (ap u.heap (sym same) ∙ h) in
            omega (arith, le, ap (λ (z : Stream Q). z.recv_window) one))

module _ {W Q T : Type 0} ⦃os : Os W⦄ ⦃sq : Stailq Buffer Q⦄ ⦃tr : Tree T⦄ where
  -- Inside a frame there is nothing to begin.
  pub begin_frame_mid :
      (found : Option ℕ) (s : Sys W Q T)
      → s.session.new_frame ≡ false
      → Returns (λ m u. (m ≡ none) × (u ≡ s)) (begin_frame found s)
  unfolding begin_frame
  begin_frame_mid found s mid = rw (mid, Returns) (refl, ground (arith, mid))
