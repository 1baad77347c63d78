-- ===== src/Data/Rounds.antt =====
-- A round of the loop of session_handle_data (mux.c) keeps the invariant inside a frame.
use yamux.Common.{
  ℕ, ◌-◌, ◌≤◌, ◌≡◌, sym, ◌∙◌, ap, subst, some, List, arith, length, length-drop, ℕ_discrete,
}
use yamux.Bio.{Bio, Buffer, bio_consume}
use yamux.Bio.Contents.{contents, IsValid}
use yamux.Bio.Read.{bio_consume_lem}
use yamux.Stailq.{Stailq}
use yamux.Tree.{Tree}
use yamux.Frame.{hdr_type}
use yamux.State.{Stream, Sys}
use yamux.Sound.{IsWindowed, target}
use yamux.Sound.Keep.{IsWindowed-same}
use yamux.Data.Feed.{Fed}
use yamux.Data.Inside.{same_live, same_was, same_none, one_value, Fed-IsWindowed, InLoop}

module _ {W Q T : Type 0} ⦃sq : Stailq Buffer Q⦄ ⦃tr : Tree T⦄ where
  -- What `bio_consume` and the count leave.
  abbrev pub taken : ℕ → Sys W Q T → Sys W Q T
  taken r s = record s {
    session = record s.session {
      recv_buf = (bio_consume r s.session.recv_buf).1;
      frame_remain = s.session.frame_remain - r;
    };
  }

  -- Bytes that are dropped.
  pub taken-InLoop :
      (r : ℕ) (s : Sys W Q T) → InLoop s → r ≤ s.session.frame_remain → InLoop (taken r s)
  taken-InLoop r s v le =
      let (count, rest, valid) = bio_consume_lem r s.session.recv_buf v.received in
      record {
        found = v.found;
        fresh = v.fresh;
        windowed = v.windowed;
        received = valid;
        fits_int = omega (
          arith,
          v.fits_int,
          ap (length {A = ℕ}) rest,
          length-drop r (contents s.session.recv_buf),
        );
        mid = v.mid;
        kind = v.kind;
        bound = omega (arith, v.bound);
        promised = λ p x e h. omega (arith, v.promised p x e h);
      }

  -- Bytes that a stream has received.
  pub Fed-InLoop :
      (p : ℕ) (x : Stream Q) (bytes : List ℕ) (s t : Sys W Q T)
      → InLoop s
      → s.heap p ≡ some x
      → target s ≡ some p
      → Fed p x bytes s t
      → length bytes ≤ s.session.frame_remain
      → InLoop (taken (length bytes) t)
  Fed-InLoop p x bytes s t v live aim h le =
      let r = length bytes in
      let same = ap (λ (b : Bio Q). length (contents b)) h.input.recv_buf in
      let valid : IsValid t.session.recv_buf = subst IsValid (sym h.input.recv_buf) v.received in
      let (count, rest, after) = bio_consume_lem r t.session.recv_buf valid in
      record {
        found = λ id q e.
            let (z, ez, iz) = v.found id q (rw (h.streams) at e) in
            elim (ℕ_discrete q p) [
              | yes same ↦ (
                h.stream,
                ap t.heap same ∙ h.here,
                h.same_id
                    ∙ ap (λ (y : Stream Q). y.id)
                        (one_value (s.heap p) x z live (ap s.heap (sym same) ∙ ez))
                    ∙ iz,
              )
              | no other ↦
                  let (y, ey, k) = same_live (s.heap q) (t.heap q) z (h.others q other) ez in
                  (y, ey, sym k.0 ∙ iz)
            ];
        fresh = λ q le'. elim (ℕ_discrete q p) [
          | yes here ↦
              absurd
                (ground (arith, v.fresh q (omega (arith, h.next_address)), ap s.heap here, live))
          | no other ↦
              same_none (s.heap q) (t.heap q) (h.others q other)
                (v.fresh q (omega (arith, h.next_address)))
        ];
        windowed = λ q y e. elim (ℕ_discrete q p) [
          | yes here ↦
              subst IsWindowed (one_value (t.heap p) h.stream y h.here (ap t.heap (sym here) ∙ e))
                (Fed-IsWindowed p x bytes s t (v.windowed p x live) h)
          | no other ↦
              let (z, ez, k) = same_was (s.heap q) (t.heap q) y (h.others q other) e in
              IsWindowed-same z y k (v.windowed q z ez)
        ];
        received = after;
        fits_int = omega (
          arith,
          v.fits_int,
          same,
          ap (length {A = ℕ}) rest,
          length-drop r (contents t.session.recv_buf),
        );
        mid = h.input.new_frame ∙ v.mid;
        kind = ap hdr_type h.input.hdr ∙ v.kind;
        bound = omega (arith, v.bound, h.input.frame_remain);
        promised = λ q y e k.
            let aimed : target s ≡ some q = rw (h.input.hdr, h.streams) at e in
            let here : q ≡ p = one_value (target s) q p aimed aim in
            let one = one_value (t.heap p) h.stream y h.here (ap t.heap (sym here) ∙ k) in
            omega (
              arith,
              h.window,
              v.promised p x aim live,
              ap (λ (z : Stream Q). z.recv_window) one,
              h.input.frame_remain,
            );
      }
