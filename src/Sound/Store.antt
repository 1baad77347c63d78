-- ===== src/Sound/Store.antt =====
-- Changes that keep a session sound and are not calm: a stream's window grows as its bytes are
-- taken, and bytes come in.
use yamux.Common.{ℕ, ◌^◌, ◌≤◌, ◌<◌, ◌≡◌, ◌∙◌, ap, subst, some, arith, length, ℕ_discrete}
use yamux.Bio.{Bio, Buffer}
use yamux.Bio.Contents.{contents, IsValid}
use yamux.Stailq.{Stailq}
use yamux.Tree.{Tree}
use yamux.State.{Stream, Sys, update}
use yamux.Sound.{IsWindowed, IsSound}

module _ {W Q T : Type 0} ⦃sq : Stailq Buffer Q⦄ ⦃tr : Tree T⦄ where
  -- The stream at p becomes one with the same id and no smaller window.
  pub store-IsSound :
      (s : Sys W Q T) (p : ℕ) (x y : Stream Q)
      → IsSound s
      → s.heap p ≡ some x
      → y.id ≡ x.id
      → x.recv_window ≤ y.recv_window
      → IsWindowed y
      → IsSound (record s { heap = update s.heap p (some y) })
  store-IsSound s p x y v live same wider win = record {
    found = λ id q e.
        let (z, ez, iz) = v.found id q e in
        elim (ℕ_discrete q p) [
          | yes here ↦ (y, ground arith, same ∙ ap (λ (u : Stream Q). u.id) (one here z ez) ∙ iz)
          | no other ↦ (z, ground arith, iz)
        ];
    fresh = λ q le. ground (arith, v.fresh q le, live);
    windowed = λ q z e. elim (ℕ_discrete q p) [
      | yes here ↦ subst IsWindowed (stored here z e) win
      | no other ↦ v.windowed q z (ground arith)
    ];
    received = v.received;
    fits_int = v.fits_int;
    framed = v.framed;
    promised_frame = λ h q z a e. elim (ℕ_discrete q p) [
      | yes here ↦ omega (
        arith,
        ap (λ (u : Stream Q). u.recv_window) (stored here z e),
        v.promised_frame h q x a (ap s.heap here ∙ live),
      )
      | no other ↦ v.promised_frame h q z a (ground arith)
    ];
  }
    where
      one : {q : ℕ} → q ≡ p → (z : Stream Q) → s.heap q ≡ some z → x ≡ z
      one here z e = ground (arith, ap s.heap here)

      stored : {q : ℕ} → q ≡ p → (z : Stream Q) → update s.heap p (some y) q ≡ some z → y ≡ z
      stored here z e = ground arith

  -- Bytes come in or are taken.
  pub input-IsSound :
      (s : Sys W Q T) (b : Bio Q) (w : W)
      → IsSound s
      → IsValid b
      → length (contents b) < 2 ^ 31
      → IsSound (record s { session = record s.session { recv_buf = b }; world = w })
  input-IsSound s b w v valid fits = record {
    found = v.found;
    fresh = v.fresh;
    windowed = v.windowed;
    received = valid;
    fits_int = fits;
    framed = v.framed;
    promised_frame = v.promised_frame;
  }
