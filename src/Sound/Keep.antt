-- ===== src/Sound/Keep.antt =====
-- Calm steps keep a session sound.
use yamux.Common.{ℕ, ◌≡◌, refl, sym, ◌∙◌, ap, subst, Option, none, some, arith, length}
use yamux.Bio.{Buffer}
use yamux.Bio.Contents.{contents, IsValid}
use yamux.Stailq.{Stailq}
use yamux.Tree.{Tree}
use yamux.Frame.{hdr_type}
use yamux.State.{Stream, Sys}
use yamux.State.Calm.{Calm, Calm-live, SameCore}
use yamux.Sound.{IsWindowed, IsSound}

module _ {W Q T : Type 0} where
  -- A stream that is there afterwards was there before.
  pub Calm-was :
      (s s' : Sys W Q T) (p : ℕ) {y : Stream Q}
      → Calm s s'
      → s'.heap p ≡ some y
      → (x : Stream Q) × (s.heap p ≡ some x) × SameCore (some x) (some y)
  Calm-was s s' p {y} h e = go (s.heap p) refl (rw e at (h.heap p))
    where
      go :
          (o : Option (Stream Q))
          → s.heap p ≡ o
          → SameCore o (some y)
          → (x : Stream Q) × (s.heap p ≡ some x) × SameCore (some x) (some y)
      go none e' k = absurd k
      go (some x) e' k = (x, e', k)

  Calm-none : (s s' : Sys W Q T) (p : ℕ) → Calm s s' → s.heap p ≡ none → s'.heap p ≡ none
  Calm-none s s' p h e = go (s'.heap p) refl (rw e at (h.heap p))
    where
      go : (o : Option (Stream Q)) → s'.heap p ≡ o → SameCore none o → s'.heap p ≡ none
      go none e' k = e'
      go (some x) e' k = absurd k

module _ {Q : Type 0} ⦃sq : Stailq Buffer Q⦄ where
  pub IsWindowed-same : (x y : Stream Q) → SameCore (some x) (some y) → IsWindowed x → IsWindowed y
  IsWindowed-same x y k w = record {
    buffered = subst IsValid k.2 w.buffered;
    promised = omega (arith, w.promised, k.1, ap (λ b. length (contents b)) k.2);
  }

module _ {W Q T : Type 0} ⦃sq : Stailq Buffer Q⦄ ⦃tr : Tree T⦄ where
  pub Calm-IsSound : (s s' : Sys W Q T) → Calm s s' → IsSound s → IsSound s'
  Calm-IsSound s s' h v = record {
    found = λ id p e.
        let (x, ex, ix) = v.found id p (rw h.streams at e) in
        let (y, ey, k) = Calm-live s s' p h ex in (y, ey, sym k.0 ∙ ix);
    fresh = λ p le. Calm-none s s' p h (v.fresh p (omega (arith, h.next_address)));
    windowed =
        λ p y e. let (x, ex, k) = Calm-was s s' p h e in IsWindowed-same x y k (v.windowed p x ex);
    received = subst IsValid (sym h.recv_buf) v.received;
    fits_int = omega (arith, v.fits_int, ap (λ b. length (contents b)) h.recv_buf);
    framed = λ e.
        let (t, pos, bound) = v.framed (sym h.new_frame ∙ e) in
        (ap hdr_type h.hdr ∙ t, omega (arith, h.frame_remain), omega (arith, h.frame_remain));
    promised_frame = λ e p y et ey.
        let (x, ex, k) = Calm-was s s' p h ey in
        let le = v.promised_frame (sym h.new_frame ∙ e) p x (rw (h.hdr, h.streams) at et) ex in
        omega (arith, le, h.frame_remain, k.1);
  }
