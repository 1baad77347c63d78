-- ===== src/State/Signals.antt =====
-- The steps of mux.c that only signal: besides what a calm step leaves alone, the states and the
-- send windows of all streams stay.
use yamux.Common.{ℕ, ◌≡◌, refl, subst, sym, ◌∙◌, Option, none, some, arith}
use yamux.State.{State, Stream, Sys, update}
use yamux.State.Calm.{
  Calm, Calm-refl, Calm-trans, Calm-world, Calm-call_store, Calm-live, SameCore, SameCore-refl,
  SameCore-trans,
}

-- The state and the send window of a stream that is there.
abbrev pub sending : {Q : Type 0} → Option (Stream Q) → Option (State × ℕ)
sending none = none
sending (some x) = some (x.state, x.send_window)

-- The same stream but for its readiness, or none twice.
abbrev pub Alike : {Q : Type 0} → Option (Stream Q) → Option (Stream Q) → Type 0
Alike a b = SameCore a b × (sending b ≡ sending a)

pub Alike-equal : {Q : Type 0} (a b : Option (Stream Q)) → b ≡ a → Alike a b
Alike-equal a b e = subst (Alike a) (sym e) (SameCore-refl a, refl)

pub Alike-trans : {Q : Type 0} (a b c : Option (Stream Q)) → Alike a b → Alike b c → Alike a c
Alike-trans a b c h k = (SameCore-trans a b c h.0 k.0, k.1 ∙ h.1)

module _ {W Q T : Type 0} where
  pub record Signals (s s' : Sys W Q T) : Type 0 where
    pub calm : Calm s s'
    pub session : s'.session ≡ s.session
    pub sending_same : (q : ℕ) → sending (s'.heap q) ≡ sending (s.heap q)

  pub Signals-refl : (s : Sys W Q T) → Signals s s
  Signals-refl s = record { calm = Calm-refl s; session = refl; sending_same = λ q. refl }

  pub Signals-trans : (s t u : Sys W Q T) → Signals s t → Signals t u → Signals s u
  Signals-trans s t u h k = record {
    calm = Calm-trans s t u h.calm k.calm;
    session = k.session ∙ h.session;
    sending_same = λ q. k.sending_same q ∙ h.sending_same q;
  }

  pub Signals-world : (s : Sys W Q T) (w : W) → Signals s (record s { world = w })
  Signals-world s w = record { calm = Calm-world s w; session = refl; sending_same = λ q. refl }

  pub Signals-store :
      (s : Sys W Q T) (w : W) (p : ℕ) (x y : Stream Q)
      → s.heap p ≡ some x
      → SameCore (some x) (some y)
      → sending (some y) ≡ sending (some x)
      → Signals s (record s { heap = update s.heap p (some y); world = w })
  Signals-store s w p x y e h k = record {
    calm = Calm-call_store s w p x y e h;
    session = refl;
    sending_same = λ q. ground (arith, k);
  }

  -- A stream stays where it is, with its state.
  pub Signals-live :
      (s s' : Sys W Q T) (p : ℕ) {x : Stream Q}
      → Signals s s'
      → s.heap p ≡ some x
      → (y : Stream Q) × (s'.heap p ≡ some y) × (y.state ≡ x.state)
  Signals-live s s' p h e =
      let (y, e', k) = Calm-live s s' p h.calm e in (y, e', ground (arith, h.sending_same p))
