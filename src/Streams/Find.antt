-- ===== src/Streams/Find.antt =====
-- Lookups of streams by id (mux.c) in a sound session.
use yamux.Common.{Option, none, subst, sym, ℕ, ◌≡◌, some, Option-cases, arith, inl, inr}
use yamux.Bio.{Buffer}
use yamux.Stailq.{Stailq}
use yamux.Tree.{Tree}
use yamux.State.{M, Sys, ◌>>=◌}
use yamux.State.Rules.{Returns}
use yamux.Sound.{IsSound}
use yamux.Streams.{session_find_stream}

module _ {W Q T : Type 0} ⦃sq : Stailq Buffer Q⦄ ⦃tr : Tree T⦄ where
  -- In a sound session a lookup returns what the tree holds, changes nothing and reads no bad
  -- pointer.
  pub session_find_stream_lem :
      (id : ℕ) (s : Sys W Q T)
      → IsSound s
      → session_find_stream id s ≡ some (tr.find id s.session.streams, s)
  unfolding session_find_stream
  session_find_stream_lem id s v = elim (Option-cases (tr.find id s.session.streams)) [
    | inl e ↦ ground arith
    | inr (p, e) ↦ let (x, ex, ix) = v.found id p e in ground arith
  ]

  -- What follows a lookup.
  pub after_find :
      {B : Type 0} (R : B → Sys W Q T → Type 0) (f : Option ℕ → M W Q T B) (id : ℕ) (s : Sys W Q T)
      → IsSound s
      → Returns R (f (tr.find id s.session.streams) s)
      → Returns R ((session_find_stream id >>= f) s)
  after_find R f id s v h =
      subst (λ o. Returns R (elim o [ none ↦ none | some (a, t) ↦ f a t ]))
        (sym (session_find_stream_lem id s v)) h
