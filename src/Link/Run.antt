-- ===== src/Link/Run.antt =====
-- Two sessions of mux.c as their users see them: a queue of bytes for each pair of linked streams.
use yamux.Common.{ℕ, ◌≡◌, refl, ap₂, some, List, [], ◌∷◌}
use yamux.Bio.{Buffer}
use yamux.Os.{Os}
use yamux.Stailq.{Stailq}
use yamux.Tree.{Tree}
use yamux.State.{Sys}
use yamux.State.Rules.{Returns, Returns-bind}
use yamux.Data.Tells.{Works}
use yamux.Handlers.Wake.{Drains}
use yamux.Io.{Io}
use yamux.Link.{Op, puts, takes, exchange, exchange_all}
use yamux.Link.Channel.{
  Channel, Linked, after_op, after_ops, answer, answers, Permitted, AllPermitted,
}
use yamux.Link.Puts.{puts-Linked}
use yamux.Link.Takes.{takes-Linked}

module _ {W Q T : Type 0} ⦃os : Os W⦄ ⦃sq : Stailq Buffer Q⦄ ⦃tr : Tree T⦄ where
  exchange-Linked :
      (L : ℕ → Type 0) (links : ℕ → ℕ) (op : Op) (f : ℕ → Channel) (a b : Sys W Q T)
      → Works os
      → Drains os
      → Linked L links f a b
      → Permitted L op f
      → Returns
          (λ io s. (io ≡ answer op f) × Linked L links (after_op op f) s.0 s.1)
          (exchange links op a b)
  exchange-Linked L links (puts q bytes) f a b works drains k ok =
      puts-Linked L links f a b q bytes works k ok
  exchange-Linked L links (takes q size) f a b works drains k ok =
      takes-Linked L links f a b k q size ok.0 works drains ok.1 ok.2

  -- Two sound sessions between two frames, with nothing queued or unread, have established streams
  -- that are linked pair by pair under one id, no two at one address of the reader, with a padding
  -- and the same window on both sides; on a platform with memory, where sockets take a byte and
  -- any read of at least one byte gives bytes, any sequence of writes (of at least one byte and
  -- fewer than the credit) and reads (for at least one byte, where there is one) on any of the
  -- streams, each carried to the other side at once, is one of the abstract channels, a queue of
  -- bytes and a credit for each pair: each write returns its count and its bytes go in at the end
  -- of its own channel and off its credit, each read returns the first bytes of its own channel,
  -- and where at least half of the window is spare after it the credit is what the window allows
  -- again; no call fails, and the sessions are linked as the channels say.
  pub exchange_all-answers :
      (L : ℕ → Type 0) (links : ℕ → ℕ) (ops : List Op) (f : ℕ → Channel) (a b : Sys W Q T)
      → Works os
      → Drains os
      → Linked L links f a b
      → AllPermitted L ops f
      → Returns
          (λ ios s. (ios ≡ answers ops f) × Linked L links (after_ops ops f) s.0 s.1)
          (exchange_all links ops a b)
  unfolding exchange_all
  exchange_all-answers L links [] f a b works drains k ok = (refl, k)
  exchange_all-answers L links (op ∷ rest) f a b works drains k ok =
      let R : List Io → Sys W Q T × Sys W Q T → Type 0 =
        λ ios s. (ios ≡ answers (op ∷ rest) f) × Linked L links (after_ops (op ∷ rest) f) s.0 s.1 in
      Returns-bind (λ io s. (io ≡ answer op f) × Linked L links (after_op op f) s.0 s.1) R
        (exchange links op a b) _ (exchange-Linked L links op f a b works drains k ok.0)
        λ io s (e, k').
          Returns-bind
            (λ ios t.
              (ios ≡ answers rest (after_op op f))
              × Linked L links (after_ops rest (after_op op f)) t.0 t.1)
            R (exchange_all links rest s.0 s.1) (λ ios t. some (io ∷ ios, t))
            (exchange_all-answers L links rest (after_op op f) s.0 s.1 works drains k' ok.1)
            λ ios t (es, k''). (ap₂ (λ x xs. x ∷ xs) e es, k'')
