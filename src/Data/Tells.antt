-- ===== src/Data/Tells.antt =====
-- Bytes for a stream (the loop of session_handle_data in mux.c), on a platform where all goes well:
-- the stream gets them, and its reader is told.
use yamux.Common.{
  ℕ, ◌^◌, ◌<◌, ◌≡◌, ◌≢◌, refl, ◌∙◌, true, false, some, List, [], ◌∷◌, arith, minus_one, sub32, inl,
  inr, Bool-cases, length, take, length-take, ◌==◌, int_of, int_lt, min,
}
use yamux.Bio.{Bio, Buffer, bio_write}
use yamux.Bio.Contents.{contents, IsValid}
use yamux.Bio.Read.{bio_peek_lem}
use yamux.Bio.Memory.{bio_write_whole}
use yamux.Os.{Os, Block}
use yamux.Stailq.{Stailq}
use yamux.Tree.{Tree}
use yamux.State.{Stream, Sys, success, update}
use yamux.State.Rules.{Returns, Returns-bind}
use yamux.Notify.{moved, stream_readable_notify}
use yamux.Data.{after_notify, after_write, feed, deliver}

-- There is memory, and a socket takes a byte that is written to it.
pub record Works {W : Type 0} (os : Os W) : Type 0 where
  pub memory : (b : Block) (w : W) → (os.malloc b w).0 ≡ true
  pub takes : (fd : ℕ) (w : W) → moved (os.write fd (0 ∷ []) w).0 ≡ true

-- The stream at p is said to be readable, and is in the state that it was in before, as x; no other
-- stream has changed, nor anything of the session.
abbrev pub Told : {W Q T : Type 0} → ℕ → Stream Q → Sys W Q T → Sys W Q T → Type 0
Told {W} {Q} {T} p x s t =
    ((y : Stream Q) × (t.heap p ≡ some y) × (y.readable ≡ true) × (y.state ≡ x.state))
    × ((r : ℕ) → r ≢ p → t.heap r ≡ s.heap r)
    × (t.session ≡ s.session)

module _ {W Q T : Type 0} ⦃os : Os W⦄ where
  stream_readable_notify-Told :
      (p : ℕ) (s : Sys W Q T) (x : Stream Q)
      → Works os
      → s.heap p ≡ some x
      → Returns (λ c t. (c ≡ success) × Told p x s t) (stream_readable_notify p s)
  unfolding stream_readable_notify
  stream_readable_notify-Told p s x works live = elim (Bool-cases x.readable) [
    | inl e ↦ rw (live, Returns, e) (refl, ((x, live, e, refl), (λ r other. refl), refl))
    | inr e ↦
        rw (live, Returns, e, works.takes x.private_fd s.world)
          (
            refl,
            (
              (record x { readable = true }, ground arith, refl, refl),
              (λ r other. ground arith),
              refl,
            ),
          )
  ]

module _ {W Q T : Type 0} ⦃os : Os W⦄ ⦃sq : Stailq Buffer Q⦄ ⦃tr : Tree T⦄ where
  after_write-Told :
      (p : ℕ) (x : Stream Q) (k : ℕ) (b : Bio Q) (s : Sys W Q T)
      → Works os
      → s.heap p ≡ some x
      → (k == minus_one) ≡ false
      → Returns (λ r t. (r ≡ some k) × Told p x s t) (after_write p x (k, b) s)
  unfolding after_write after_notify
  after_write-Told p x k b s works live distinct =
      let y = record x { recv_buf = b; recv_window = sub32 x.recv_window k } in
      let t = record s {
        heap = update (update s.heap p (some (record x { recv_buf = b }))) p (some y);
      } in
      let here : t.heap p ≡ some y = ground arith in
      rw (distinct, Returns)
        (Returns-bind (λ c u. (c ≡ success) × Told p y t u) (λ r u. (r ≡ some k) × Told p x s u)
          (stream_readable_notify p t) (after_notify k)
          (stream_readable_notify-Told p t y works here)
          λ c u h.
            rw (h.0, Returns) (refl, (h.1.0, (λ r other. h.1.1 r other ∙ ground arith), h.1.2)))

  feed-Told :
      (p : ℕ) (x : Stream Q) (bytes : List ℕ) (s : Sys W Q T)
      → Works os
      → s.heap p ≡ some x
      → 0 < length bytes
      → length bytes < 2 ^ 31
      → Returns (λ r t. (r ≡ some (length bytes)) × Told p x s t) (feed p (length bytes, bytes) s)
  unfolding feed
  feed-Told p x bytes s works live pos small =
      let n = length bytes in
      let tested : int_lt 0 n ≡ true = ground arith in
      let (r, b, w) = bio_write bytes n x.recv_buf s.world in
      let done : r ≡ n = bio_write_whole works.memory bytes n x.recv_buf s.world ∙ omega arith in
      let t : Sys W Q T = record s { world = w } in
      rw (tested, live, Returns, done) (after_write-Told p x n b t works live (ground arith))

  -- The round gives as many bytes as there are, up to the size, and does not fail.
  pub deliver-Told :
      (p : ℕ) (x : Stream Q) (size : ℕ) (s : Sys W Q T)
      → Works os
      → s.heap p ≡ some x
      → IsValid s.session.recv_buf
      → 0 < length (contents s.session.recv_buf)
      → 0 < size
      → size < 2 ^ 31
      → Returns
          (λ r t. (r ≡ some (length (take size (contents s.session.recv_buf)))) × Told p x s t)
          (deliver p size s)
  unfolding deliver
  deliver-Told p x size s works live v pending pos small =
      let input = contents s.session.recv_buf in
      let bytes = take size input in
      let long = length-take size input in
      let count : int_of (min size (length input)) ≡ length bytes = omega (arith, long) in
      rw (bio_peek_lem size s.session.recv_buf v, count)
        (feed-Told p x bytes s works live (omega (arith, long)) (omega (arith, long)))
