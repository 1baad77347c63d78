-- ===== src/Notify/Signals.antt =====
-- The signals of mux.c on a stream that is there: they return, and change only the descriptors and
-- the two flags `readable` and `writeable`.
use yamux.Common.{ℕ, ◌≡◌, refl, true, false, some, [], ◌∷◌, arith}
use yamux.Os.{Os, bytes_block}
use yamux.State.{Stream, Sys, Code}
use yamux.State.Rules.{Returns, Returns-bind}
use yamux.State.Signals.{
  Signals, Signals-refl, Signals-world, Signals-store, Signals-trans, Signals-live,
}
use yamux.Notify.{
  stream_writeable_notify, stream_writeable_waiting, stream_readable_notify,
  stream_readable_waiting, stream_notify_waiting, padding_buffer,
}

module _ {W Q T : Type 0} ⦃os : Os W⦄ (p : ℕ) (s : Sys W Q T) (x : Stream Q)
    (live : s.heap p ≡ some x) where
  pub stream_readable_notify-Signals : Returns (λ _ s'. Signals s s') (stream_readable_notify p s)
  unfolding stream_readable_notify
  stream_readable_notify-Signals =
      let w = (os.write x.private_fd (0 ∷ []) s.world).1 in
      ground (
        arith,
        Signals-refl s,
        Signals-world s w,
        Signals-store s w p x (record x { readable = true }) live (refl, refl, refl) refl,
      )

  pub stream_readable_waiting-Signals : Returns (λ _ s'. Signals s s') (stream_readable_waiting p s)
  unfolding stream_readable_waiting
  stream_readable_waiting-Signals =
      let w = (os.read x.fd 1 s.world).1 in
      ground (
        arith,
        Signals-refl s,
        Signals-world s w,
        Signals-store s w p x (record x { readable = false }) live (refl, refl, refl) refl,
      )

  pub stream_writeable_notify-Signals : Returns (λ _ s'. Signals s s') (stream_writeable_notify p s)
  unfolding stream_writeable_notify padding_buffer
  stream_writeable_notify-Signals =
      let w = (os.malloc (bytes_block x.send_padding) s.world).1 in
      let y = record x { writeable = true } in
      let w0 = (os.read x.private_fd x.send_padding s.world).1 in
      let w1 = (os.read x.private_fd x.send_padding w).1 in
      ground (
        arith,
        Signals-refl s,
        Signals-world s w,
        Signals-world s w0,
        Signals-world s w1,
        Signals-store s w0 p x y live (refl, refl, refl) refl,
        Signals-store s w1 p x y live (refl, refl, refl) refl,
      )

  pub stream_writeable_waiting-Signals :
      Returns (λ _ s'. Signals s s') (stream_writeable_waiting p s)
  unfolding stream_writeable_waiting padding_buffer
  stream_writeable_waiting-Signals =
      let w = (os.malloc (bytes_block x.send_padding) s.world).1 in
      let y = record x { writeable = false } in
      let w0 = (os.write x.fd (os.uninit x.send_padding s.world) s.world).1 in
      let w1 = (os.write x.fd (os.uninit x.send_padding w) w).1 in
      ground (
        arith,
        Signals-refl s,
        Signals-world s w,
        Signals-world s w0,
        Signals-world s w1,
        Signals-store s w0 p x y live (refl, refl, refl) refl,
        Signals-store s w1 p x y live (refl, refl, refl) refl,
      )

module _ {W Q T : Type 0} ⦃os : Os W⦄ (p : ℕ) (s : Sys W Q T) (x : Stream Q)
    (live : s.heap p ≡ some x) where
  pub stream_notify_waiting-Signals : Returns (λ _ s'. Signals s s') (stream_notify_waiting p s)
  unfolding stream_notify_waiting
  stream_notify_waiting-Signals =
      Returns-bind (λ (_ : Code) s'. Signals s s') (λ _ s'. Signals s s')
        (stream_writeable_notify p s) _ (stream_writeable_notify-Signals p s x live)
        λ _ t c.
          let (y, e, k) = Signals-live s t p c live in
          Returns-bind (λ (_ : Code) u. Signals t u) (λ _ u. Signals s u)
            (stream_readable_notify p t) _ (stream_readable_notify-Signals p t y e)
            λ _ u d. Signals-trans s t u c d
