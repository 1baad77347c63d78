-- ===== src/Streams/Setup.antt =====
-- The making of a stream (stream_new of mux.c): all of it, on every path.
use yamux.Common.{ℕ, ◌≡◌, refl, sym, subst, Bool, Option, none, some, [], arith}
use yamux.Bio.{Bio, Buffer, bio_new}
use yamux.Bio.Contents.{IsValid, contents}
use yamux.Bio.Write.{bio_new_lem}
use yamux.Os.{Os, stream_block}
use yamux.Stailq.{Stailq}
use yamux.Tree.{Tree}
use yamux.State.{State, Stream, Sys, M}
use yamux.State.Rules.{Returns, Returns-bind, Returns-map}
use yamux.State.Calm.{Calm-world}
use yamux.Sound.{IsSound}
use yamux.Sound.Keep.{Calm-IsSound}
use yamux.Streams.{
  stream_new, fill_stream, stream_connect, stream_setup_fd, shrink_fd, finish_stream, fresh_stream,
}
use yamux.Streams.Made.{
  OnlyWorld, IsSetUp, setup_lem, Makes, Makes-none, Makes-world, Makes-registered, IsOpenable,
  Calm-IsOpenable,
}

module _ {W Q T : Type 0} ⦃os : Os W⦄ where
  shrink_fd_lem :
      (fd : ℕ) (s : Sys W Q T) → Returns (λ (_ : Bool) s'. OnlyWorld s s') (shrink_fd fd s)
  unfolding shrink_fd
  shrink_fd_lem fd s = ground arith

  -- Setting up a stream changes nothing else.
  stream_setup_fd_lem :
      (x : Stream Q) (s : Sys W Q T)
      → Returns (λ r s'. OnlyWorld s s' × IsSetUp x r) (stream_setup_fd x s)
  unfolding stream_setup_fd
  stream_setup_fd_lem x s =
      Returns-bind (λ (_ : Bool) t. OnlyWorld s t) (λ r s'. OnlyWorld s s' × IsSetUp x r)
        (shrink_fd x.fd s) _ (shrink_fd_lem x.fd s)
        λ failed t h. ground (arith, shrink_fd_lem x.private_fd t)

module _ {W Q T : Type 0} ⦃os : Os W⦄ ⦃sq : Stailq Buffer Q⦄ ⦃tr : Tree T⦄ where
  finish_stream_lem :
      (id : ℕ) (state : State) (b : Bio Q) (fd private_fd : ℕ) (r : Option (Stream Q))
      (s : Sys W Q T)
      → IsSound s
      → IsOpenable id s
      → (contents b ≡ []) × IsValid b
      → IsSetUp (fresh_stream id state b fd private_fd) r
      → Returns (λ r' s'. Makes id state r' s s') (finish_stream fd private_fd r s)
  unfolding finish_stream
  finish_stream_lem id state b fd private_fd none s v f h k =
      Makes-none id state s (os.close private_fd (os.close fd s.world)) v
  finish_stream_lem id state b fd private_fd (some y) s v f h k =
      let (fresh, windowed) = setup_lem id state b fd private_fd y h k in
      Makes-registered id state y s v f fresh windowed

  -- What may have changed the world outside before.
  after_world :
      (id : ℕ) (state : State) (s : Sys W Q T) (w : W) (m : M W Q T (Option ℕ))
      → IsSound s
      → IsOpenable id s
      → ((t : Sys W Q T)
          → IsSound t
          → IsOpenable id t
          → Returns (λ r s'. Makes id state r t s') (m t))
      → Returns (λ r s'. Makes id state r s s') (m (record s { world = w }))
  after_world id state s w m v f next =
      let t : Sys W Q T = record s { world = w } in
      let c = Calm-world s w in
      Returns-map (λ r s'. Makes id state r t s') (λ r s'. Makes id state r s s') (m t)
        (next t (Calm-IsSound s t c v) (Calm-IsOpenable id s t c f))
        λ r u k. Makes-world id state r s w u k

  pub stream_connect_lem :
      (id : ℕ) (state : State) (b : Bio Q) (fds : Option (ℕ × ℕ)) (s : Sys W Q T)
      → IsSound s
      → IsOpenable id s
      → (contents b ≡ []) × IsValid b
      → Returns (λ r s'. Makes id state r s s') (stream_connect id state b fds s)
  unfolding stream_connect
  stream_connect_lem id state b none s v f h = Makes-none id state s s.world v
  stream_connect_lem id state b (some (fd, private_fd)) s v f h =
      Returns-bind (λ r t. OnlyWorld s t × IsSetUp (fresh_stream id state b fd private_fd) r)
        (λ r s'. Makes id state r s s') (stream_setup_fd (fresh_stream id state b fd private_fd) s)
        (finish_stream fd private_fd)
        (stream_setup_fd_lem (fresh_stream id state b fd private_fd) s)
        λ r t k.
          subst (λ u. Returns (λ r' s'. Makes id state r' s s') (finish_stream fd private_fd r u))
            (sym k.0)
            (after_world id state s t.world (finish_stream fd private_fd r) v f
              λ u v' f'. finish_stream_lem id state b fd private_fd r u v' f' h k.1)

  fill_stream_lem :
      (id : ℕ) (state : State) (b : Option (Bio Q)) (s : Sys W Q T)
      → IsSound s
      → IsOpenable id s
      → ((x : Bio Q) → b ≡ some x → (contents x ≡ []) × IsValid x)
      → Returns (λ r s'. Makes id state r s s') (fill_stream id state b s)
  unfolding fill_stream
  fill_stream_lem id state none s v f h = Makes-none id state s s.world v
  fill_stream_lem id state (some b) s v f h =
      let (fds, w) = os.socketpair s.world in
      after_world id state s w (stream_connect id state b fds) v f
        λ t v' f'. stream_connect_lem id state b fds t v' f' (h b refl)

  -- In a sound session, for an id that is neither that of a stream in the tree nor of a data frame
  -- that is being received, stream_new returns on every path, and the session stays sound and its
  -- input as it was. Either it returns a stream that is in memory with the id and the state that
  -- were given, both windows at the maximum and nothing received, and that the tree finds under
  -- the id, while no other stream, no other id of the tree and nothing else of the session has
  -- changed; or it returns NULL and nothing has changed but the world outside.
  pub stream_new_lem :
      (id : ℕ) (state : State) (s : Sys W Q T)
      → IsSound s
      → IsOpenable id s
      → Returns (λ r s'. Makes id state r s s') (stream_new id state s)
  unfolding stream_new
  stream_new_lem id state s v f =
      let w = (os.malloc stream_block s.world).1 in
      let (b, w') = bio_new {Q = Q} w in
      let filled =
        after_world id state s w' (fill_stream id state b) v f
          λ t v' f'. fill_stream_lem id state b t v' f' (bio_new_lem w) in
      ground (arith, filled, Makes-none id state s w v)
