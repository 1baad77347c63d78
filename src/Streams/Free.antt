-- ===== src/Streams/Free.antt =====
-- The freeing of a stream (stream_free and session_remove_stream of mux.c) in a sound session.
use yamux.Common.{ℕ, ◌≡◌, ◌≢◌, refl, none, some, arith}
use yamux.Bio.{Buffer}
use yamux.Os.{Os}
use yamux.Stailq.{Stailq}
use yamux.Tree.{Tree}
use yamux.State.{Stream, Sys, update}
use yamux.State.Rules.{Returns}
use yamux.State.Calm.{SameInput}
use yamux.Sound.{IsSound}
use yamux.Streams.{stream_free, session_remove_stream}

module _ {W Q T : Type 0} ⦃os : Os W⦄ ⦃sq : Stailq Buffer Q⦄ ⦃tr : Tree T⦄ (id p : ℕ)
    (s : Sys W Q T) (v : IsSound s) (e : tr.find id s.session.streams ≡ some p) where
  -- The state after the stream is freed.
  freed : Stream Q → Sys W Q T
  freed x = record s {
    heap = update s.heap p none;
    session = record s.session { streams = tr.remove id p s.session.streams };
    world = os.close x.private_fd (os.close x.fd s.world);
  }

  stream_free_eq :
      (x : Stream Q) → s.heap p ≡ some x → x.id ≡ id → stream_free p s ≡ some (tt, freed x)
  unfolding stream_free session_remove_stream freed
  stream_free_eq x ex ix = ground arith

  find-freed :
      (x : Stream Q) (j q : ℕ)
      → tr.find j (freed x).session.streams ≡ some q
      → (j ≢ id) × (tr.find j s.session.streams ≡ some q)
  unfolding freed
  find-freed x j q f = ground (arith, tr.find-remove j id p s.session.streams e)

  heap-freed : (x y : Stream Q) (q : ℕ) → (freed x).heap q ≡ some y → (q ≢ p) × (s.heap q ≡ some y)
  unfolding freed
  heap-freed x y q f = ground arith

  found-freed :
      (x : Stream Q)
      → s.heap p ≡ some x
      → x.id ≡ id
      → (j q : ℕ) → tr.find j (freed x).session.streams ≡ some q
      → (y : Stream Q) × ((freed x).heap q ≡ some y) × (y.id ≡ j)
  unfolding freed
  found-freed x ex ix j q f =
      let (ne, f') = find-freed x j q f in let (y, ey, iy) = v.found j q f' in (y, ground arith, iy)

  freed-IsSound : (x : Stream Q) → s.heap p ≡ some x → x.id ≡ id → IsSound (freed x)
  unfolding freed
  freed-IsSound x ex ix = record {
    found = found-freed x ex ix;
    fresh = λ q le. ground (arith, v.fresh q);
    windowed = λ q y f. v.windowed q y (heap-freed x y q f).1;
    received = v.received;
    fits_int = v.fits_int;
    framed = v.framed;
    promised_frame =
        λ h q y f g. v.promised_frame h q y (find-freed x _ q f).1 (heap-freed x y q g).1;
  }

  -- In a sound session, freeing a stream that the tree finds returns, without the bad pointer that
  -- a missing one would be; the session stays sound, its input as it was, and the id is free.
  pub stream_free_lem :
      Returns
        (λ _ s'. IsSound s' × SameInput s s' × (tr.find id s'.session.streams ≡ none))
        (stream_free p s)
  stream_free_lem =
      let (x, ex, ix) = v.found id p e in
      rw (stream_free_eq x ex ix) (
        freed-IsSound x ex ix,
        (unfold freed in
            (record { recv_buf = refl; new_frame = refl; frame_remain = refl; hdr = refl })),
        unfold freed in ground (arith, tr.find-remove id id p s.session.streams e),
      )
