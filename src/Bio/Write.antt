-- ===== src/Bio/Write.antt =====
-- bio_write and bio_new (bio.c): what is queued, also when memory runs out on the way.
use yamux.Common.{
  ℕ, zero, suc, ◌+◌, ◌-◌, ◌^◌, ◌%◌, ◌≤◌, ◌<◌, ◌≡◌, ◌⊎◌, refl, ap, Bool, true, false, List, [], some,
  inl, inr, ◌++◌, arith, if◌then◌else◌, take, drop, length, length-append, length-drop, length-take,
  dec_lt, int_of, minus_one, drop-drop,
}
use yamux.Stailq.{Stailq}
use yamux.Os.{Os}
use yamux.Bio.{
  Buffer, Bio, capacity, min_of, buffer_new, push_buffer, write_loop, bio_write, bio_new, empty_bio,
}
use yamux.Bio.Contents.{contents, IsValid}
use yamux.Bio.Wrote.{
  buffer_new_lem, push_buffer_lem, Wrote, Wrote-nothing, Wrote-more, write_loop_done,
  write_loop_fail, write_loop_next,
}

module _ {W Q : Type 0} ⦃os : Os W⦄ ⦃sq : Stailq Buffer Q⦄ where
  write_loop_lem :
      (fuel : ℕ) (buf : List ℕ) (pos n : ℕ) (b : Bio Q) (w : W)
      → n - pos ≤ fuel
      → n ≤ length buf
      → IsValid b
      → length (contents b) + (n - pos) < 2 ^ 64
      → let (done, b', w') = write_loop fuel buf pos n b w in
        Wrote (drop pos buf) (n - pos) b done b'
  write_loop_lem zero buf pos n b w enough long v room =
      rw (write_loop_done zero buf pos n b w (omega arith))
        (Wrote-nothing (drop pos buf) (n - pos) b true v (λ _. omega arith) (λ p. ground arith))
  write_loop_lem (suc fuel) buf pos n b w enough long v room = elim (dec_lt pos n) [
    | no over ↦
        rw (write_loop_done (suc fuel) buf pos n b w (omega arith))
          (Wrote-nothing (drop pos buf) (n - pos) b true v (λ _. omega arith) (λ p. ground arith))
    | yes more ↦ elim (buffer_new_lem (drop pos buf) (min_of capacity (n - pos)) w) [
      | inl e ↦
          rw (write_loop_fail fuel buf pos n b w more e) (
            Wrote-nothing (drop pos buf) (n - pos) b false v (λ p. ground arith) (λ _. omega arith))
      | inr e ↦
          let size = min_of capacity (n - pos) in
          let source = drop pos buf in
          let buffer : Buffer = record { len = size; bytes = take size source } in
          let w' = (buffer_new source size w).1 in
          let bounds : (0 < size) × (size ≤ capacity) × (size ≤ n - pos) = ground arith in
          let enough_source : size ≤ length source = omega (arith, length-drop pos buf, bounds) in
          let pushed =
            push_buffer_lem source size b v bounds.0 bounds.1 enough_source
              (omega (arith, bounds)) in
          let b' = push_buffer buffer size b in
          let left : n - (pos + size) ≡ n - pos - size = omega arith in
          let longer : length (contents b') ≡ length (contents b) + size = omega (
            arith,
            ap (length {A = ℕ}) pushed.0,
            length-append (contents b) (take size source),
            length-take size source,
            enough_source,
          ) in
          let rest =
            write_loop_lem fuel buf (pos + size) n b' w' (omega (arith, bounds)) long pushed.1
              (omega (arith, bounds, longer)) in
          rw (write_loop_next fuel buf pos n b w buffer more e) (
            Wrote-more source size (n - pos) b b' _ _ pushed.0 bounds.2 (λ short. ground arith)
              (rw (drop-drop size pos buf, ← left) rest))
    ]
  ]

  -- On a valid queue with room in its 64-bit count, a write returns the count it was given or -1.
  -- It appends a first part of the bytes, all of them if it returns the count, and keeps the queue
  -- valid; what it queued before memory ran out stays queued, and is whole buffers.
  pub bio_write_lem :
      (buf : List ℕ) (n : ℕ) (b : Bio Q) (w : W)
      → n ≤ length buf
      → IsValid b
      → length (contents b) + n < 2 ^ 64
      → let (r, b', w') = bio_write buf n b w in
        (k : ℕ) × (k ≤ n)
        × (contents b' ≡ contents b ++ take k buf)
        × IsValid b'
        × ((r ≡ int_of n) × (k ≡ n) ⊎ (r ≡ minus_one) × (k < n) × (k % capacity ≡ 0))
  unfolding bio_write
  bio_write_lem buf n b w has v room =
      let h = write_loop_lem n buf 0 n b w (omega arith) (omega arith) v (omega arith) in
      (h.count, omega (arith, h.within), h.appended, h.valid, end h)
    where
      end :
          {s : List ℕ} {done : Bool} {b' : Bio Q} (h : Wrote s (n - 0) b done b')
          → ((if done then int_of n else minus_one) ≡ int_of n) × (h.count ≡ n)
            ⊎ ((if done then int_of n else minus_one) ≡ minus_one)
              × (h.count < n)
              × (h.count % capacity ≡ 0)
      end {done = true} h = inl (refl, omega (arith, h.whole refl))
      end {done = false} h = inr (refl, omega (arith, h.partial refl), h.aligned refl)

module _ {Q : Type 0} ⦃sq : Stailq Buffer Q⦄ where
  empty_bio_lem : (contents {Q = Q} empty_bio ≡ []) × IsValid {Q = Q} empty_bio
  unfolding empty_bio
  empty_bio_lem = rw sq.elements-init (
    refl,
    record {
      queued = rw sq.elements-init refl;
      counted = rw sq.elements-init refl;
      fits = omega arith;
    },
  )

module _ {W Q : Type 0} ⦃os : Os W⦄ ⦃sq : Stailq Buffer Q⦄ where
  -- A new queue is valid and holds nothing.
  pub bio_new_lem : (w : W) (b : Bio Q) → (bio_new w).0 ≡ some b → (contents b ≡ []) × IsValid b
  unfolding bio_new
  bio_new_lem w b e = let same : empty_bio ≡ b = ground arith in rw (← same) empty_bio_lem
