-- ===== src/Bio/Wrote.antt =====
-- A write to the queue of bio.c: its rounds.
use yamux.Common.{
  ℕ, zero, suc, ◌+◌, ◌-◌, ◌^◌, ◌%◌, ◌≤◌, ◌<◌, ◌≡◌, ◌⊎◌, refl, ap, sym, ◌∙◌, Bool, true, false, List,
  [], ◌∷◌, some, none, ◌++◌, append-nil, append_assoc, arith, take, drop, length, length-append,
  length-take, take_split, lt→ltb, le→ltb, drop-append_le,
}
use yamux.Stailq.{Stailq}
use yamux.Os.{Os}
use yamux.Bio.{Buffer, Bio, capacity, min_of, buffer_new, push_buffer, write_loop}
use yamux.Bio.Contents.{flat, flat-append, IsQueued-append, offset-le-flat, contents, IsValid}

more_whole : (size k : ℕ) → k % capacity ≡ 0 → size ≡ capacity → (size + k) % capacity ≡ 0
more_whole size k p q = omega (arith, p, q)

module _ {W : Type 0} ⦃os : Os W⦄ where
  -- A new buffer holds a copy of the bytes, or there is none.
  pub buffer_new_lem :
      (source : List ℕ) (len : ℕ) (w : W)
      → ((buffer_new source len w).0 ≡ none)
        ⊎ ((buffer_new source len w).0 ≡ some (record { len = len; bytes = take len source }))
  unfolding buffer_new
  buffer_new_lem source len w = ground arith

module _ {Q : Type 0} ⦃sq : Stailq Buffer Q⦄ where
  -- A full buffer at the tail appends its bytes.
  pub push_buffer_lem :
      (source : List ℕ) (size : ℕ) (b : Bio Q)
      → IsValid b
      → 0 < size
      → size ≤ capacity
      → size ≤ length source
      → length (contents b) + size < 2 ^ 64
      → let b' = push_buffer (record { len = size; bytes = take size source }) size b in
        (contents b' ≡ contents b ++ take size source) × IsValid b'
  unfolding push_buffer
  push_buffer_lem source size b v pos cap enough room = (
    appended,
    record {
      queued = rw e (IsQueued-append b.offset es buffer v.queued pos (omega (arith, full)) cap);
      counted = omega (
        arith,
        v.counted,
        ap (length {A = ℕ}) appended,
        full,
        length-append (contents b) (take size source),
      );
      fits = omega arith;
    },
  )
    where
      es : List Buffer
      es = sq.elements b.buffers

      buffer : Buffer
      buffer = record { len = size; bytes = take size source }

      full : length (take size source) ≡ size
      full = omega (arith, length-take size source)

      e : sq.elements (sq.insert_tail buffer b.buffers) ≡ es ++ buffer ∷ []
      e = sq.elements-insert_tail buffer b.buffers

      appended : contents (push_buffer buffer size b) ≡ contents b ++ take size source
      appended =
          rw (e, flat-append es (buffer ∷ []), append-nil (take size source))
            (drop-append_le b.offset (flat es) (take size source)
              (offset-le-flat b.offset es v.queued))

  -- What a write of m bytes has done to the queue `b`.
  pub record Wrote (source : List ℕ) (m : ℕ) (b : Bio Q) (done : Bool) (b' : Bio Q) : Type 0 where
    pub count : ℕ
    pub within : count ≤ m
    pub whole : done ≡ true → count ≡ m
    pub partial : done ≡ false → count < m
    pub aligned : done ≡ false → count % capacity ≡ 0
    pub appended : contents b' ≡ contents b ++ take count source
    pub valid : IsValid b'

  pub Wrote-nothing :
      (source : List ℕ) (m : ℕ) (b : Bio Q) (done : Bool)
      → IsValid b
      → (done ≡ true → 0 ≡ m)
      → (done ≡ false → 0 < m)
      → Wrote source m b done b
  Wrote-nothing source m b done v all left = record {
    count = 0;
    within = omega arith;
    whole = all;
    partial = left;
    aligned = λ _. refl;
    appended = sym (append-nil (contents b));
    valid = v;
  }

  -- One buffer more, and then what the rest of the loop writes.
  pub Wrote-more :
      (source : List ℕ) (size m : ℕ) (b b' b'' : Bio Q) (done : Bool)
      → contents b' ≡ contents b ++ take size source
      → size ≤ m
      → (size < m → size ≡ capacity)
      → Wrote (drop size source) (m - size) b' done b''
      → Wrote source m b done b''
  Wrote-more source size m b b' b'' done e le full h = record {
    count = size + h.count;
    within = omega (arith, h.within);
    whole = λ p. omega (arith, h.whole p);
    partial = λ p. omega (arith, h.partial p);
    aligned = λ p. more_whole size h.count (h.aligned p) (full (omega (arith, h.partial p)));
    appended =
        h.appended
        ∙ ap (λ xs. xs ++ take h.count (drop size source)) e
        ∙ append_assoc (contents b) (take size source) (take h.count (drop size source))
        ∙ ap (λ xs. contents b ++ xs) (take_split size h.count source);
    valid = h.valid;
  }

module _ {W Q : Type 0} ⦃os : Os W⦄ ⦃sq : Stailq Buffer Q⦄ where
  pub write_loop_done :
      (fuel : ℕ) (buf : List ℕ) (pos n : ℕ) (b : Bio Q) (w : W)
      → n ≤ pos
      → write_loop fuel buf pos n b w ≡ (true, b, w)
  unfolding write_loop
  write_loop_done zero buf pos n b w h = refl
  write_loop_done (suc fuel) buf pos n b w h = ground (arith, le→ltb pos n)

  pub write_loop_fail :
      (fuel : ℕ) (buf : List ℕ) (pos n : ℕ) (b : Bio Q) (w : W)
      → pos < n
      → let (made, w') = buffer_new (drop pos buf) (min_of capacity (n - pos)) w in
        made ≡ none → write_loop (suc fuel) buf pos n b w ≡ (false, b, w')
  unfolding write_loop
  write_loop_fail fuel buf pos n b w h e = ground (arith, lt→ltb pos n h)

  pub write_loop_next :
      (fuel : ℕ) (buf : List ℕ) (pos n : ℕ) (b : Bio Q) (w : W) (buffer : Buffer)
      → pos < n
      → let size = min_of capacity (n - pos) in
        let (made, w') = buffer_new (drop pos buf) size w in
        made ≡ some buffer
        → write_loop (suc fuel) buf pos n b w
          ≡ write_loop fuel buf (pos + size) n (push_buffer buffer size b) w'
  unfolding write_loop
  write_loop_next fuel buf pos n b w buffer h e = ground (arith, lt→ltb pos n h)
