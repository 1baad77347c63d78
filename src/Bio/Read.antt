-- ===== src/Bio/Read.antt =====
-- bio_read, bio_consume, bio_peek and bio_reset (bio.c) against the bytes that wait.
use yamux.Common.{
  ℕ, zero, suc, ◌+◌, ◌-◌, ◌≤◌, ◌≡◌, refl, ap, sym, ◌∙◌, Bool, true, false, List, [], ◌∷◌, ◌++◌,
  append-nil, append_assoc, arith, ltb, if◌then◌else◌, take, drop, length, length-append,
  length-drop, min, take-append, take-nil, take_all, dec_lt, int_of,
}
use yamux.Stailq.{Stailq}
use yamux.Bio.{
  Buffer, Bio, Cursor, read_cursor, bio_read, bio_consume, bio_peek, peek_loop, bio_reset,
  reset_loop, bio_pending,
}
use yamux.Bio.Contents.{flat, IsQueued, contents, IsValid, drop-flat}
use yamux.Bio.Rounds.{ahead, left_lem}
use yamux.Bio.Loop.{read_loop-Reads}

module _ {Q : Type 0} ⦃sq : Stailq Buffer Q⦄ where
  abbrev start : Bio Q → Cursor Q
  start b = record { buffers = b.buffers; offset = b.offset; nread = 0; out = [] }

  -- The cursor of a read of n bytes, when its loop has stopped.
  read_cursor_lem :
      (wanted : Bool) (n : ℕ) (b : Bio Q)
      → IsValid b
      → let c = read_cursor wanted n b in
        (c.nread ≡ min n (length (contents b)))
        × (c.out ≡ (if wanted then take n (contents b) else []))
        × (ahead c ≡ drop n (contents b))
        × IsQueued c.offset (sq.elements c.buffers)
  unfolding read_cursor
  read_cursor_lem wanted n b v =
      let h =
        read_loop-Reads (length (sq.elements b.buffers)) wanted n (sq.elements b.buffers) (start b)
          refl (omega arith) (omega arith) v.queued in
      let e : n - 0 ≡ n = omega arith in
      (omega (arith, h.count), rw e at h.copied, rw e at h.rest, h.queued)

  read-IsValid : (wanted : Bool) (n : ℕ) (b : Bio Q) → IsValid b → IsValid (bio_read wanted n b).2
  unfolding bio_read
  read-IsValid wanted n b v =
      let (count, out, rest, queued) = read_cursor_lem wanted n b v in
      record {
        queued = queued;
        counted =
            omega (
              arith,
              count,
              v.counted,
              v.fits,
              ap (length {A = ℕ}) rest,
              length-drop n (contents b),
            );
        fits = omega arith;
      }

  -- On a valid queue a read returns how many bytes it took, gives the first n bytes that wait (all
  -- of them if there are fewer), takes exactly those away and keeps the queue valid.
  pub bio_read_lem :
      (n : ℕ) (b : Bio Q)
      → IsValid b
      → let (r, out, b') = bio_read true n b in
        (r ≡ int_of (min n (length (contents b))))
        × (out ≡ take n (contents b))
        × (contents b' ≡ drop n (contents b))
        × IsValid b'
  unfolding bio_read
  bio_read_lem n b v =
      let (count, out, rest, queued) = read_cursor_lem true n b v in
      (ap int_of count, out, rest, read-IsValid true n b v)

  -- On a valid queue a consume returns the count that a read would, takes away as many bytes and
  -- keeps the queue valid.
  pub bio_consume_lem :
      (n : ℕ) (b : Bio Q)
      → IsValid b
      → let (r, b') = bio_consume n b in
        (r ≡ int_of (min n (length (contents b))))
        × (contents b' ≡ drop n (contents b))
        × IsValid b'
  unfolding bio_consume
  bio_consume_lem n b v =
      let (count, out, rest, queued) = read_cursor_lem false n b v in
      (ap int_of count, rest, read-IsValid false n b v)

  reset_loop_lem :
      (fuel : ℕ) (bs : List Buffer) (q : Q)
      → sq.elements q ≡ bs
      → length bs ≤ fuel
      → sq.elements (reset_loop fuel q) ≡ []
  unfolding reset_loop
  reset_loop_lem zero [] q e h = e
  reset_loop_lem zero (b ∷ bs) q e h = absurd (omega arith)
  reset_loop_lem (suc fuel) [] q e h = ground (arith, sq.first_lem q)
  reset_loop_lem (suc fuel) (b ∷ bs) q e h =
      ground (
        arith,
        sq.first_lem q,
        sq.elements-remove_head q,
        reset_loop_lem fuel bs (sq.remove_head q),
      )

  -- A reset leaves a valid queue with nothing in it, whatever was there.
  pub bio_reset_lem : (b : Bio Q) → (contents (bio_reset b) ≡ []) × IsValid (bio_reset b)
  unfolding bio_reset
  bio_reset_lem b =
      let e =
        reset_loop_lem (length (sq.elements b.buffers)) (sq.elements b.buffers) b.buffers refl
          (omega arith) in
      (rw e refl, record { queued = rw e refl; counted = rw e refl; fits = omega arith })

-- The sizes that the rounds of bio_peek choose.
peek_size :
    (left more : ℕ) (ys : List ℕ)
    → length ys ≡ left
    → take (if ltb left more then left else more) ys ≡ take more ys
peek_size left more ys e = elim (dec_lt left more) [
  | yes p ↦ ground (arith, take_all left ys, take_all more ys)
  | no p ↦ ground arith
]

-- The loop of bio_peek copies what a read would, and moves nothing.
pub peek_loop_lem :
    (bs : List Buffer) (n nread offset : ℕ) (out : List ℕ)
    → IsQueued offset bs
    → nread ≤ n
    → peek_loop bs n nread offset out ≡ (
      nread + min (n - nread) (length (drop offset (flat bs))),
      out ++ take (n - nread) (drop offset (flat bs)),
    )
unfolding peek_loop
peek_loop_lem [] n nread offset out q le =
    rw (q, take-nil {A = ℕ} (n - nread), append-nil out)
      (ap (λ k. (k, out)) (let e : nread ≡ nread + min (n - nread) 0 = omega arith in e))
peek_loop_lem (b ∷ bs) n nread offset out q le =
    rw (drop-flat offset b bs q, left_lem b.len offset q.0 q.2)
      (peek_loop_lem bs n (nread + size) 0 (out ++ take size ys) q.3 (ground arith)
        ∙ pair counts copies)
  where
    ys : List ℕ
    ys = drop offset b.bytes

    left : ℕ
    left = b.len - offset

    long : length ys ≡ left
    long = omega (arith, length-drop offset b.bytes)

    size : ℕ
    size = if ltb left (n - nread) then left else n - nread

    pair : {a a' : ℕ} {x x' : List ℕ} → a ≡ a' → x ≡ x' → ◌≡◌ {A = ℕ × List ℕ} (a, x) (a', x')
    pair e e' = λ i. (e i, e' i)

    counts :
        nread + size + min (n - (nread + size)) (length (flat bs))
        ≡ nread + min (n - nread) (length (ys ++ flat bs))
    counts = ground (arith, length-append ys (flat bs), long)

    left_over : n - (nread + size) ≡ n - nread - left
    left_over = ground arith

    copies :
        (out ++ take size ys) ++ take (n - (nread + size)) (flat bs)
        ≡ out ++ take (n - nread) (ys ++ flat bs)
    copies =
        rw (take-append (n - nread) ys (flat bs), long, peek_size left (n - nread) ys long)
          (append_assoc out (take (n - nread) ys) (take (n - (nread + size)) (flat bs))
            ∙ ap (λ k. out ++ (take (n - nread) ys ++ take k (flat bs))) left_over)

module _ {Q : Type 0} ⦃sq : Stailq Buffer Q⦄ where
  -- On a valid queue a peek gives the first n bytes that wait, and their number as an int.
  pub bio_peek_lem :
      (n : ℕ) (b : Bio Q)
      → IsValid b
      → bio_peek n b ≡ (int_of (min n (length (contents b))), take n (contents b))
  unfolding bio_peek
  bio_peek_lem n b v =
      let e : n - 0 ≡ n = omega arith in
      rw (peek_loop_lem (sq.elements b.buffers) n 0 b.offset [] v.queued (omega arith), e)
        (ap (λ k. (int_of k, take n (contents b))) (omega arith))

  -- On a valid queue bio_peek returns the count and the bytes that bio_read of as many would.
  pub bio_peek-bio_read :
      (n : ℕ) (b : Bio Q)
      → IsValid b
      → let (r, out, b') = bio_read true n b in bio_peek n b ≡ (r, out)
  bio_peek-bio_read n b v =
      let (count, out, _, _) = bio_read_lem n b v in
      bio_peek_lem n b v ∙ (λ i. (sym count i, sym out i))

  -- On a valid queue the pending count is the number of bytes that wait, as an int.
  pub bio_pending_lem : (b : Bio Q) → IsValid b → bio_pending b ≡ int_of (length (contents b))
  unfolding bio_pending
  bio_pending_lem b v = ap int_of v.counted
