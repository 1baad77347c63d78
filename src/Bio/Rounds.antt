-- ===== src/Bio/Rounds.antt =====
-- The rounds of the loop of bio_read, bio_peek and bio_consume (bio.c).
use yamux.Common.{
  ℕ, zero, suc, ◌+◌, ◌-◌, ◌≤◌, ◌<◌, ◌≡◌, refl, ap, sym, ◌∙◌, Bool, List, [], ◌∷◌, ◌++◌, append-nil,
  append_assoc, arith, if◌then◌else◌, take, drop, length, length-append, length-drop, min,
  drop-append_le, drop-append_ge, take-append_le, take-append_ge, take_all, drop-drop, lt→ltb,
  le→ltb, sub64,
}
use yamux.Stailq.{Stailq}
use yamux.Bio.{Buffer, Cursor, capacity, read_step, read_loop}
use yamux.Bio.Contents.{flat, IsQueued, drop-flat}

-- How many bytes of the first buffer a round copies.
pub left_lem : (len offset : ℕ) → offset < len → len ≤ capacity → sub64 len offset ≡ len - offset
left_lem len offset h cap = omega arith

-- Copying a whole list and then some of the next is copying that much of the two.
take_whole :
    (out ys zs : List ℕ) (k m m' : ℕ)
    → length ys ≡ k
    → k + m' ≡ m
    → (out ++ take k ys) ++ take m' zs ≡ out ++ take m (ys ++ zs)
take_whole out ys zs k m m' el em =
    let e : m - length ys ≡ m' = omega arith in
    rw (take_all k ys (omega arith), take-append_ge m ys zs (omega arith), e)
      (append_assoc out ys (take m' zs))

drop_whole :
    (ys zs : List ℕ) (k m m' : ℕ) → length ys ≡ k → k + m' ≡ m → drop m' zs ≡ drop m (ys ++ zs)
drop_whole ys zs k m m' el em =
    let e : m - length ys ≡ m' = omega arith in rw (drop-append_ge m ys zs (omega arith), e) refl

module _ {Q : Type 0} ⦃sq : Stailq Buffer Q⦄ where
  -- The bytes that a cursor has not passed.
  abbrev pub ahead : Cursor Q → List ℕ
  ahead c = drop c.offset (flat (sq.elements c.buffers))

  -- A round that copies part of the first buffer.
  pub read_step_part :
      (wanted : Bool) (n : ℕ) (b : Buffer) (c : Cursor Q)
      → c.offset < b.len
      → b.len ≤ capacity
      → c.nread < n
      → n - c.nread < b.len - c.offset
      → read_step wanted n b c ≡ record {
        buffers = c.buffers;
        offset = c.offset + (n - c.nread);
        nread = n;
        out = if wanted then c.out ++ take (n - c.nread) (drop c.offset b.bytes) else c.out;
      }
  unfolding read_step
  read_step_part wanted n b c off cap more short = ground arith

  -- A round that copies the rest of the first buffer.
  pub read_step_all :
      (wanted : Bool) (n : ℕ) (b : Buffer) (c : Cursor Q)
      → c.offset < b.len
      → b.len ≤ capacity
      → b.len - c.offset ≤ n - c.nread
      → read_step wanted n b c ≡ record {
        buffers = sq.remove_head c.buffers;
        offset = 0;
        nread = c.nread + (b.len - c.offset);
        out = if wanted then c.out ++ take (b.len - c.offset) (drop c.offset b.bytes) else c.out;
      }
  unfolding read_step
  read_step_all wanted n b c off cap enough = ground arith

  pub read_loop_done :
      (fuel : ℕ) (wanted : Bool) (n : ℕ) (c : Cursor Q)
      → n ≤ c.nread
      → read_loop fuel wanted n c ≡ c
  unfolding read_loop
  read_loop_done zero wanted n c h = refl
  read_loop_done (suc fuel) wanted n c h = ground (arith, le→ltb c.nread n)

  pub read_loop_empty :
      (fuel : ℕ) (wanted : Bool) (n : ℕ) (c : Cursor Q)
      → sq.elements c.buffers ≡ []
      → read_loop fuel wanted n c ≡ c
  unfolding read_loop
  read_loop_empty zero wanted n c e = refl
  read_loop_empty (suc fuel) wanted n c e = ground (arith, sq.first_lem c.buffers)

  pub read_loop_more :
      (fuel : ℕ) (wanted : Bool) (n : ℕ) (c : Cursor Q) (b : Buffer) (bs : List Buffer)
      → sq.elements c.buffers ≡ b ∷ bs
      → c.nread < n
      → read_loop (suc fuel) wanted n c ≡ read_loop fuel wanted n (read_step wanted n b c)
  unfolding read_loop
  read_loop_more fuel wanted n c b bs e h =
      ground (arith, sq.first_lem c.buffers, lt→ltb c.nread n h)

  -- What the loop has done when it stops at `r`, from `c` with the bytes `xs` ahead of it.
  pub record Reads (wanted : Bool) (n : ℕ) (c : Cursor Q) (xs : List ℕ) (r : Cursor Q)
      : Type 0 where
    pub count : r.nread ≡ c.nread + min (n - c.nread) (length xs)
    pub copied : r.out ≡ (if wanted then c.out ++ take (n - c.nread) xs else c.out)
    pub rest : ahead r ≡ drop (n - c.nread) xs
    pub queued : IsQueued r.offset (sq.elements r.buffers)

  -- A loop that does nothing, because there is nothing to read or nothing is wanted.
  pub Reads-done :
      (wanted : Bool) (n : ℕ) (c : Cursor Q)
      → n ≤ c.nread
      → IsQueued c.offset (sq.elements c.buffers)
      → Reads wanted n c (ahead c) c
  Reads-done wanted n c h q =
      let e : n - c.nread ≡ 0 = omega arith in
      record {
        count = omega arith;
        copied = rw e (ground (arith, append-nil c.out));
        rest = rw e refl;
        queued = q;
      }

  ahead-cons :
      (b : Buffer) (bs : List Buffer) (c : Cursor Q)
      → sq.elements c.buffers ≡ b ∷ bs
      → IsQueued c.offset (b ∷ bs)
      → ahead c ≡ drop c.offset b.bytes ++ flat bs
  ahead-cons b bs c e q = rw e (drop-flat c.offset b bs q)

  -- The round that empties the first buffer, and the loop after it.
  pub Reads-all :
      (wanted : Bool) (n : ℕ) (b : Buffer) (bs : List Buffer) (c r : Cursor Q)
      → sq.elements c.buffers ≡ b ∷ bs
      → IsQueued c.offset (b ∷ bs)
      → c.nread ≤ n
      → b.len - c.offset ≤ n - c.nread
      → Reads wanted n (read_step wanted n b c) (flat bs) r
      → Reads wanted n c (ahead c) r
  Reads-all wanted n b bs c r e q more enough h =
      rw (ahead-cons b bs c e q) (go (rw (read_step_all wanted n b c q.0 q.2 enough) at h))
    where
      ys : List ℕ
      ys = drop c.offset b.bytes

      k : ℕ
      k = b.len - c.offset

      after : Cursor Q
      after = record {
        buffers = sq.remove_head c.buffers;
        offset = 0;
        nread = c.nread + k;
        out = if wanted then c.out ++ take k ys else c.out;
      }

      long : length ys ≡ k
      long = omega (arith, length-drop c.offset b.bytes)

      go : Reads wanted n after (flat bs) r → Reads wanted n c (ys ++ flat bs) r
      go h' = record {
        count = omega (arith, h'.count, length-append ys (flat bs), long);
        copied = ground (
          arith,
          h'.copied,
          take_whole c.out ys (flat bs) k (n - c.nread) (n - (c.nread + k)) long (omega arith),
        );
        rest =
            h'.rest
            ∙ drop_whole ys (flat bs) k (n - c.nread) (n - (c.nread + k)) long (omega arith);
        queued = h'.queued;
      }

  -- The round that stops inside the first buffer.
  pub Reads-part :
      (wanted : Bool) (n : ℕ) (b : Buffer) (bs : List Buffer) (c : Cursor Q)
      → sq.elements c.buffers ≡ b ∷ bs
      → IsQueued c.offset (b ∷ bs)
      → c.nread < n
      → n - c.nread < b.len - c.offset
      → Reads wanted n c (ahead c) (read_step wanted n b c)
  Reads-part wanted n b bs c e q more short =
      rw (ahead-cons b bs c e q, read_step_part wanted n b c q.0 q.2 more short)
        (record {
          count = omega (arith, long, length-append ys (flat bs));
          copied = ground (arith, take-append_le (n - c.nread) ys (flat bs) (omega (arith, long)));
          rest = rw e (
              rw (drop-flat (c.offset + (n - c.nread)) b bs (omega arith, q.1, q.2, q.3)) (
                rw (drop-append_le (n - c.nread) ys (flat bs) (omega (arith, long)))
                  (ap (λ t. t ++ flat bs) (sym (drop-drop (n - c.nread) c.offset b.bytes)))));
          queued = rw e (omega arith, q.1, q.2, q.3);
        })
    where
      ys : List ℕ
      ys = drop c.offset b.bytes

      long : length ys ≡ b.len - c.offset
      long = omega (arith, length-drop c.offset b.bytes)
