-- ===== src/Bio/Queue.antt =====
-- What bio.h promises, as a queue of bytes, and that bio.c keeps the promise call after call.
use yamux.Common.{
  ℕ, ◌+◌, ◌%◌, ◌^◌, ◌≤◌, ◌<◌, ◌≡◌, ap, subst, sym, ◌∙◌, true, List, [], ◌∷◌, ◌++◌, arith, inl, inr,
  take, drop, length, length-append, length-drop, length-take, min, int_of, minus_one, take_all,
}
use yamux.Os.{Os}
use yamux.Stailq.{Stailq}
use yamux.Bio.{
  Buffer, Bio, capacity, bio_write, bio_read, bio_consume, bio_peek, bio_reset, bio_pending,
}
use yamux.Bio.Contents.{contents, IsValid}
use yamux.Bio.Read.{bio_read_lem, bio_consume_lem, bio_peek_lem, bio_reset_lem, bio_pending_lem}
use yamux.Bio.Write.{bio_write_lem}

-- The calls on a queue.
pub data Call : Type 0 where
  writes : List ℕ → Call
  reads consumes peeks : ℕ → Call
  pendings resets : Call

-- What a call returns, and the bytes that it leaves in the caller's buffer.
pub record Reply : Type 0 where
  pub result : ℕ
  pub bytes : List ℕ

-- The queue as a list of bytes: each call with what it may reply and leave. A write may run out of
-- memory after whole buffers of its bytes.
pub data Meets : Call → List ℕ → Reply → List ℕ → Type 0 where
  written :
      (xs q : List ℕ)
      → Meets (writes xs) q (record { result = int_of (length xs); bytes = [] }) (q ++ xs)
  cut_short :
      (xs q : List ℕ) (k : ℕ)
      → k < length xs
      → k % capacity ≡ 0
      → Meets (writes xs) q (record { result = minus_one; bytes = [] }) (q ++ take k xs)
  read :
      (n : ℕ) (q : List ℕ)
      → Meets
          (reads n)
          q
          (record { result = int_of (min n (length q)); bytes = take n q })
          (drop n q)
  consumed :
      (n : ℕ) (q : List ℕ)
      → Meets (consumes n) q (record { result = int_of (min n (length q)); bytes = [] }) (drop n q)
  peeked :
      (n : ℕ) (q : List ℕ)
      → Meets (peeks n) q (record { result = int_of (min n (length q)); bytes = take n q }) q
  counted : (q : List ℕ) → Meets pendings q (record { result = int_of (length q); bytes = [] }) q
  cleared : (q : List ℕ) → Meets resets q (record { result = 0; bytes = [] }) []

-- A sequence of calls, each with its reply.
pub data Serves : List Call → List ℕ → List Reply → List ℕ → Type 0 where
  over : (q : List ℕ) → Serves [] q [] q
  then :
      {c : Call} {cs : List Call} {q q' q'' : List ℕ} {r : Reply} {rs : List Reply}
      → Meets c q r q'
      → Serves cs q' rs q''
      → Serves (c ∷ cs) q (r ∷ rs) q''

-- How many bytes the calls write.
abbrev pub written_by : List Call → ℕ
written_by [] = 0
written_by (writes xs ∷ cs) = length xs + written_by cs
written_by (_ ∷ cs) = written_by cs

written_by-cons :
    (c : Call) (cs : List Call) → written_by (c ∷ cs) ≡ written_by (c ∷ []) + written_by cs
written_by-cons (writes xs) cs = omega arith
written_by-cons (reads n) cs = omega arith
written_by-cons (consumes n) cs = omega arith
written_by-cons (peeks n) cs = omega arith
written_by-cons pendings cs = omega arith
written_by-cons resets cs = omega arith

module _ {Q : Type 0} ⦃sq : Stailq Buffer Q⦄ where
  -- A call keeps the promise, and the queue valid and no longer than what was written to it.
  record Keeps (c : Call) (b : Bio Q) (r : Reply) (b' : Bio Q) : Type 0 where
    meets : Meets c (contents b) r (contents b')
    valid : IsValid b'
    bounded : length (contents b') ≤ length (contents b) + written_by (c ∷ [])

module _ {W Q : Type 0} ⦃os : Os W⦄ ⦃sq : Stailq Buffer Q⦄ where
  -- A call of bio.c.
  pub perform : Call → Bio Q → W → Reply × Bio Q × W
  perform (writes xs) b w =
      let (r, b', w') = bio_write xs (length xs) b w in (record { result = r; bytes = [] }, b', w')
  perform (reads n) b w =
      let (r, out, b') = bio_read true n b in (record { result = r; bytes = out }, b', w)
  perform (consumes n) b w =
      let (r, b') = bio_consume n b in (record { result = r; bytes = [] }, b', w)
  perform (peeks n) b w = let (r, out) = bio_peek n b in (record { result = r; bytes = out }, b, w)
  perform pendings b w = (record { result = bio_pending b; bytes = [] }, b, w)
  perform resets b w = (record { result = 0; bytes = [] }, bio_reset b, w)

  pub perform_all : List Call → Bio Q → W → List Reply × Bio Q × W
  unfolding perform
  perform_all [] b w = ([], b, w)
  perform_all (c ∷ cs) b w =
      let (r, b', w') = perform c b w in
      let (rs, b'', w'') = perform_all cs b' w' in (r ∷ rs, b'', w'')

  perform_lem :
      (c : Call) (b : Bio Q) (w : W)
      → IsValid b
      → length (contents b) + written_by (c ∷ []) < 2 ^ 64
      → let (r, b', w') = perform c b w in Keeps c b r b'
  unfolding perform
  perform_lem (writes xs) b w v room =
      let (r, b', w') = bio_write xs (length xs) b w in
      let (k, le, app, v', how) = bio_write_lem xs (length xs) b w (omega arith) v (omega arith) in
      record {
        meets = elim how [
          | inl (e, all) ↦
              subst
                (λ z.
                  Meets (writes xs) (contents b) (record { result = z; bytes = [] }) (contents b'))
                (sym e)
                (subst
                  (λ q.
                    Meets (writes xs) (contents b)
                      (record { result = int_of (length xs); bytes = [] }) q)
                  (sym (app ∙ ap (λ ys. contents b ++ ys) (take_all k xs (omega arith))))
                  (written xs (contents b)))
          | inr (e, less, al) ↦
              subst
                (λ z.
                  Meets (writes xs) (contents b) (record { result = z; bytes = [] }) (contents b'))
                (sym e)
                (subst
                  (λ q.
                    Meets (writes xs) (contents b) (record { result = minus_one; bytes = [] }) q)
                  (sym app) (cut_short xs (contents b) k less al))
        ];
        valid = v';
        bounded = omega (
          arith,
          ap (length {A = ℕ}) app,
          length-append (contents b) (take k xs),
          length-take k xs,
        );
      }
  perform_lem (reads n) b w v room =
      let (e, out, rest, v') = bio_read_lem n b v in
      record {
        meets = rw (e, out, rest) (read n (contents b));
        valid = v';
        bounded = omega (arith, ap (length {A = ℕ}) rest, length-drop n (contents b));
      }
  perform_lem (consumes n) b w v room =
      let (e, rest, v') = bio_consume_lem n b v in
      record {
        meets = rw (e, rest) (consumed n (contents b));
        valid = v';
        bounded = omega (arith, ap (length {A = ℕ}) rest, length-drop n (contents b));
      }
  perform_lem (peeks n) b w v room = record {
    meets = rw (bio_peek_lem n b v) (peeked n (contents b));
    valid = v;
    bounded = omega arith;
  }
  perform_lem pendings b w v room = record {
    meets = rw (bio_pending_lem b v) (counted (contents b));
    valid = v;
    bounded = omega arith;
  }
  perform_lem resets b w v room =
      let (e, v') = bio_reset_lem b in
      record {
        meets = rw (e) (cleared (contents b));
        valid = v';
        bounded = omega (arith, ap (length {A = ℕ}) e);
      }

  -- Any sequence of calls on a valid queue, whose bytes and those that are written fit in the
  -- 64-bit count, is one of the abstract queue, a list of bytes: each write appends its bytes, or
  -- a first part of whole buffers of them with -1; each read and consume takes the first bytes
  -- away, each peek shows them, pending counts them and reset drops them; and the queue stays
  -- valid.
  pub perform_all-Serves :
      (cs : List Call) (b : Bio Q) (w : W)
      → IsValid b
      → length (contents b) + written_by cs < 2 ^ 64
      → let (rs, b', w') = perform_all cs b w in
        Serves cs (contents b) rs (contents b') × IsValid b'
  unfolding perform_all
  perform_all-Serves [] b w v room = (over (contents b), v)
  perform_all-Serves (c ∷ cs) b w v room =
      let (r, b', w') = perform c b w in
      let split = written_by-cons c cs in
      let h = perform_lem c b w v (omega (arith, split)) in
      let rest = perform_all-Serves cs b' w' h.valid (omega (arith, h.bounded, split)) in
      (then h.meets rest.0, rest.1)
