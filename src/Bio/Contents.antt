-- ===== src/Bio/Contents.antt =====
-- The view of a byte queue (bio.c) as the list of the bytes that it holds, and its invariant.
use yamux.Common.{
  ℕ, ◌^◌, ◌≤◌, ◌<◌, ◌≡◌, refl, ap, sym, ◌∙◌, List, [], ◌∷◌, ◌++◌, append_assoc, arith, drop, length,
  length-append, drop-append_le,
}
use yamux.Stailq.{Stailq}
use yamux.Bio.{Buffer, Bio, capacity}

-- The bytes of a list of buffers.
abbrev pub flat : List Buffer → List ℕ
flat [] = []
flat (b ∷ bs) = b.bytes ++ flat bs

-- Every buffer is as long as it says and not longer than its capacity, none is spent, and the
-- offset lies in the first one.
abbrev pub IsQueued : ℕ → List Buffer → Type 0
IsQueued offset [] = offset ≡ 0
IsQueued offset (b ∷ bs) =
    (offset < b.len) × (b.len ≡ length b.bytes) × (b.len ≤ capacity) × IsQueued 0 bs

module _ {Q : Type 0} ⦃sq : Stailq Buffer Q⦄ where
  -- The bytes that wait to be read.
  abbrev pub contents : Bio Q → List ℕ
  contents b = drop b.offset (flat (sq.elements b.buffers))

  -- `counted` holds while the count fits in a size_t.
  pub record IsValid (b : Bio Q) : Type 0 where
    pub queued : IsQueued b.offset (sq.elements b.buffers)
    pub counted : b.len ≡ length (contents b)
    pub fits : b.len < 2 ^ 64

pub flat-append : (xs ys : List Buffer) → flat (xs ++ ys) ≡ flat xs ++ flat ys
flat-append [] ys = refl
flat-append (x ∷ xs) ys =
    ap (λ t. x.bytes ++ t) (flat-append xs ys) ∙ sym (append_assoc x.bytes (flat xs) (flat ys))

-- The offset cuts the first buffer only.
pub drop-flat :
    (offset : ℕ) (b : Buffer) (bs : List Buffer)
    → IsQueued offset (b ∷ bs)
    → drop offset (flat (b ∷ bs)) ≡ drop offset b.bytes ++ flat bs
drop-flat offset b bs h = drop-append_le offset b.bytes (flat bs) (omega arith)

-- A buffer at the tail keeps the shape.
pub IsQueued-append :
    (offset : ℕ) (bs : List Buffer) (b : Buffer)
    → IsQueued offset bs
    → 0 < b.len
    → b.len ≡ length b.bytes
    → b.len ≤ capacity
    → IsQueued offset (bs ++ b ∷ [])
IsQueued-append offset [] b h pos full cap = (omega arith, full, cap, refl)
IsQueued-append offset (a ∷ bs) b h pos full cap =
    (h.0, h.1, h.2, IsQueued-append 0 bs b h.3 pos full cap)

pub offset-le-flat :
    (offset : ℕ) (bs : List Buffer) → IsQueued offset bs → offset ≤ length (flat bs)
offset-le-flat offset [] h = omega arith
offset-le-flat offset (b ∷ bs) h = omega (arith, length-append b.bytes (flat bs))
