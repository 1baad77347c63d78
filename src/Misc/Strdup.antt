-- ===== src/Misc/Strdup.antt =====
-- xstrdup (misc.c) on every string.
use yamux.Common.{
  ℕ, suc, ◌+◌, ◌≡◌, sym, none, some, List, [], ◌∷◌, ◌++◌, arith, ap, inl, inr, ◌∙◌, if◌then◌else◌,
  length, length-append, append_assoc, Bool-cases, append-nil,
}
use yamux.Os.{Os, bytes_block}
use yamux.Misc.{count_loop, copy_loop, copy_counted, xstrdup}
use yamux.Misc.Basename.{IsText}

count_lem :
    (text tail : List ℕ) (n : ℕ)
    → IsText text
    → count_loop (text ++ 0 ∷ tail) n ≡ some (n + length text + 1)
unfolding count_loop
count_lem [] tail n t = ap some (omega arith)
count_lem (c ∷ text) tail n t = ground (arith, count_lem text tail (suc n) t.1)

copy_lem :
    (text tail out : List ℕ) → copy_loop (length text) (text ++ tail) out ≡ some (out ++ text)
unfolding copy_loop
copy_lem [] tail out = ap some (sym (append-nil out))
copy_lem (c ∷ text) tail out =
    copy_lem text tail (out ++ c ∷ []) ∙ ap some (append_assoc out (c ∷ []) text)

copied_lem :
    (text tail : List ℕ) → copy_loop (length text + 1) (text ++ 0 ∷ tail) [] ≡ some (text ++ 0 ∷ [])
copied_lem text tail =
    ap (λ n. copy_loop n (text ++ 0 ∷ tail) []) (sym (length-append text (0 ∷ [])))
    ∙ ap (λ str. copy_loop (length (text ++ 0 ∷ [])) str []) (sym (append_assoc text (0 ∷ []) tail))
    ∙ copy_lem (text ++ 0 ∷ []) tail []

module _ {W : Type 0} ⦃os : Os W⦄ where
  copy_counted_lem :
      (text tail : List ℕ) (w : W)
      → let (made, w') = os.malloc (bytes_block (length text + 1)) w in
        copy_counted (text ++ 0 ∷ tail) (some (length text + 1)) w
        ≡ some (if made then some (text ++ 0 ∷ []) else none, w')
  unfolding copy_counted
  copy_counted_lem text tail w = elim (Bool-cases (os.malloc (bytes_block (length text + 1)) w).0) [
    | inl e ↦ ground (arith, copied_lem text tail)
    | inr e ↦ ground (arith, copied_lem text tail)
  ]

  -- For a string with a terminator, xstrdup asks malloc for exactly its bytes and the terminator
  -- and returns a copy of those, or NULL if there is no memory; it reads nothing past the
  -- terminator.
  pub xstrdup_lem :
      (text tail : List ℕ) (w : W)
      → IsText text
      → let (made, w') = os.malloc (bytes_block (length text + 1)) w in
        xstrdup (some (text ++ 0 ∷ tail)) w
        ≡ some (if made then some (text ++ 0 ∷ []) else none, w')
  unfolding xstrdup
  xstrdup_lem text tail w t =
      ap (λ n. copy_counted (text ++ 0 ∷ tail) n w)
        (count_lem text tail 0 t ∙ ap some (omega arith))
      ∙ copy_counted_lem text tail w
