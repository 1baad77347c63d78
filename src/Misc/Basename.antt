-- ===== src/Misc/Basename.antt =====
-- xbasename (misc.c) on every string.
use yamux.Common.{
  ℕ, ◌≡◌, ◌≢◌, refl, Option, none, some, List, [], ◌∷◌, ◌++◌, arith, All, ◌==◌, if◌then◌else◌,
}
use yamux.Misc.{slash, basename_loop, xbasename}

-- The characters of a C string, without the one that ends it.
abbrev pub IsText : List ℕ → Type 0
IsText = All (λ c. c ≢ 0)

abbrev pub NoSlash : List ℕ → Type 0
NoSlash = All (λ c. c ≢ slash)

base_step :
    (c : ℕ) (text tail : List ℕ) (s : Option (List ℕ))
    → c ≢ 0
    → basename_loop (c ∷ text ++ 0 ∷ tail) s
      ≡ basename_loop (text ++ 0 ∷ tail) (if c == slash then some (text ++ 0 ∷ tail) else s)
unfolding basename_loop
base_step c text tail s n = ground arith

-- Without a slash the loop keeps what it has.
base_keeps :
    (text tail : List ℕ) (s : Option (List ℕ))
    → IsText text
    → NoSlash text
    → basename_loop (text ++ 0 ∷ tail) s ≡ some s
unfolding basename_loop
base_keeps [] tail s t n = refl
base_keeps (c ∷ text) tail s t n = ground (arith, base_keeps text tail s t.1 n.1)

base_after :
    (dir base tail : List ℕ) (s : Option (List ℕ))
    → IsText dir
    → IsText base
    → NoSlash base
    → basename_loop (dir ++ slash ∷ base ++ 0 ∷ tail) s ≡ some (some (base ++ 0 ∷ tail))
unfolding basename_loop
base_after [] base tail s d b n = base_keeps base tail (some (base ++ 0 ∷ tail)) b n
base_after (c ∷ dir) base tail s d b n = ground (
  arith,
  base_after dir base tail s d.1 b n,
  base_after dir base tail (some (dir ++ slash ∷ base ++ 0 ∷ tail)) d.1 b n,
)

-- For a string without a slash xbasename returns NULL; for a directory, a slash and a name without
-- a slash it returns the name, with what follows its terminator; it reads nothing past the
-- terminator.
pub xbasename_lem :
    (dir base tail : List ℕ)
    → IsText dir
    → IsText base
    → NoSlash base
    → (xbasename (base ++ 0 ∷ tail) ≡ some none)
      × (xbasename (dir ++ slash ∷ base ++ 0 ∷ tail) ≡ some (some (base ++ 0 ∷ tail)))
unfolding xbasename
xbasename_lem dir base tail d b n =
    (base_keeps base tail none b n, base_after dir base tail none d b n)
