-- ===== src/Misc.antt =====
-- misc.c: file names, copies of strings, and blocking and non-blocking descriptors. A pointer to
-- char is the list of the bytes from there to the end of the object that it points into.
pub mod Basename
pub mod Strdup
use yamux.Common.{
  ℕ, zero, suc, ◌-◌, Bool, true, false, Option, none, some, List, [], ◌∷◌, ◌++◌, ◌==◌, ◌&&◌, ◌^◌,
  ltb, if◌then◌else◌, bit_and, bit_or, minus_one,
}
use yamux.Os.{Os, bytes_block}

-- The character '/'.
abbrev pub slash : ℕ
slash = 47

-- `while (*str) { if (*str++ == '/') { s = str; } }`, and the `s` that is returned; NULL is the
-- inner `none`. The outer one is a read past the end.
pub basename_loop : List ℕ → Option (List ℕ) → Option (Option (List ℕ))
basename_loop [] s = none
basename_loop (c ∷ str) s =
    let rest = basename_loop str (if c == slash then some str else s) in
    if c == 0 then some s else rest

pub xbasename : List ℕ → Option (Option (List ℕ))
unfolding basename_loop
xbasename str = basename_loop str none

-- `while ('\0' != str[n++]) { }`: the count, or `none` for a read past the end.
pub count_loop : List ℕ → ℕ → Option ℕ
count_loop [] n = none
count_loop (c ∷ str) n = let rest = count_loop str (suc n) in if c == 0 then some (suc n) else rest

-- `while (n--) { *s++ = *str++; }`, with what has been written so far.
pub copy_loop : ℕ → List ℕ → List ℕ → Option (List ℕ)
copy_loop zero str out = some out
copy_loop (suc n) [] out = none
copy_loop (suc n) (c ∷ str) out = copy_loop n str (out ++ c ∷ [])

module _ {W : Type 0} ⦃os : Os W⦄ where
  -- From `ptr = malloc(n)` on; the inner `none` is NULL.
  pub copy_counted : List ℕ → Option ℕ → W → Option (Option (List ℕ) × W)
  unfolding copy_loop
  copy_counted str none w = none
  copy_counted str (some n) w =
      let (made, w') = os.malloc (bytes_block n) w in
      elim made [
        | false ↦ some (none, w')
        | true ↦ elim (copy_loop n str []) [ none ↦ none | some ptr ↦ some (some ptr, w') ]
      ]

  -- A NULL argument fails the assertion.
  pub xstrdup : Option (List ℕ) → W → Option (Option (List ℕ) × W)
  unfolding count_loop copy_counted
  xstrdup none w = none
  xstrdup (some str) w = copy_counted str (count_loop str zero) w

  -- The int that `fcntl(fd, F_GETFL)` is.
  pub getfl : ℕ → W → ℕ × W
  getfl fd w =
      let (flags, w') = os.fcntl_getfl fd w in (elim flags [ none ↦ minus_one | some n ↦ n ], w')

  -- `~O_NONBLOCK`
  pub setblock : ℕ → W → ℕ × W
  unfolding getfl
  setblock fd w =
      let (flags, w') = getfl fd w in
      os.fcntl_setfl fd (bit_and flags (minus_one - os.o_nonblock)) w'

  pub setnonblock : ℕ → W → ℕ × W
  unfolding getfl
  setnonblock fd w =
      let (flags, w') = getfl fd w in os.fcntl_setfl fd (bit_or flags os.o_nonblock) w'

-- What xstrftime calls of the C library, `Tm` being its broken-down times.
pub record Clock (Tm : Type 0) : Type 0 where
  -- `none` is NULL.
  pub localtime : ℕ → Option Tm
  -- With the format "%Y-%m-%d %H:%M:%S", and with a text: the count, and what the buffer of that
  -- size holds.
  pub strftime : ℕ → Option Tm → ℕ × List ℕ
  pub snprintf : ℕ → List ℕ → ℕ × List ℕ

-- "0000-00-00 00:00:00"
abbrev pub no_time : List ℕ
no_time =
    48 ∷ 48 ∷ 48 ∷ 48 ∷ 45 ∷ 48 ∷ 48 ∷ 45 ∷ 48 ∷ 48 ∷ 32 ∷ 48 ∷ 48 ∷ 58 ∷ 48 ∷ 48 ∷ 58 ∷ 48 ∷ 48
    ∷ []

-- The time is the 64-bit pattern of a time_t.
pub xstrftime : {Tm : Type 0} → Clock Tm → ℕ → ℕ → ℕ × List ℕ
xstrftime clock size time =
    let tp = clock.localtime time in
    if ltb 0 time && ltb time (2 ^ 63) then clock.strftime size tp else clock.snprintf size no_time
