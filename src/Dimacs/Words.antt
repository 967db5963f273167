-- ===== src/Dimacs/Words.antt =====
-- What the lexer of src/dimacs.rs makes of words between spaces.
use satrap.Prelude.{
  ℕ, suc, ◌+◌, ◌-◌, ◌<◌, true, false, [], ◌∷◌, ◌++◌, ◌==◌, if◌then◌else◌, ◌≡◌, ◌≢◌, refl, arith,
  All, All-mono, length, length-append,
}
use satrap.Prelude.Bytes.{Bytes, is_ascii_whitespace}
use satrap.Prelude.Int.{ℤ, pos, negsuc}
use satrap.Dimacs.{Token, Lexer, found, ended}
use satrap.Dimacs.Tokens.{
  skip_space, take_word, is_comment, is_trailer, next_word, word_at, next_token,
}
use satrap.Dimacs.Digits.{IsDigit, decimal, decimal-ne-nil, decimal-IsDigit}
use satrap.Drat.{push_i64}

abbrev pub IsSpace : ℕ → Type 0
IsSpace c = is_ascii_whitespace c ≡ true

abbrev pub IsInk : ℕ → Type 0
IsInk c = is_ascii_whitespace c ≡ false

-- A word without spaces that starts neither a comment nor a trailer.
abbrev pub IsPlain : Bytes → Type 0
IsPlain [] = ⊥
IsPlain (c ∷ word) = ((c == b'c') ≡ false) × ((c == b'%') ≡ false) × IsInk c × All IsInk word

take_word-append :
    (w : Bytes) (s : ℕ) (after : Bytes)
    → All IsInk w
    → IsSpace s
    → take_word (w ++ s ∷ after) ≡ (w, s ∷ after)
unfolding take_word
take_word-append [] s after h k = rw k refl
take_word-append (c ∷ w) s after (p, h) k = rw (p, take_word-append w s after h k) refl

skip_space-ink :
    (c : ℕ) (rest : Bytes) (position line line_start : ℕ)
    → IsInk c
    → skip_space (c ∷ rest) position line line_start
      ≡ record { rest = c ∷ rest; position = position; line = line; line_start = line_start }
unfolding skip_space
skip_space-ink c rest position line line_start h = rw h refl

skip_space-one :
    (s c : ℕ) (rest : Bytes) (position line line_start : ℕ)
    → IsSpace s
    → IsInk c
    → (p : ℕ) × (k : ℕ) × (b : ℕ) × (skip_space (s ∷ c ∷ rest) position line line_start
        ≡ record { rest = c ∷ rest; position = p; line = k; line_start = b })
unfolding skip_space
skip_space-one s c rest position line line_start h k = (
  position + 1,
  (if s == b'\n' then line + 1 else line),
  (if s == b'\n' then position + 1 else line_start),
  rw (h, k) refl,
)

-- A plain word is not a comment or a trailer, in any column.
is_comment-plain :
    (c : ℕ) (w : Bytes) (column : ℕ) → (c == b'c') ≡ false → is_comment (c ∷ w) column ≡ false
unfolding is_comment
is_comment-plain c w column h = rw h (ground arith)

is_trailer-plain :
    (c : ℕ) (w : Bytes) (column : ℕ) → (c == b'%') ≡ false → is_trailer (c ∷ w) column ≡ false
unfolding is_trailer
is_trailer-plain c w column h = rw h (ground arith)

-- The token that the lexer takes next holds `w`, and `after` is what it leaves.
abbrev pub Takes : Lexer → Bytes → Bytes → Type 0
Takes l w after =
    (t : Token) × (l' : Lexer) × (next_token l ≡ found t l')
    × (t.bytes ≡ w)
    × (l'.rest ≡ after)
    × (length l'.rest < length l.rest)

pub Takes-word :
    (l : Lexer) (s : ℕ) (w : Bytes) (s' : ℕ) (after : Bytes)
    → IsSpace s
    → IsPlain w
    → IsSpace s'
    → l.rest ≡ s ∷ (w ++ s' ∷ after)
    → Takes l w (s' ∷ after)
unfolding next_token next_word word_at
Takes-word l s [] s' after hs plain hs' e = elim plain [ ]
Takes-word l s (c ∷ w) s' after hs (nc, np, ink, inks) hs' e =
    let (p, k, b, skipped) =
      skip_space-one s c (w ++ s' ∷ after) l.position l.line l.line_start hs ink in
    let column = p - b + 1 in
    let inked : (length (c ∷ w ++ s' ∷ after) == 0) ≡ false = ground arith in
    rw
      (
        e,
        skipped,
        take_word-append (c ∷ w) s' after (ink, inks) hs',
        is_comment-plain c w column nc,
        is_trailer-plain c w column np,
        inked,
      )
      (
        record { bytes = c ∷ w; line = k; column = column },
        record { rest = s' ∷ after; position = p + suc (length w); line = k; line_start = b },
        refl,
        refl,
        refl,
        omega (arith, length-append w (s' ∷ after)),
      )

-- At the end of the input there is no token.
pub next_token-none :
    (l : Lexer) (s : ℕ) → IsSpace s → l.rest ≡ s ∷ [] → (l' : Lexer) × (next_token l ≡ ended l')
unfolding next_token next_word word_at skip_space
next_token-none l s hs e = rw (e, hs) (_, refl)

digit-IsInk : (c : ℕ) → IsDigit c → IsInk c
digit-IsInk c h = ground arith

pub digits-IsInk : (w : Bytes) → All IsDigit w → All IsInk w
digits-IsInk w h = All-mono IsDigit IsInk digit-IsInk w h

pub digits-IsPlain : (w : Bytes) → w ≢ [] → All IsDigit w → IsPlain w
digits-IsPlain [] ne h = ne refl
digits-IsPlain (c ∷ w) ne (p, h) = (ground arith, ground arith, digit-IsInk c p, digits-IsInk w h)

pub decimal-IsPlain : (m : ℕ) → IsPlain (decimal m)
decimal-IsPlain m = digits-IsPlain (decimal m) (decimal-ne-nil m) (decimal-IsDigit m)

-- What `push_i64` prints is a word.
pub push_i64-IsPlain : (z : ℤ) → IsPlain (push_i64 [] z)
unfolding push_i64
push_i64-IsPlain (pos n) = decimal-IsPlain n
push_i64-IsPlain (negsuc n) =
    (refl, refl, refl, digits-IsInk (decimal (suc n)) (decimal-IsDigit (suc n)))
