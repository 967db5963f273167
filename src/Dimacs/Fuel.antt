-- ===== src/Dimacs/Fuel.antt =====
-- The lexer of src/dimacs.rs ends.
use satrap.Prelude.{
  ℕ, zero, suc, ◌+◌, ◌-◌, ◌≤◌, ◌<◌, false, [], ◌∷◌, ◌==◌, if◌then◌else◌, ◌≡◌, arith, length,
  Bool-cases, inl, inr,
}
use satrap.Prelude.Bytes.{Bytes, is_ascii_whitespace}
use satrap.Dimacs.{Lexer, Scan, found, ended, unfinished}
use satrap.Dimacs.Tokens.{
  skip_space, skip_line, take_word, is_comment, is_trailer, word_at, next_word, next_token,
}

length-skip_line : (r : Bytes) (p k b : ℕ) → length (skip_line r p k b).rest ≤ length r
unfolding skip_line
length-skip_line [] p k b = omega arith
length-skip_line (c ∷ r) p k b = elim (Bool-cases (c == b'\n')) [
  | inl ends ↦ rw ends (omega arith)
  | inr more ↦ rw more (omega (arith, length-skip_line r (p + 1) k b))
]

length-skip_space : (r : Bytes) (p k b : ℕ) → length (skip_space r p k b).rest ≤ length r
unfolding skip_space
length-skip_space [] p k b = omega arith
length-skip_space (c ∷ r) p k b = elim (Bool-cases (is_ascii_whitespace c)) [
  | inl space ↦ rw space (
      omega (
        arith,
        length-skip_space r (p + 1) (if c == b'\n' then k + 1 else k)
            (if c == b'\n' then p + 1 else b),
      ))
  | inr ink ↦ rw ink (omega arith)
]

-- What comes after the spaces starts a word, which takes a byte.
length-take_word : (w : Bytes) → length (take_word w).1 ≤ length w
unfolding take_word
length-take_word [] = omega arith
length-take_word (c ∷ w) = elim (Bool-cases (is_ascii_whitespace c)) [
  | inl space ↦ rw space (omega arith)
  | inr ink ↦ rw ink (omega (arith, length-take_word w))
]

Starts : Bytes → Type 0
Starts [] = Unit
Starts (c ∷ r) = is_ascii_whitespace c ≡ false

skip_space-Starts : (r : Bytes) (p k b : ℕ) → Starts (skip_space r p k b).rest
unfolding skip_space Starts
skip_space-Starts [] p k b = tt
skip_space-Starts (c ∷ r) p k b = elim (Bool-cases (is_ascii_whitespace c)) [
  | inl space ↦ rw space (
      skip_space-Starts r (p + 1) (if c == b'\n' then k + 1 else k)
        (if c == b'\n' then p + 1 else b))
  | inr ink ↦ rw ink ink
]

take_word-shorter :
    (w : Bytes) → Starts w → (length w == 0) ≡ false → length (take_word w).1 < length w
unfolding take_word Starts
take_word-shorter [] h k = absurd (ground arith)
take_word-shorter (c ∷ w) h k = rw h (omega (arith, length-take_word w))

-- The lexer ends, and a token takes a byte at least.
abbrev pub Shorter : ℕ → Scan → Type 0
Shorter n (found t l) = length l.rest < n
Shorter n (ended l) = Unit
Shorter n unfinished = ⊥

Shorter-mono : (n m : ℕ) (o : Scan) → n ≤ m → Shorter n o → Shorter m o
Shorter-mono n m (found t l) h k = omega arith
Shorter-mono n m (ended l) h k = tt
Shorter-mono n m unfinished h k = elim k [ ]

word_at-Shorter :
    (here : Lexer) (f : Lexer → Scan)
    → Starts here.rest
    → ((l : Lexer) → length l.rest < length here.rest → Shorter (length l.rest) (f l))
    → Shorter (length here.rest) (word_at here f)
unfolding word_at
word_at-Shorter here f h ih =
    let column = here.position - here.line_start + 1 in
    let bytes = (take_word here.rest).0 in
    elim (Bool-cases (length here.rest == 0)) [
      | inl ends ↦ rw ends tt
      | inr more ↦ elim (Bool-cases (is_comment bytes column)) [
        | inl comment ↦
            let after : Lexer = record here {
              rest = (take_word here.rest).1;
              position = here.position + length bytes;
            } in
            let next : Lexer = skip_line after.rest after.position after.line after.line_start in
            let less : length next.rest < length here.rest = omega (
              arith,
              take_word-shorter here.rest h more,
              length-skip_line after.rest after.position after.line after.line_start,
            ) in
            rw (more, comment)
              (Shorter-mono (length next.rest) (length here.rest) (f next) (omega arith)
                (ih next less))
        | inr word ↦ elim (Bool-cases (is_trailer bytes column)) [
          | inl trailer ↦ rw (more, word, trailer) tt
          | inr token ↦ rw (more, word, token) (take_word-shorter here.rest h more)
        ]
      ]
    ]

next_word-Shorter :
    (fuel : ℕ) (l : Lexer) → length l.rest < fuel → Shorter (length l.rest) (next_word fuel l)
unfolding next_word
next_word-Shorter zero l h = absurd (omega arith)
next_word-Shorter (suc fuel) l h =
    let here : Lexer = skip_space l.rest l.position l.line l.line_start in
    let less = length-skip_space l.rest l.position l.line l.line_start in
    Shorter-mono (length here.rest) (length l.rest) (word_at here (next_word fuel)) less (
      word_at-Shorter here (next_word fuel)
        (skip_space-Starts l.rest l.position l.line l.line_start)
        (λ l' below. next_word-Shorter fuel l' (omega arith)))

pub next_token-Shorter : (l : Lexer) → Shorter (length l.rest) (next_token l)
unfolding next_token
next_token-Shorter l = next_word-Shorter (suc (length l.rest)) l (omega arith)
