-- ===== src/Dimacs/Tokens.antt =====
-- The lexer of src/dimacs.rs.
use satrap.Prelude.{
  ℕ, zero, suc, ◌+◌, ◌-◌, Bool, false, ◌||◌, ◌&&◌, [], ◌∷◌, ◌==◌, if◌then◌else◌, length,
}
use satrap.Prelude.Bytes.{Bytes, codes, bytes_eq, is_ascii_whitespace}
use satrap.Dimacs.{Lexer, Scan, found, ended, unfinished}

unfoldable pub new : Bytes → Lexer
new input = record { rest = input; position = 0; line = 1; line_start = 0 }

-- `skip_ascii_whitespace`
unfoldable pub skip_space : Bytes → ℕ → ℕ → ℕ → Lexer
skip_space [] position line line_start = record {
  rest = [];
  position = position;
  line = line;
  line_start = line_start;
}
skip_space (byte ∷ rest) position line line_start =
    let newline = byte == b'\n' in
    let more =
      skip_space rest (position + 1) (if newline then line + 1 else line)
        (if newline then position + 1 else line_start) in
    if is_ascii_whitespace byte
    then more
    else record { rest = byte ∷ rest; position = position; line = line; line_start = line_start }

-- `skip_to_next_line`
unfoldable pub skip_line : Bytes → ℕ → ℕ → ℕ → Lexer
skip_line [] position line line_start = record {
  rest = [];
  position = position;
  line = line;
  line_start = line_start;
}
skip_line (byte ∷ rest) position line line_start =
    let more = skip_line rest (position + 1) line line_start in
    if byte == b'\n'
    then record { rest = rest; position = position + 1; line = line + 1; line_start = position + 1 }
    else more

-- The bytes up to the next whitespace, and what follows.
unfoldable pub take_word : Bytes → Bytes × Bytes
take_word [] = ([], [])
take_word (byte ∷ rest) =
    let (word, after) = take_word rest in
    if is_ascii_whitespace byte then ([], byte ∷ rest) else (byte ∷ word, after)

abbrev starts : ℕ → Bytes → Bool
starts c [] = false
starts c (byte ∷ rest) = byte == c

-- What the loop of `next_token` does with a word: skip a comment, end the input, or return it.
unfoldable pub is_comment : Bytes → ℕ → Bool
is_comment bytes column = bytes_eq bytes (codes "c") || column == 1 && starts b'c' bytes

unfoldable pub is_trailer : Bytes → ℕ → Bool
is_trailer bytes column = column == 1 && starts b'%' bytes

-- `self.position = self.input.len()`
unfoldable pub to_end : Lexer → Lexer
to_end l = record l { rest = []; position = l.position + length l.rest }

-- A round of the loop, from the first byte that is no space; `again` is the next round.
unfoldable pub word_at : Lexer → (Lexer → Scan) → Scan
unfolding is_comment is_trailer to_end skip_line take_word
word_at here again =
    let (bytes, rest) = take_word here.rest in
    let column = here.position - here.line_start + 1 in
    let after = record here { rest = rest; position = here.position + length bytes } in
    let next = again (skip_line after.rest after.position after.line after.line_start) in
    if length here.rest == 0
    then ended here
    else if is_comment bytes column
    then next
    else if is_trailer bytes column
    then ended (to_end after)
    else found (record { bytes = bytes; line = here.line; column = column }) after

unfoldable pub next_word : ℕ → Lexer → Scan
unfolding skip_space word_at
next_word zero l = unfinished
next_word (suc fuel) l = word_at (skip_space l.rest l.position l.line l.line_start) (next_word fuel)

-- Each round of the loop takes at least one byte.
unfoldable pub next_token : Lexer → Scan
unfolding next_word
next_token l = next_word (suc (length l.rest)) l
