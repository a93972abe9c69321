-- ===== src/Store/Lines.antt =====
-- The lines of a file as bufio.Scanner cuts them, with the buffer that `Output.Query` gives it.
use opslog.Prelude.{
  ℕ, ◌<◌, ◌≡◌, refl, ◌≢◌, List, [], ◌∷◌, ◌++◌, arith, leb, ◌==◌, if◌then◌else◌, length, All,
}
use opslog.Framer.{Bytes}

-- 8*1024*1024
abbrev pub max_line : ℕ
max_line = 8388608

cons_byte : ℕ → List Bytes → List Bytes
cons_byte b [] = (b ∷ []) ∷ []
cons_byte b (l ∷ ls) = (b ∷ l) ∷ ls

-- Cut after each newline, 10; what follows the last one is a line unless it is empty.
pub raw_lines : Bytes → List Bytes
unfolding cons_byte
raw_lines [] = []
raw_lines (b ∷ s) = let rest = raw_lines s in if b == 10 then [] ∷ rest else cons_byte b rest

-- A trailing carriage return, 13, goes.
unfoldable pub drop_cr : Bytes → Bytes
drop_cr [] = []
drop_cr (b ∷ []) = if b == 13 then [] else b ∷ []
drop_cr (b ∷ c ∷ l) = b ∷ drop_cr (c ∷ l)

-- The scan ends at a line that fills the buffer.
pub until_too_long : List Bytes → List Bytes
until_too_long [] = []
until_too_long (l ∷ ls) =
    let rest = until_too_long ls in if leb max_line (length l) then [] else drop_cr l ∷ rest

unfoldable pub scan_lines : Bytes → List Bytes
unfolding until_too_long drop_cr raw_lines
scan_lines s = until_too_long (raw_lines s)

-- What `Output.Write` appends for a batch: `append(b, '\n')` of each.
abbrev pub lines_of : List Bytes → Bytes
lines_of [] = []
lines_of (l ∷ ls) = l ++ 10 ∷ lines_of ls

-- A line that the scanner gives back as it was written: no newline in it, no carriage return at its
-- end, and shorter than the buffer. A line of JSON is such a line, if it is not that long.
pub record IsLine (l : Bytes) : Type 0 where
  pub no_newline : All (λ b. b ≢ 10) l
  pub no_cr : drop_cr l ≡ l
  pub fits : length l < max_line

raw_lines-cons : (l s : Bytes) → All (λ b. b ≢ 10) l → raw_lines (l ++ 10 ∷ s) ≡ l ∷ raw_lines s
unfolding raw_lines cons_byte
raw_lines-cons [] s h = refl
raw_lines-cons (b ∷ l) s (ne, h) = ground (arith, raw_lines-cons l s h)

-- Lines that are appended to a file come back from the scan, each as it was, in order.
pub scan_lines-lines_of : (ls : List Bytes) → All IsLine ls → scan_lines (lines_of ls) ≡ ls
unfolding scan_lines until_too_long raw_lines
scan_lines-lines_of [] h = refl
scan_lines-lines_of (l ∷ ls) (one, h) =
    rw (raw_lines-cons l (lines_of ls) one.no_newline)
      (ground (arith, scan_lines-lines_of ls h, one.no_cr, one.fits))
