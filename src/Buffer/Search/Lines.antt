-- ===== src/Buffer/Search/Lines.antt =====
-- Which line end `FindLF` and `FindCRLF` find, and which they pass over.
use solar_net.Base.{
  ℕ, zero, suc, ◌-◌, ◌<◌, ◌≡◌, ◌≢◌, refl, ap, ◌∙◌, List, [], ◌∷◌, ◌++◌, arith, length,
  length-append, take, drop,
}
use solar_net.Buffer.Search.{cr, lf, find_byte, byte_at, find_crlf}

abbrev pub Lacks : ℕ → List ℕ → Type 0
Lacks c [] = Unit {0}
Lacks c (x ∷ xs) = (x ≢ c) × Lacks c xs

find_byte_first :
    (c : ℕ) (pre post : List ℕ) → Lacks c pre → find_byte c (pre ++ c ∷ post) ≡ length pre
unfolding find_byte
find_byte_first c [] post h = ground arith
find_byte_first c (x ∷ pre) post h = ground (arith, find_byte_first c pre post h.1)

byte_at-append : (pre post : List ℕ) (x : ℕ) → byte_at (pre ++ x ∷ post) (length pre) ≡ x
unfolding byte_at
byte_at-append [] post x = refl
byte_at-append (y ∷ pre) post x = byte_at-append pre post x

-- The same with another byte before the one looked for.
find_byte_second :
    (c y : ℕ) (pre post : List ℕ)
    → Lacks c pre
    → y ≢ c
    → find_byte c (pre ++ y ∷ c ∷ post) ≡ suc (length pre)
unfolding find_byte
find_byte_second c y [] post h n = ground arith
find_byte_second c y (x ∷ pre) post h n = ground (arith, find_byte_second c y pre post h.1 n)

byte_at-ne :
    (c : ℕ) (pre post : List ℕ) (i : ℕ) → Lacks c pre → i < length pre → byte_at (pre ++ post) i ≢ c
unfolding byte_at
byte_at-ne c [] post i h k = absurd (omega arith)
byte_at-ne c (x ∷ pre) post zero h k = h.0
byte_at-ne c (x ∷ pre) post (suc i) h k = byte_at-ne c pre post i h.1 (omega arith)

drop-byte_at : (xs : List ℕ) (i : ℕ) → i < length xs → drop i xs ≡ byte_at xs i ∷ drop (suc i) xs
unfolding byte_at
drop-byte_at [] i h = absurd (omega arith)
drop-byte_at (x ∷ xs) zero h = refl
drop-byte_at (x ∷ xs) (suc i) h = drop-byte_at xs i (omega arith)

byte_at-find_byte :
    (c : ℕ) (xs : List ℕ)
    → find_byte c xs ≢ length xs
    → (byte_at xs (find_byte c xs) ≡ c) × (find_byte c xs < length xs)
unfolding find_byte byte_at
byte_at-find_byte c [] h = absurd (h refl)
byte_at-find_byte c (x ∷ xs) h = ground (arith, byte_at-find_byte c xs)

-- A line that ends in CR LF, with no LF before, is found at its CR.
find_crlf_first :
    (pre post : List ℕ) → Lacks lf pre → find_crlf (pre ++ cr ∷ lf ∷ post) ≡ length pre
unfolding find_crlf
find_crlf_first pre post h = ground (
  arith,
  find_byte_second lf cr pre post h (omega arith),
  byte_at-append pre (lf ∷ post) cr,
  length-append pre (cr ∷ lf ∷ post),
)

crlf_at :
    (xs : List ℕ) (i : ℕ)
    → suc i < length xs
    → byte_at xs i ≡ cr
    → byte_at xs (suc i) ≡ lf
    → take 2 (drop i xs) ≡ cr ∷ lf ∷ []
crlf_at xs i h first second =
    rw (drop-byte_at xs i (omega arith), drop-byte_at xs (suc i) h, first, second)

find_crlf_cases :
    (xs : List ℕ)
    → find_crlf xs ≢ length xs
    → (suc (find_crlf xs) ≡ find_byte lf xs)
      × (find_byte lf xs ≢ length xs)
      × (byte_at xs (find_crlf xs) ≡ cr)
unfolding find_crlf
find_crlf_cases xs h = ground arith

-- What is found is a CR LF.
find_crlf_sound :
    (xs : List ℕ) → find_crlf xs ≢ length xs → take 2 (drop (find_crlf xs) xs) ≡ cr ∷ lf ∷ []
find_crlf_sound xs h =
    let c = find_crlf_cases xs h in
    let b = byte_at-find_byte lf xs c.1 in
    crlf_at xs (find_crlf xs) (omega (arith, c.0, b.1)) c.2 (ap (byte_at xs) c.0 ∙ b.0)

-- An LF with neither a CR nor an LF before it hides every CR LF behind it: the search gives the
-- end, as if there were none.
find_crlf_hidden :
    (pre post : List ℕ)
    → Lacks lf pre
    → Lacks cr pre
    → find_crlf (pre ++ lf ∷ post) ≡ length (pre ++ lf ∷ post)
unfolding find_crlf
find_crlf_hidden pre post h k = ground (
  arith,
  find_byte_first lf pre post h,
  byte_at-ne cr pre (lf ∷ post) (length pre - 1) k,
  length-append pre (lf ∷ post),
)
