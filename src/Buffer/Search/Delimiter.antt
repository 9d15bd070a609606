-- ===== src/Buffer/Search/Delimiter.antt =====
-- What `RetrieveUntil(delimiter)` leaves of a buffer.
use solar_net.Base.{
  ℕ, suc, ◌+◌, ◌^◌, ◌≤◌, ◌<◌, ◌≡◌, refl, ap, sym, ◌∙◌, true, false, List, [], ◌∷◌, ◌++◌, arith,
  length, length-append, take, drop, drop-append, none, some, Bool-cases, inl, inr, drop-drop,
  add_size,
}
use solar_net.Buffer.{Buffer, IsValid, contents, to_string_view}
use solar_net.Buffer.Space.{to_string_view-contents, length-contents, sizes_lem}
use solar_net.Buffer.Data.{retrieve_lem}
use solar_net.Buffer.Search.{is_prefix, find_string, retrieve_until}

-- The bytes of `d` stand in `xs` at offset `q`.
abbrev pub Occurs : List ℕ → ℕ → List ℕ → Type 0
Occurs d q xs = take (length d) (drop q xs) ≡ d

is_prefix-Occurs : (d xs : List ℕ) → is_prefix d xs ≡ true → Occurs d 0 xs
unfolding is_prefix
is_prefix-Occurs [] xs h = refl
is_prefix-Occurs (x ∷ d) [] h = cc
is_prefix-Occurs (x ∷ d) (y ∷ xs) h = ground (arith, is_prefix-Occurs d xs)

is_prefix-append : (d post : List ℕ) → is_prefix d (d ++ post) ≡ true
unfolding is_prefix
is_prefix-append [] post = refl
is_prefix-append (x ∷ d) post = ground (arith, is_prefix-append d post)

not_prefix : (d xs : List ℕ) → ¬ Occurs d 0 xs → is_prefix d xs ≡ false
not_prefix d xs h = elim (Bool-cases (is_prefix d xs)) [
  | inl t ↦ absurd (h (is_prefix-Occurs d xs t))
  | inr f ↦ f
]

find_string_here : (d xs : List ℕ) → is_prefix d xs ≡ true → find_string d xs ≡ some 0
unfolding find_string
find_string_here d [] h = rw h
find_string_here d (x ∷ xs) h = rw h

find_string-first :
    (d pre post : List ℕ)
    → ((q : ℕ) → q < length pre → ¬ Occurs d q (pre ++ (d ++ post)))
    → find_string d (pre ++ (d ++ post)) ≡ some (length pre)
unfolding find_string
find_string-first d [] post h = find_string_here d (d ++ post) (is_prefix-append d post)
find_string-first d (x ∷ pre) post h = rw (
  not_prefix d (x ∷ (pre ++ (d ++ post))) (h 0 (omega arith)),
  find_string-first d pre post (λ q k. h (suc q) (omega arith)),
)

find_string-none :
    (d xs : List ℕ) → ((q : ℕ) → q ≤ length xs → ¬ Occurs d q xs) → find_string d xs ≡ none
unfolding find_string
find_string-none d [] h = rw (not_prefix d [] (h 0 (omega arith)))
find_string-none d (x ∷ xs) h = rw (
  not_prefix d (x ∷ xs) (h 0 (omega arith)),
  find_string-none d xs (λ q k. h (suc q) (omega arith)),
)

-- `RetrieveUntil(delimiter)` drops everything up to and including the first occurrence of the
-- delimiter in a valid buffer, and keeps what follows.
pub retrieve_until_first :
    (b : Buffer) (pre d post : List ℕ)
    → IsValid b
    → contents b ≡ pre ++ (d ++ post)
    → ((q : ℕ) → q < length pre → ¬ Occurs d q (contents b))
    → IsValid (retrieve_until b d) × (contents (retrieve_until b d) ≡ post)
unfolding retrieve_until
retrieve_until_first b pre d post v e h =
    rw (found, retrieve_until) ((retrieve_lem b len v).0, (retrieve_lem b len v).1 ∙ dropped)
  where
    len : ℕ
    len = add_size (length pre) (length d)

    found : find_string d (to_string_view b) ≡ some (length pre)
    found =
        ap (find_string d) (to_string_view-contents b v ∙ e)
        ∙ find_string-first d pre post (λ q k. rw e at (h q k))

    total : length (contents b) ≡ length pre + (length d + length post)
    total =
        ap length e
        ∙ length-append pre (d ++ post)
        ∙ ap (λ n. length pre + n) (length-append d post)

    bound : length (contents b) < 2 ^ 64
    bound = omega (arith, length-contents b v, sizes_lem b v)

    sum : len ≡ length pre + length d
    sum = omega (arith, total, bound)

    dropped : drop len (contents b) ≡ post
    dropped =
        ap (λ n. drop n (contents b)) sum
        ∙ ap (drop (length pre + length d)) e
        ∙ sym (drop-drop (length d) (length pre) (pre ++ (d ++ post)))
        ∙ ap (drop (length d)) (drop-append pre (d ++ post))
        ∙ drop-append d post

-- Without an occurrence in a valid buffer `RetrieveUntil` changes nothing.
retrieve_until_absent :
    (b : Buffer) (d : List ℕ)
    → IsValid b
    → ((q : ℕ) → q ≤ length (contents b) → ¬ Occurs d q (contents b))
    → retrieve_until b d ≡ b
unfolding retrieve_until
retrieve_until_absent b d v h = rw (found, retrieve_until)
  where
    found : find_string d (to_string_view b) ≡ none
    found = ap (find_string d) (to_string_view-contents b v) ∙ find_string-none d (contents b) h
