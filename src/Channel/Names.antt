-- ===== src/Channel/Names.antt =====
-- `EventsToString`: the flags of a mask as text, for the log.
use solar_net.Base.{
  ℕ, ◌≡◌, refl, sym, Bool, true, false, not, ◌&&◌, ◌||◌, if◌then◌else◌, ◌==◌, List, [], ◌∷◌, ◌++◌,
  codes, arith,
}
use solar_net.Channel.{Mask, is_none}

-- The stream and the flag `first`; `append`, where the bit is set
abbrev append_name : Bool × List ℕ → Bool → List ℕ → Bool × List ℕ
append_name (first, text) false name = (first, text)
append_name (true, text) true name = (false, text ++ name)
append_name (false, text) true name = (false, text ++ (32 ∷ name))

names_of : Mask → List ℕ → List ℕ
names_of m start =
    let s1 = append_name (true, start) m.pollin (codes "IN") in
    let s2 = append_name s1 m.pollpri (codes "PRI") in
    let s3 = append_name s2 m.pollout (codes "OUT") in
    let s4 = append_name s3 m.pollhup (codes "HUP") in
    let s5 = append_name s4 m.pollrdhup (codes "RDHUP") in
    let s6 = append_name s5 m.pollerr (codes "ERR") in (append_name s6 m.pollnval (codes "NVAL")).1

-- `EventsToStringImpl`
pub events_to_string : Mask → List ℕ
events_to_string m =
    (if is_none m then codes "[" ++ codes "none" else names_of m (codes "[")) ++ codes "]"

-- Whether the text continues with a name that a space or a bracket ends.
abbrev starts : List ℕ → List ℕ → Bool
starts [] [] = false
starts [] (c ∷ text) = (c == 32) || (c == 93)
starts (c ∷ name) [] = false
starts (c ∷ name) (x ∷ text) = (c == x) && starts name text

-- Whether it has the name behind a space or a bracket.
abbrev mentions : List ℕ → List ℕ → Bool
mentions name [] = false
mentions name (c ∷ text) =
    let rest = mentions name text in (((c == 32) || (c == 91)) && starts name text) || rest

-- The flags that a text names
pub flags_of : List ℕ → Mask
flags_of text = record {
  pollin = mentions (codes "IN") text;
  pollpri = mentions (codes "PRI") text;
  pollout = mentions (codes "OUT") text;
  pollhup = mentions (codes "HUP") text;
  pollrdhup = mentions (codes "RDHUP") text;
  pollerr = mentions (codes "ERR") text;
  pollnval = mentions (codes "NVAL") text;
}

abbrev alike : Bool → Bool → Bool
alike true b = b
alike false b = not b

alike→≡ : (a b : Bool) → alike a b ≡ true → a ≡ b
alike→≡ true b h = sym h
alike→≡ false true h = cc h
alike→≡ false false h = refl

-- A test on Booleans, for all of them
abbrev every : (Bool → Bool) → Bool
every f = f true && f false

every-true : (f : Bool → Bool) → every f ≡ true → (b : Bool) → f b ≡ true
every-true f h true = ground (arith, h)
every-true f h false = ground (arith, h)

abbrev mask : Bool → Bool → Bool → Bool → Bool → Bool → Bool → Mask
mask a b c d e f g = record {
  pollin = a;
  pollpri = b;
  pollout = c;
  pollhup = d;
  pollrdhup = e;
  pollerr = f;
  pollnval = g;
}

abbrev same_flags : Mask → Mask → Bool
same_flags m n =
    alike m.pollin n.pollin
    && (alike m.pollpri n.pollpri
        && (alike m.pollout n.pollout
            && (alike m.pollhup n.pollhup
                && (alike m.pollrdhup n.pollrdhup
                    && (alike m.pollerr n.pollerr && alike m.pollnval n.pollnval)))))

reads_back : Bool → Bool → Bool → Bool → Bool → Bool → Bool → Bool
reads_back a b c d e f g =
    same_flags (flags_of (events_to_string (mask a b c d e f g))) (mask a b c d e f g)

-- The same for all of the last flags
abbrev for_all_1 : Bool → Bool → Bool → Bool → Bool → Bool → Bool
for_all_1 a b c d e f = every (reads_back a b c d e f)

abbrev for_all_2 : Bool → Bool → Bool → Bool → Bool → Bool
for_all_2 a b c d e = every (for_all_1 a b c d e)

abbrev for_all_3 : Bool → Bool → Bool → Bool → Bool
for_all_3 a b c d = every (for_all_2 a b c d)

abbrev for_all_4 : Bool → Bool → Bool → Bool
for_all_4 a b c = every (for_all_3 a b c)

abbrev for_all_5 : Bool → Bool → Bool
for_all_5 a b = every (for_all_4 a b)

abbrev for_all_6 : Bool → Bool
for_all_6 a = every (for_all_5 a)

all_read_back : every for_all_6 ≡ true
unfolding reads_back flags_of events_to_string names_of
all_read_back = refl

both-true : (a b : Bool) → (a && b) ≡ true → (a ≡ true) × (b ≡ true)
both-true a b h = ground (arith, h)

same_flags→≡ : (m n : Mask) → same_flags m n ≡ true → m ≡ n
same_flags→≡ m n h =
    let (p1, h1) = both-true _ _ h in
    let (p2, h2) = both-true _ _ h1 in
    let (p3, h3) = both-true _ _ h2 in
    let (p4, h4) = both-true _ _ h3 in
    let (p5, h5) = both-true _ _ h4 in
    let (p6, p7) = both-true _ _ h5 in
    λ i. record {
      pollin = alike→≡ m.pollin n.pollin p1 i;
      pollpri = alike→≡ m.pollpri n.pollpri p2 i;
      pollout = alike→≡ m.pollout n.pollout p3 i;
      pollhup = alike→≡ m.pollhup n.pollhup p4 i;
      pollrdhup = alike→≡ m.pollrdhup n.pollrdhup p5 i;
      pollerr = alike→≡ m.pollerr n.pollerr p6 i;
      pollnval = alike→≡ m.pollnval n.pollnval p7 i;
    }

-- The text of a mask names exactly its flags.
pub flags_of-events_to_string : (m : Mask) → flags_of (events_to_string m) ≡ m
unfolding reads_back
flags_of-events_to_string m =
    let h1 = every-true for_all_6 all_read_back m.pollin in
    let h2 = every-true (for_all_5 m.pollin) h1 m.pollpri in
    let h3 = every-true (for_all_4 m.pollin m.pollpri) h2 m.pollout in
    let h4 = every-true (for_all_3 m.pollin m.pollpri m.pollout) h3 m.pollhup in
    let h5 = every-true (for_all_2 m.pollin m.pollpri m.pollout m.pollhup) h4 m.pollrdhup in
    let h6 =
      every-true (for_all_1 m.pollin m.pollpri m.pollout m.pollhup m.pollrdhup) h5 m.pollerr in
    let h7 =
      every-true (reads_back m.pollin m.pollpri m.pollout m.pollhup m.pollrdhup m.pollerr) h6
        m.pollnval in
    same_flags→≡ (flags_of (events_to_string m)) m h7
