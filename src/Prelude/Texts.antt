-- ===== src/Prelude/Texts.antt =====
-- Python strings, as the source uses them: `strip`, `rstrip("/")`, `"/" in s`, truth, and the key
-- `f"{a}/{b}"`. `str.lower` follows the interpreter's Unicode tables: it is an argument where used.
use Prim.Native.Nat.{ℕ}
use Prim.Native.Char.{Char, code}
use Prim.Native.String.{String, [], ◌∷◌}
use mathlib.Core.Path.{◌≡◌, refl, sym, ap}
use mathlib.Core.Bool.{Bool, true, false, ◌&&◌, ◌||◌, not}
use native.Mathlib.Omega.{arith}
use mathlib.Core.Logic.{inl, inr}
use apparitor.Prelude.Tests.{eqb, leb, if◌then◌else◌, Bool-cases}

-- The code points for which `str.isspace` holds.
unfoldable pub is_space : ℕ → Bool
is_space c =
    (leb 9 c && leb c 13)
    || (leb 28 c && leb c 32)
    || eqb c 0x85
    || eqb c 0xa0
    || eqb c 0x1680
    || (leb 0x2000 c && leb c 0x200a)
    || eqb c 0x2028
    || eqb c 0x2029
    || eqb c 0x202f
    || eqb c 0x205f
    || eqb c 0x3000

abbrev pub is_empty : String → Bool
is_empty [] = true
is_empty (c ∷ s) = false

-- A string as a condition: true unless empty.
abbrev pub nonempty : String → Bool
nonempty s = not (is_empty s)

unfoldable pub lstrip : String → String
lstrip [] = []
lstrip (c ∷ s) = if is_space (code c) then lstrip s else c ∷ s

-- One character in front of a stripped rest; it goes too if nothing is behind it.
abbrev pub rstrip_step : Char → String → String
rstrip_step c [] = if is_space (code c) then [] else c ∷ []
rstrip_step c (d ∷ r) = c ∷ d ∷ r

unfoldable pub rstrip : String → String
rstrip [] = []
rstrip (c ∷ s) = rstrip_step c (rstrip s)

unfoldable pub strip : String → String
unfolding lstrip rstrip is_space
strip s = rstrip (lstrip s)

-- `ch in s`, for one character.
unfoldable pub contains : ℕ → String → Bool
contains k [] = false
contains k (c ∷ s) = eqb (code c) k || contains k s

unfoldable pub concat : String → String → String
concat [] t = t
concat (c ∷ s) t = c ∷ concat s t

unfoldable pub slash_join : String → String → String
unfolding concat
slash_join a b = concat a (concat "/" b)

-- `rstrip` leaves a text alone that does not end in a space.
rstrip-rstrip_step :
    (c : Char) (r : String) → rstrip r ≡ r → rstrip (rstrip_step c r) ≡ rstrip_step c r
unfolding rstrip
rstrip-rstrip_step c [] h = elim (Bool-cases (is_space (code c))) [
  | inl e ↦ rw e
  | inr e ↦ rw e (rw e)
]
rstrip-rstrip_step c (d ∷ r) h = ground (arith, h)

rstrip_idem : (s : String) → rstrip (rstrip s) ≡ rstrip s
unfolding rstrip
rstrip_idem [] = refl
rstrip_idem (c ∷ s) = rstrip-rstrip_step c (rstrip s) (rstrip_idem s)

lstrip-rstrip_step :
    (c : Char) (r : String) → is_space (code c) ≡ false → lstrip (rstrip_step c r) ≡ rstrip_step c r
unfolding lstrip
lstrip-rstrip_step c [] e = rw e (rw e)
lstrip-rstrip_step c (d ∷ r) e = rw e

lstrip-rstrip-lstrip : (s : String) → lstrip (rstrip (lstrip s)) ≡ rstrip (lstrip s)
unfolding lstrip rstrip
lstrip-rstrip-lstrip [] = refl
lstrip-rstrip-lstrip (c ∷ s) = elim (Bool-cases (is_space (code c))) [
  | inl e ↦ rw e (lstrip-rstrip-lstrip s)
  | inr e ↦ rw e (lstrip-rstrip_step c (rstrip s) e)
]

pub strip_idem : (s : String) → strip (strip s) ≡ strip s
unfolding strip
strip_idem s = rw lstrip-rstrip-lstrip (rstrip_idem (lstrip s))

head_code : String → ℕ
head_code [] = 0
head_code (c ∷ s) = code c

contains-head : (k : ℕ) (c : Char) (s : String) → k ≡ code c → contains k (c ∷ s) ≡ true
unfolding contains
contains-head k c s h = ground arith

-- Two texts that are joined at a character are equal only if their parts are, when the character
-- stands in neither first part.
pub concat-injective :
    (k : Char) (a b a' b' : String)
    → contains (code k) a ≡ false
    → contains (code k) a' ≡ false
    → concat a (k ∷ b) ≡ concat a' (k ∷ b')
    → (a ≡ a') × (b ≡ b')
unfolding concat contains head_code
concat-injective k [] b [] b' h h' e = (refl, ground (arith, e))
concat-injective k [] b (c ∷ a') b' h h' e =
    absurd (cc (h', contains-head (code k) c a' (ap head_code e)))
concat-injective k (c ∷ a) b [] b' h h' e =
    absurd (cc (h, contains-head (code k) c a (sym (ap head_code e))))
concat-injective k (c ∷ a) b (d ∷ a') b' h h' e =
    let (p, q) = concat-injective k a b a' b' (ground arith) (ground arith) (ground arith) in
    (ground (arith, p), q)

-- Two keys `a/b` are equal only if their parts are, when no first part holds a slash.
pub slash_join-injective :
    (a b a' b' : String)
    → contains b'/' a ≡ false
    → contains b'/' a' ≡ false
    → slash_join a b ≡ slash_join a' b'
    → (a ≡ a') × (b ≡ b')
unfolding slash_join concat
slash_join-injective a b a' b' h h' e = concat-injective "/" a b a' b' h h' e
