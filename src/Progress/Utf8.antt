-- ===== src/Progress/Utf8.antt =====
-- `buffer.toString('utf-8')`, as server-setup/progress-tailer.ts uses it: bytes that are no UTF-8 become
-- U+FFFD, the way the WHATWG decoder puts it in.
use ai_support_agent_cli.Common.{
  ℕ, zero, suc, ◌+◌, ◌-◌, ◌*◌, Bool, List, [], ◌∷◌, ◌++◌, ◌≡◌, refl, sym, ap, ◌∙◌, if◌then◌else◌,
  ◌==◌, leb, append_assoc,
}
use ai_support_agent_cli.Common.Text.{Text, between}

-- Which bytes may come next.
pub data Range : Type 0 where
  any_next : Range
  from_a0 : Range
  to_9f : Range
  from_90 : Range
  to_8f : Range

-- Between characters, or inside one: the range of the next byte, the bits so far, and how many bytes are
-- to come after the next.
pub data State : Type 0 where
  start : State
  inside : Range → ℕ → ℕ → State

abbrev pub in_range : Range → ℕ → Bool
in_range any_next b = between 0x80 0xbf b
in_range from_a0 b = between 0xa0 0xbf b
in_range to_9f b = between 0x80 0x9f b
in_range from_90 b = between 0x90 0xbf b
in_range to_8f b = between 0x80 0x8f b

unfoldable pub first_byte : ℕ → State × Text
first_byte b =
    if leb b 0x7f
    then (start, b ∷ [])
    else if between 0xc2 0xdf b
    then (inside any_next (b - 0xc0) 0, [])
    else if between 0xe0 0xef b
    then (
      inside (if b == 0xe0 then from_a0 else if b == 0xed then to_9f else any_next) (b - 0xe0) 1,
      [],
    )
    else if between 0xf0 0xf4 b
    then (
      inside (if b == 0xf0 then from_90 else if b == 0xf4 then to_8f else any_next) (b - 0xf0) 2,
      [],
    )
    else (start, 0xfffd ∷ [])

unfoldable pub last_bits : ℕ → ℕ → State × Text
last_bits zero point = (start, point ∷ [])
last_bits (suc n) point = (inside any_next point n, [])

unfoldable pub next_byte : State → ℕ → State × Text
unfolding first_byte last_bits
next_byte start b = first_byte b
next_byte (inside r point n) b =
    if in_range r b
    then last_bits n (point * 64 + (b - 0x80))
    else let (s, out) = first_byte b in (s, 0xfffd ∷ out)

unfoldable pub decode_from : State → List ℕ → Text
unfolding next_byte
decode_from start [] = []
decode_from (inside r point n) [] = 0xfffd ∷ []
decode_from s (b ∷ bs) = (next_byte s b).1 ++ decode_from (next_byte s b).0 bs

unfoldable pub decode : List ℕ → Text
unfolding decode_from
decode bs = decode_from start bs

-- A newline ends whatever character was being read.
newline_next :
    (s : State) (ys : List ℕ)
    → decode_from s (10 ∷ ys) ≡ decode_from s [] ++ (10 ∷ decode_from start ys)
unfolding decode_from next_byte first_byte
newline_next start ys = refl
newline_next (inside any_next point n) ys = refl
newline_next (inside from_a0 point n) ys = refl
newline_next (inside to_9f point n) ys = refl
newline_next (inside from_90 point n) ys = refl
newline_next (inside to_8f point n) ys = refl

decode_from-newline :
    (s : State) (xs ys : List ℕ)
    → decode_from s (xs ++ (10 ∷ ys)) ≡ decode_from s xs ++ (10 ∷ decode_from start ys)
unfolding decode_from
decode_from-newline s [] ys = newline_next s ys
decode_from-newline s (b ∷ xs) ys =
    ap (λ (t : Text). (next_byte s b).1 ++ t) (decode_from-newline (next_byte s b).0 xs ys)
    ∙ sym (append_assoc (next_byte s b).1 _ _)

pub decode-newline : (xs ys : List ℕ) → decode (xs ++ (10 ∷ ys)) ≡ decode xs ++ (10 ∷ decode ys)
unfolding decode
decode-newline xs ys = decode_from-newline start xs ys

-- The text of the issue in the comment of the reader: a character of three bytes.
decode_computed : decode (0xe5 ∷ 0xae ∷ 0x9f ∷ []) ≡ 0x5b9f ∷ []
unfolding decode decode_from next_byte first_byte last_bits
decode_computed = refl
