-- ===== src/Base/Texts.antt =====
-- Python's `str` methods that the source calls, on a text as a list of characters.
use Prim.Native.Nat.{ℕ, zero, suc}
use Prim.Native.Char.{Char, code}
use Prim.Native.String.{String, ◌++◌}
use mathlib.Core.Bool.{Bool, true, false, ◌&&◌, ◌||◌}
use mathlib.Core.List.{List, [], ◌∷◌}
use administrative_orchestra.Base.Tests.{leb, nat_beq, if◌then◌else◌}

-- `str.isspace` on one character: the white space of Unicode and the separators 28 to 31.
unfoldable pub is_space : ℕ → Bool
is_space c =
    (leb 9 c && leb c 13)
    || ((leb 28 c && leb c 32)
        || (nat_beq c 0x85
            || (nat_beq c 0xa0
                || (nat_beq c 0x1680
                    || ((leb 0x2000 c && leb c 0x200a)
                        || (nat_beq c 0x2028
                            || (nat_beq c 0x2029
                                || (nat_beq c 0x202f
                                    || (nat_beq c 0x205f || nat_beq c 0x3000)))))))))

unfoldable pub strip_left : String → String
unfolding is_space
strip_left String.[] = String.[]
strip_left (String.◌∷◌ c s) = if is_space (code c) then strip_left s else String.◌∷◌ c s

abbrev is_nil : String → Bool
is_nil String.[] = true
is_nil (String.◌∷◌ c s) = false

-- White space at the end goes with the characters behind it.
unfoldable pub strip_right : String → String
unfolding is_space
strip_right String.[] = String.[]
strip_right (String.◌∷◌ c s) =
    let rest = strip_right s in
    if is_space (code c) && is_nil rest then String.[] else String.◌∷◌ c rest

-- `s.strip()`
unfoldable pub strip : String → String
unfolding strip_left strip_right
strip s = strip_right (strip_left s)

-- `bool(s)`, negated
abbrev pub is_blank : String → Bool
is_blank String.[] = true
is_blank (String.◌∷◌ c s) = false

-- A final `Z` becomes `+00:00`.
unfoldable pub zulu_to_offset : String → String
zulu_to_offset String.[] = String.[]
zulu_to_offset (String.◌∷◌ c String.[]) =
    if nat_beq (code c) b'Z' then "+00:00" else String.◌∷◌ c String.[]
zulu_to_offset (String.◌∷◌ c (String.◌∷◌ d s)) = String.◌∷◌ c (zulu_to_offset (String.◌∷◌ d s))

-- `s[:n]`
unfoldable pub truncate : ℕ → String → String
truncate zero s = String.[]
truncate (suc n) String.[] = String.[]
truncate (suc n) (String.◌∷◌ c s) = String.◌∷◌ c (truncate n s)

-- Text concatenation, as in an f-string.
abbrev pub concat : String → String → String
concat s t = s ++ t

-- The character of `lowers` at the place where `uppers` has `c`, or `c`.
lowered : String → String → Char → Char
lowered String.[] lowers c = c
lowered (String.◌∷◌ u us) String.[] c = c
lowered (String.◌∷◌ u us) (String.◌∷◌ l ls) c =
    if nat_beq (code c) (code u) then l else lowered us ls c

-- `s.lower()` on the letters A to Z.
unfoldable pub lower : String → String
unfolding lowered
lower String.[] = String.[]
lower (String.◌∷◌ c s) =
    String.◌∷◌ (lowered "ABCDEFGHIJKLMNOPQRSTUVWXYZ" "abcdefghijklmnopqrstuvwxyz" c) (lower s)

-- `"".join(parts)`, and an f-string with its parts.
abbrev pub join : List String → String
join [] = ""
join (part ∷ parts) = concat part (join parts)
