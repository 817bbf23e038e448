-- ===== src/Base/Texts.antt =====
-- Strings as the source measures and orders them.
use Prim.Native.Char.{code}
use Prim.Native.String.{String}
use Prim.Native.Nat.{ℕ, ◌+◌}
use mathlib.Core.Bool.{Bool, true, false, ◌&&◌, ◌||◌}
use mathlib.Core.List.{List, [], ◌∷◌}
use woodland_sh.Base.Tests.{ltb, leb, nat_beq, if◌then◌else◌}

abbrev pub codes : String → List ℕ
codes String.[] = []
codes (String.◌∷◌ c s) = code c ∷ codes s

-- `str::len` of the characters: their bytes in UTF-8.
abbrev pub utf8_len : List ℕ → ℕ
utf8_len [] = 0
utf8_len (c ∷ rest) =
    (if ltb c 0x80 then 1 else if ltb c 0x800 then 2 else if ltb c 0x10000 then 3 else 4)
    + utf8_len rest

-- `Ord` of strings. The order of their UTF-8 bytes is that of their characters' codes.
abbrev pub codes_before : List ℕ → List ℕ → Bool
codes_before [] [] = false
codes_before [] (d ∷ t) = true
codes_before (c ∷ s) [] = false
codes_before (c ∷ s) (d ∷ t) = ltb c d || (nat_beq c d && codes_before s t)

abbrev pub text_before : String → String → Bool
text_before s t = codes_before (codes s) (codes t)

-- `char::is_whitespace`
abbrev pub is_whitespace : ℕ → Bool
is_whitespace c =
    (leb 0x09 c && leb c 0x0D)
    || (nat_beq c 0x20
        || (nat_beq c 0x85
            || (nat_beq c 0xA0
                || (nat_beq c 0x1680
                    || ((leb 0x2000 c && leb c 0x200A)
                        || (nat_beq c 0x2028
                            || (nat_beq c 0x2029
                                || (nat_beq c 0x202F
                                    || (nat_beq c 0x205F || nat_beq c 0x3000)))))))))

abbrev pub all_codes : (ℕ → Bool) → List ℕ → Bool
all_codes p [] = true
all_codes p (c ∷ rest) = p c && all_codes p rest

abbrev pub any_code : (ℕ → Bool) → List ℕ → Bool
any_code p [] = false
any_code p (c ∷ rest) = p c || any_code p rest
