-- ===== src/Achd/Words.antt =====
-- Texts as the C code of src/achd compares and cuts them: lists of bytes without the 0 at the end.
use Prim.Native.Char.{code}
use Prim.Native.String.{String}
use ach.Base.{ℕ, ◌+◌, Bool, true, false, ◌&&◌, ◌||◌, not, List, [], ◌∷◌, leb, ◌==◌, if◌then◌else◌}

-- the bytes of a literal
abbrev pub codes : String → List ℕ
codes String.[] = []
codes (String.◌∷◌ c s) = code c ∷ codes s

-- `tolower`
abbrev pub to_lower : ℕ → ℕ
to_lower c = if leb b'A' c && leb c b'Z' then c + 32 else c

-- `0 == strcasecmp(a, b)`
abbrev pub same_word : List ℕ → List ℕ → Bool
same_word [] [] = true
same_word (a ∷ as_) (b ∷ bs) = (to_lower a == to_lower b) && same_word as_ bs
same_word _ _ = false

-- the text before the first `mark`
abbrev pub cut : (mark : ℕ) → List ℕ → List ℕ
cut mark [] = []
cut mark (c ∷ cs) = if c == mark then [] else c ∷ cut mark cs

-- `[[:blank:]\n\r]`
abbrev pub is_space : ℕ → Bool
is_space c = (c == b' ') || ((c == b'\t') || ((c == b'\n') || (c == b'\r')))

-- `[^:=\n]`
abbrev pub is_word : ℕ → Bool
is_word c = not (c == b':') && (not (c == b'=') && not (c == b'\n'))

abbrev pub all : (ℕ → Bool) → List ℕ → Bool
all p [] = true
all p (c ∷ cs) = p c && all p cs

abbrev pub skip_space : List ℕ → List ℕ
skip_space [] = []
skip_space (c ∷ cs) = if is_space c then skip_space cs else c ∷ cs
