-- ===== src/Cluster/Validate/Names.antt =====
-- The texts that validateOptions and Validate of cluster.go take apart.
use Prim.Native.Char.{Char, code}
use Prim.Native.String.{[], ◌∷◌}
use cke.Prelude.{ℕ, suc, String, Bool, true, ◌&&◌, ◌||◌, leb, ◌==◌, if◌then◌else◌}

-- The characters of a file name.
abbrev is_name_char : Char → Bool
is_name_char c =
    (leb 48 (code c) && leb (code c) 57)
    || ((leb 65 (code c) && leb (code c) 90)
        || ((leb 97 (code c) && leb (code c) 122)
            || (code c == 95 || (code c == 46 || code c == 45))))

unfoldable pub all_name_chars : String → Bool
all_name_chars [] = true
all_name_chars (c ∷ s) = is_name_char c && all_name_chars s

-- filepath.Ext: the text from the last dot after the last slash.
unfoldable pub ext_from : String → String → String
ext_from found [] = found
ext_from found (c ∷ s) =
    ext_from (if code c == 46 then c ∷ s else if code c == 47 then "" else found) s

-- The number of the fields that strings.Split makes at the slashes.
unfoldable pub fields : String → ℕ
fields [] = 1
fields (c ∷ s) = if code c == 47 then suc (fields s) else fields s
