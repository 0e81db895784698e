-- ===== src/Business/Start/Config.antt =====
-- What loadDbConfig of server/business/BusinessServer.cpp reads back of a file of settings.
use Prim.Native.Char.{Char, code}
use Prim.Native.String.{String, ◌++◌}
use Prim.Native.String.append
use text.Mathlib.Text.{◌==◌ as str_eq}
use qinyunserver.Base.{
  ◌≡◌, ◌≢◌, refl, ap, ◌∙◌, none, some, List, [], ◌∷◌, if◌then◌else◌, map, All, ne→not_==,
}
use qinyunserver.Business.Start.{Config, set, split_line, read_lines, load_db_config}

-- A key holds no '='.
abbrev pub IsKey : String → Type 0
IsKey String.[] = Unit {0}
IsKey (String.◌∷◌ c s) = (code c ≢ b'=') × IsKey s

abbrev pub line_of : String × String → String
line_of (key, val) = key ++ ("=" ++ val)

append_nil : (t : String) → "" ++ t ≡ t
append_nil t = λ i. append.nil t i

append_cons : (c : Char) (s t : String) → String.◌∷◌ c s ++ t ≡ String.◌∷◌ c (s ++ t)
append_cons c s t = λ i. append.cons c s t i

equals : (val : String) → "=" ++ val ≡ String.◌∷◌ "=" val
equals val = append_cons "=" "" val ∙ ap (String.◌∷◌ "=") (append_nil val)

split_line-line_of :
    (key val : String) → IsKey key → split_line (key ++ ("=" ++ val)) ≡ some (key, val)
unfolding split_line
split_line-line_of String.[] val k = ap split_line (append_nil ("=" ++ val) ∙ equals val)
split_line-line_of (String.◌∷◌ c s) val k =
    ap split_line (append_cons c s ("=" ++ val))
    ∙ rw (split_line, ne→not_== (code c) b'=' k.0, split_line-line_of s val k.1) refl

-- The value of the last setting of a key.
abbrev pub last_setting : String → List (String × String) → String → String
last_setting k [] otherwise = otherwise
last_setting k ((key, val) ∷ settings) otherwise =
    last_setting k settings (if str_eq k key then val else otherwise)

read_lines-line_of :
    (settings : List (String × String)) (cfg : Config) (k : String)
    → All (λ s. IsKey s.0) settings
    → read_lines (map line_of settings) cfg k ≡ last_setting k settings (cfg k)
unfolding read_lines
read_lines-line_of [] cfg k h = refl
read_lines-line_of ((key, val) ∷ settings) cfg k h =
    rw (split_line-line_of key val h.0, read_lines)
      (read_lines-line_of settings (set key val cfg) k h.1)

-- A file of settings, each a line of a key without '=', an '=' and a value, is read back: a key has
-- the value of its last setting, and a key that has none, or any key where the file cannot be opened,
-- the empty text.
pub load_db_config_lem :
    (settings : List (String × String)) (k : String)
    → All (λ s. IsKey s.0) settings
    → (load_db_config (some (map line_of settings)) k ≡ last_setting k settings "")
      × (load_db_config none k ≡ "")
unfolding load_db_config
load_db_config_lem settings k h = (read_lines-line_of settings (λ k. "") k h, refl)
