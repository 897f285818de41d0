-- ===== src/Config.antt =====
-- internal/env/env.go and the Config of each service. The process environment is a function from a name to a value, which
-- is empty for a variable that is not set.
pub mod Estimator
pub mod Voyage
pub mod Gateway
use Prim.Native.String
use Prim.Native.Char.{Char, code}
use maritime_test_lab.Prelude.{
  ℕ, String, Bool, true, false, List, [], ◌∷◌, if◌then◌else◌, str_eq, ◌==◌, ◌||◌, ◌&&◌, leb, not,
}

abbrev pub Environment : Type 0
Environment = String → String

unfoldable pub or : Environment → String → String → String
or getenv key def = if str_eq (getenv key) "" then def else getenv key

-- the characters of Unicode's White_Space
abbrev pub is_space : Char → Bool
is_space c =
    (leb 9 (code c) && leb (code c) 13)
    || (code c == 32
        || (code c == 133
            || (code c == 160
                || (code c == 5760
                    || ((leb 8192 (code c) && leb (code c) 8202)
                        || (code c == 8232
                            || (code c == 8233
                                || (code c == 8239 || (code c == 8287 || code c == 12288)))))))))

unfoldable pub trim_left : String → String
trim_left String.[] = ""
trim_left (String.◌∷◌ c s) = if is_space c then trim_left s else String.◌∷◌ c s

-- without the spaces at the end
unfoldable pub trim_right : String → String
trim_right String.[] = ""
trim_right (String.◌∷◌ c s) =
    let rest = trim_right s in if is_space c && str_eq rest "" then "" else String.◌∷◌ c rest

-- `strings.TrimSpace`
unfoldable pub trim_space : String → String
unfolding trim_left trim_right
trim_space s = trim_right (trim_left s)

-- a character before the first of the parts
abbrev pub onto_first : Char → List String → List String
onto_first c [] = (String.◌∷◌ c "") ∷ []
onto_first c (p ∷ ps) = (String.◌∷◌ c p) ∷ ps

-- `strings.Split(s, ",")`: one part more than there are commas
unfoldable pub split_commas : String → List String
split_commas String.[] = "" ∷ []
split_commas (String.◌∷◌ c s) =
    let rest = split_commas s in if code c == 44 then "" ∷ rest else onto_first c rest

-- the loop of `List`
unfoldable pub keep_items : List String → List String
unfolding trim_space
keep_items [] = []
keep_items (p ∷ ps) =
    let rest = keep_items ps in if str_eq (trim_space p) "" then rest else trim_space p ∷ rest

unfoldable pub list : Environment → String → String → List String
unfolding split_commas keep_items or
list getenv key def = keep_items (split_commas (or getenv key def))
