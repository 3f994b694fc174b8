-- ===== src/Storage/Path.antt =====
-- Slash-separated paths: what the program uses of path/filepath (`Clean`, `Join`).
pub mod Normal
use opendebrid.Prelude.{
  ℕ, Bool, true, false, not, ◌&&◌, ◌||◌, List, [], ◌∷◌, ◌++◌, Text, codes, eq_text, is_empty, All,
  ◌==◌, if◌then◌else◌,
}

-- The components between the slashes, with `part` in front of the first.
abbrev pub split_from : Text → Text → List Text
split_from part [] = part ∷ []
split_from part (c ∷ s) =
    let rest = split_from [] s in
    let more = split_from (part ++ c ∷ []) s in if c == b'/' then part ∷ rest else more

abbrev pub split : Text → List Text
split s = split_from [] s

-- Each component behind a slash.
abbrev pub print : List Text → Text
print [] = []
print (p ∷ ps) = b'/' ∷ (p ++ print ps)

-- Without the slash in front.
abbrev pub print_relative : List Text → Text
print_relative [] = []
print_relative (p ∷ ps) = p ++ print ps

abbrev pub is_dot : Text → Bool
is_dot p = is_empty p || eq_text p (codes ".")

abbrev pub is_dot_dot : Text → Bool
is_dot_dot p = eq_text p (codes "..")

-- The components so far, the last one first: ".." takes the last one away, and stays where a path that is
-- not rooted has none.
abbrev pub go_up : Bool → List Text → List Text
go_up true [] = []
go_up false [] = codes ".." ∷ []
go_up rooted (p ∷ ps) = if is_dot_dot p then codes ".." ∷ p ∷ ps else ps

abbrev pub step : Bool → List Text → Text → List Text
step rooted done p = if is_dot p then done else if is_dot_dot p then go_up rooted done else p ∷ done

abbrev pub steps : Bool → List Text → List Text → List Text
steps rooted done [] = done
steps rooted done (p ∷ ps) = steps rooted (step rooted done p) ps

abbrev pub reverse_onto : List Text → List Text → List Text
reverse_onto acc [] = acc
reverse_onto acc (p ∷ ps) = reverse_onto (p ∷ acc) ps

abbrev pub components : Bool → Text → List Text
components rooted s = reverse_onto [] (steps rooted [] (split s))

abbrev pub printed : Bool → List Text → Text
printed true [] = codes "/"
printed true (p ∷ ps) = print (p ∷ ps)
printed false [] = codes "."
printed false (p ∷ ps) = print_relative (p ∷ ps)

abbrev pub is_rooted : Text → Bool
is_rooted [] = false
is_rooted (c ∷ s) = c == b'/'

-- `filepath.Clean`
unfoldable pub clean : Text → Text
clean s = printed (is_rooted s) (components (is_rooted s) s)

-- `filepath.Join` of two elements.
unfoldable pub join : Text → Text → Text
join [] [] = []
join [] (d ∷ t) = clean (d ∷ t)
join (c ∷ s) t = clean (c ∷ (s ++ b'/' ∷ t))
