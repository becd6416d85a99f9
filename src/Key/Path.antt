-- ===== src/Key/Path.antt =====
-- cache_key.go: the path of a key, with `path.Clean` of the standard library.
use titip.Prelude.{Bool, false, not, ◌&&◌, ◌||◌, List, [], ◌∷◌, ◌++◌, reverse, ◌==◌, if◌then◌else◌}
use titip.Text.{Text, codes, ◌==ₜ◌, split, join, to_lower}
use titip.Http.{is_empty}
use titip.Key.Escape.{path_escape}

-- The segment `..`: it takes back the last segment that is kept; where there is none it is kept in
-- a relative path, and dropped in a rooted one. The segments kept are in reverse.
abbrev pub parent_of : Bool → List Text → List Text
parent_of rooted [] = if rooted then [] else codes ".." ∷ []
parent_of rooted (s ∷ ss) = if s ==ₜ codes ".." then codes ".." ∷ s ∷ ss else ss

unfoldable pub clean_segments : Bool → List Text → List Text → List Text
clean_segments rooted kept [] = kept
clean_segments rooted kept (s ∷ ss) =
    let skip = clean_segments rooted kept ss in
    let up = clean_segments rooted (parent_of rooted kept) ss in
    let down = clean_segments rooted (s ∷ kept) ss in
    if is_empty s || s ==ₜ codes "." then skip else if s ==ₜ codes ".." then up else down

abbrev pub is_rooted : Text → Bool
is_rooted [] = false
is_rooted (c ∷ cs) = c == b'/'

abbrev pub or_dot : Text → Text
or_dot [] = codes "."
or_dot (c ∷ cs) = c ∷ cs

-- `path.Clean`
unfoldable pub clean : Text → Text
unfolding clean_segments
clean p =
    let segments = join (codes "/") (reverse (clean_segments (is_rooted p) [] (split b'/' p))) in
    or_dot (if is_rooted p then b'/' ∷ segments else segments)

abbrev pub ends_in_slash : Text → Bool
ends_in_slash p = is_rooted (reverse p)

-- The path of `generatePrimaryKey` before it is escaped.
unfoldable pub cleaned_path : Bool → Text → Text
unfolding clean
cleaned_path lower path =
    let raw = if is_empty path then codes "/" else path in
    let c = clean raw in
    let slashed =
      if c ==ₜ codes "."
      then codes "/"
      else if ends_in_slash raw && not (ends_in_slash c)
      then c ++ codes "/"
      else c in
    if lower then to_lower slashed else slashed

abbrev pub escaped_segments : List Text → Text
escaped_segments [] = []
escaped_segments (s ∷ ss) = b'/' ∷ (path_escape s ++ escaped_segments ss)

abbrev pub without_slash : Text → Text
without_slash [] = []
without_slash (c ∷ cs) = if c == b'/' then cs else c ∷ cs

-- `writeEscapedPath`
unfoldable pub write_escaped_path : Text → Text
unfolding path_escape
write_escaped_path p =
    let trimmed = without_slash p in
    if is_empty trimmed then codes "/" else escaped_segments (split b'/' trimmed)
