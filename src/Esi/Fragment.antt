-- ===== src/Esi/Fragment.antt =====
-- The descriptor of an ESI tag (proto/titip.proto, EsiFragment), and the tags of esi/scanner.go.
use titip.Prelude.{ℕ, ◌≤◌, List, [], ◌∷◌, Bool, ◌||◌, ◌==◌}
use titip.Text.{Text, codes}

pub record Fragment : Type 0 where
  pub start_pos : ℕ
  pub end_pos : ℕ
  pub src : Text
  pub alt : Text
  pub on_error : Text
  pub max_depth : ℕ
  pub timeout_ms : ℕ
  pub inner_start_pos : ℕ
  pub inner_end_pos : ℕ

-- A fragment with no source and no inner block: the bytes from `a` to `b` are to be removed.
abbrev pub strip : ℕ → ℕ → Fragment
strip a b = record {
  start_pos = a;
  end_pos = b;
  src = [];
  alt = [];
  on_error = [];
  max_depth = 0;
  timeout_ms = 0;
  inner_start_pos = 0;
  inner_end_pos = 0;
}

abbrev pub tag_include_open : Text
tag_include_open = codes "<esi:include"

abbrev pub tag_include_close : Text
tag_include_close = codes "</esi:include>"

abbrev pub tag_remove_open : Text
tag_remove_open = codes "<esi:remove"

abbrev pub tag_remove_close : Text
tag_remove_close = codes "</esi:remove>"

abbrev pub tag_comment_open : Text
tag_comment_open = codes "<esi:comment"

abbrev pub tag_comment_close : Text
tag_comment_close = codes "</esi:comment>"

abbrev pub tag_inline_comment : Text
tag_inline_comment = codes "<!--esi"

abbrev pub tag_html_comment_close : Text
tag_html_comment_close = codes "-->"

-- `isASCIIWhitespace`
unfoldable pub is_ascii_whitespace : ℕ → Bool
is_ascii_whitespace c = c == b' ' || c == b'\t' || c == b'\n' || c == b'\r'

-- A fragment has its end behind its start, and its inner block, where it has one, inside itself.
pub record IsFragment (f : Fragment) : Type 0 where
  pub start_le_end : f.start_pos ≤ f.end_pos
  pub inner_le : f.inner_start_pos ≤ f.inner_end_pos
  pub inner_in : f.inner_end_pos ≤ f.end_pos

-- The fragments stand between `lo` and `hi`, one behind the other, with no overlap.
abbrev pub Ordered : ℕ → ℕ → List Fragment → Type 0
Ordered lo hi [] = lo ≤ hi
Ordered lo hi (f ∷ fs) = (lo ≤ f.start_pos) × IsFragment f × Ordered f.end_pos hi fs
