-- ===== src/Text.antt =====
-- Texts as lists of code points, and normalizeSku of lib/sync/mappings.ts.
-- A SKU is a text of ASCII characters: on those NFKC changes nothing and toUpperCase shifts a-z.
pub mod Laws
mod Tests
use Prim.Native.Char.{code}
use Prim.Native.String.{String}
use store_kiotviet.Base.{
  ℕ, ◌-◌, Bool, true, false, ◌&&◌, ◌||◌, Option, none, some, List, [], ◌∷◌, map, leb, ◌==◌,
  if◌then◌else◌, any_of, is_empty,
}

abbrev pub Text : Type 0
Text = List ℕ

-- The code points of a literal.
abbrev pub codes : String → Text
codes String.[] = []
codes (String.◌∷◌ c s) = code c ∷ codes s

abbrev pub text_eq : Text → Text → Bool
text_eq [] [] = true
text_eq [] (b ∷ t) = false
text_eq (a ∷ s) [] = false
text_eq (a ∷ s) (b ∷ t) = a == b && text_eq s t

-- A `Set` of texts, as a list.
abbrev pub has_text : Text → List Text → Bool
has_text s ts = any_of (text_eq s) ts

-- The white space that `String.prototype.trim` removes.
is_space : ℕ → Bool
is_space c =
    leb 9 c && leb c 13
    || c == 32
    || c == 160
    || c == 5760
    || leb 8192 c && leb c 8202
    || c == 8232
    || c == 8233
    || c == 8239
    || c == 8287
    || c == 12288
    || c == 65279

trim_start : Text → Text
unfolding is_space
trim_start [] = []
trim_start (c ∷ s) = if is_space c then trim_start s else c ∷ s

-- A space at the head of what is left belongs to the white space at the end.
drop_if_blank : ℕ → Text → Text
drop_if_blank c s = if is_space c && is_empty s then [] else c ∷ s

trim_end : Text → Text
unfolding drop_if_blank is_space
trim_end [] = []
trim_end (c ∷ s) = drop_if_blank c (trim_end s)

unfoldable pub trim : Text → Text
unfolding trim_start trim_end
trim s = trim_end (trim_start s)

to_upper : ℕ → ℕ
to_upper c = if leb b'a' c && leb c b'z' then c - 32 else c

-- `toUpperCase` on ASCII text.
unfoldable pub upper : Text → Text
unfolding to_upper
upper s = map to_upper s

unfoldable pub normalize_sku : Option Text → Text
unfolding trim to_upper
normalize_sku none = []
normalize_sku (some s) = map to_upper (trim s)
