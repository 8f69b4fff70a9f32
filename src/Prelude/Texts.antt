-- ===== src/Prelude/Texts.antt =====
-- Names and other texts: equality tests, and membership in a list of names.
use Prim.Native.Nat.{compare, Ordering}
use Prim.Native.Char.{Char, code}
use songbird_prototypes.Prelude.Tests.{eqb, if◌then◌else◌}
use Prim.Native.String.{String, ◌++◌ as ◌then_text◌}
use mathlib.Core.Path.{◌≡◌, refl}
use mathlib.Core.Logic.{◌≢◌}
use mathlib.Core.Bool.{true, Bool, false, ◌||◌}
use mathlib.Core.List.{List, [], ◌∷◌, ◌++◌}
use native.Mathlib.Omega.{arith}
pub use text.Mathlib.Text.{◌==◌}
pub use text.Mathlib.TextEquality.{eq_iff}
pub use text.Mathlib.TextPositions.{eq_refl}

-- `slices.Contains` on names.
abbrev pub contains : List String → String → Bool
contains [] n = false
contains (x ∷ xs) n = x == n || contains xs n

pub contains-append :
    (xs ys : List String) (n : String) → contains (xs ++ ys) n ≡ (contains xs n || contains ys n)
contains-append [] ys n = refl
contains-append (x ∷ xs) ys n = ground (arith, contains-append xs ys n)

pub ==_sym : (s t : String) → (s == t) ≡ (t == s)
==_sym s t = ground (arith, eq_iff s t, eq_iff t s)

abbrev lt_then : Ordering → Bool → Bool
lt_then Ordering.lt rest = true
lt_then Ordering.eq rest = rest
lt_then Ordering.gt rest = false

-- Go's `<` on strings: the order of their UTF-8 bytes, which is that of their code points.
unfoldable pub text_lt : String → String → Bool
text_lt String.[] String.[] = false
text_lt String.[] (String.◌∷◌ d t) = true
text_lt (String.◌∷◌ c s) String.[] = false
text_lt (String.◌∷◌ c s) (String.◌∷◌ d t) = lt_then (compare (code c) (code d)) (text_lt s t)

-- The order is a strict weak one: irreflexive, asymmetric, and cotransitive.
pub text_lt_irrefl : (s : String) → text_lt s s ≡ false
unfolding text_lt
text_lt_irrefl String.[] = refl
text_lt_irrefl (String.◌∷◌ c s) = ground (arith, text_lt_irrefl s)

pub text_lt_asym : (s t : String) → text_lt s t ≡ true → text_lt t s ≡ false
unfolding text_lt
text_lt_asym String.[] String.[] h = cc
text_lt_asym String.[] (String.◌∷◌ d t) h = refl
text_lt_asym (String.◌∷◌ c s) String.[] h = cc
text_lt_asym (String.◌∷◌ c s) (String.◌∷◌ d t) h = ground (arith, text_lt_asym s t)

pub text_lt_cotrans : (s t u : String) → text_lt s u ≡ true → (text_lt s t || text_lt t u) ≡ true
unfolding text_lt
text_lt_cotrans String.[] String.[] u h = h
text_lt_cotrans String.[] (String.◌∷◌ d t) u h = refl
text_lt_cotrans (String.◌∷◌ c s) t String.[] h = cc
text_lt_cotrans (String.◌∷◌ c s) String.[] (String.◌∷◌ e u) h = refl
text_lt_cotrans (String.◌∷◌ c s) (String.◌∷◌ d t) (String.◌∷◌ e u) h =
    ground (arith, text_lt_cotrans s t u)

-- Texts joined end to end.
abbrev pub concat : List String → String
concat [] = ""
concat (s ∷ []) = s
concat (s ∷ rest) = ◌then_text◌ s (concat rest)

pub ne_of_test : (s t : String) → (s == t) ≡ false → s ≢ t
ne_of_test s t h e = ground (arith, eq_iff s t)

-- `strings.Join`.
abbrev pub join : String → List String → String
join sep [] = ""
join sep (s ∷ []) = s
join sep (s ∷ rest) = concat (s ∷ sep ∷ join sep rest ∷ [])

abbrev escaped : String → String
escaped String.[] = ""
escaped (String.◌∷◌ c s) =
    if eqb (code c) 34
    then ◌then_text◌ "\\\"" (escaped s)
    else if eqb (code c) 92
    then ◌then_text◌ "\\\\" (escaped s)
    else String.◌∷◌ c (escaped s)

-- The verb %q on a text whose characters print as they are.
unfoldable pub quoted : String → String
quoted s = concat ("\"" ∷ escaped s ∷ "\"" ∷ [])

abbrev small_in : Char → String → String → Char
small_in c (String.◌∷◌ u us) (String.◌∷◌ l ls) =
    if eqb (code c) (code u) then l else small_in c us ls
small_in c _ _ = c

-- `strings.ToLower` on ASCII.
unfoldable pub to_lower : String → String
to_lower String.[] = ""
to_lower (String.◌∷◌ c s) =
    String.◌∷◌ (small_in c "ABCDEFGHIJKLMNOPQRSTUVWXYZ" "abcdefghijklmnopqrstuvwxyz") (to_lower s)

insert_text : String → List String → List String
insert_text s [] = s ∷ []
insert_text s (t ∷ ts) = if text_lt t s then t ∷ insert_text s ts else s ∷ t ∷ ts

-- `slices.Sort` and `sort.Strings`.
unfoldable pub sort_texts : List String → List String
unfolding insert_text
sort_texts [] = []
sort_texts (s ∷ ss) = insert_text s (sort_texts ss)
