-- ===== src/Services/Monitoring/Label.antt =====
-- `_escape_label_value` of app/services/monitoring_service.py, and what a reader of the text format
-- makes of it. A text is the list of its code points.
use Prim.Native.Char.{code}
use uav_dag_offload_platform.Common.{
  ℕ, ◌≡◌, refl, ap, ◌∙◌, String, Bool, true, false, not, Option, none, some, List, [], ◌∷◌, ◌++◌,
  arith, eqb, if◌then◌else◌,
}
use uav_dag_offload_platform.Db.Table.{all_rows}

abbrev pub Text : Type 0
Text = List ℕ

abbrev pub codes : String → Text
codes String.[] = []
codes (String.◌∷◌ c s) = code c ∷ codes s

abbrev pub newline : ℕ
newline = 10

abbrev pub quote : ℕ
quote = b'"'

abbrev backslash : ℕ
backslash = b'\\'

-- str.replace, of one character.
unfoldable replace : ℕ → Text → Text → Text
replace old new [] = []
replace old new (c ∷ text) =
    let rest = replace old new text in if eqb c old then new ++ rest else c ∷ rest

unfoldable pub escape_label_value : Text → Text
unfolding replace
escape_label_value value =
    replace quote (backslash ∷ quote ∷ []) (
      replace newline (backslash ∷ b'n' ∷ [])
        (replace backslash (backslash ∷ backslash ∷ []) value))

-- The format's own account of escaping, one character at a time.
unfoldable escaped : ℕ → Text
escaped c =
    if eqb c backslash
    then backslash ∷ backslash ∷ []
    else if eqb c newline
    then backslash ∷ b'n' ∷ []
    else if eqb c quote
    then backslash ∷ quote ∷ []
    else c ∷ []

-- The character that follows a backslash.
unfoldable unescaped : ℕ → Option ℕ
unescaped c =
    if eqb c backslash
    then some backslash
    else if eqb c b'n'
    then some newline
    else if eqb c quote
    then some quote
    else none

abbrev with_first : ℕ → Option (Text × Text) → Option (Text × Text)
with_first c none = none
with_first c (some (value, rest)) = some (c ∷ value, rest)

abbrev with_unescaped : Option ℕ → Option (Text × Text) → Option (Text × Text)
with_unescaped none read = none
with_unescaped (some c) read = with_first c read

-- A reader of the text format: the label value up to the quote that ends it, and what follows.
-- Whether the last character was a backslash is the first argument.
unfoldable read : Bool → Text → Option (Text × Text)
unfolding unescaped
read pending [] = none
read true (c ∷ text) = with_unescaped (unescaped c) (read false text)
read false (c ∷ text) =
    let pending = read true text in
    let plain = with_first c (read false text) in
    if eqb c backslash then pending else if eqb c quote then some ([], text) else plain

unfoldable pub read_label_value : Text → Option (Text × Text)
unfolding read
read_label_value text = read false text

append_assoc : (a b c : Text) → (a ++ b) ++ c ≡ a ++ (b ++ c)
append_assoc [] b c = refl
append_assoc (x ∷ a) b c = ap (λ l. x ∷ l) (append_assoc a b c)

replace-append :
    (old : ℕ) (new a b : Text) → replace old new (a ++ b) ≡ replace old new a ++ replace old new b
unfolding replace
replace-append old new [] b = refl
replace-append old new (c ∷ a) b =
    ground
      (arith, replace-append old new a b, append_assoc new (replace old new a) (replace old new b))

escape-append :
    (a b : Text) → escape_label_value (a ++ b) ≡ escape_label_value a ++ escape_label_value b
unfolding escape_label_value
escape-append a b = rw (replace-append, replace-append, replace-append)

escape-one : (c : ℕ) → escape_label_value (c ∷ []) ≡ escaped c
unfolding escape_label_value escaped replace
escape-one c = ground arith

-- The three replacements, one after the other, escape each character on its own.
escape-cons :
    (c : ℕ) (text : Text) → escape_label_value (c ∷ text) ≡ escaped c ++ escape_label_value text
escape-cons c text =
    escape-append (c ∷ []) text ∙ ap (λ l. l ++ escape_label_value text) (escape-one c)

read-escaped :
    (c : ℕ) (text : Text) → read false (escaped c ++ text) ≡ with_first c (read false text)
unfolding read escaped unescaped
read-escaped c text = ground arith

read_escaped_text :
    (value rest : Text) → read false (escape_label_value value ++ quote ∷ rest) ≡ some (value, rest)
read_escaped_text [] rest = unfold read escape_label_value in refl
read_escaped_text (c ∷ value) rest =
    ap (λ l. read false (l ++ quote ∷ rest)) (escape-cons c value)
    ∙ ap (read false) (append_assoc (escaped c) (escape_label_value value) (quote ∷ rest))
    ∙ read-escaped c (escape_label_value value ++ quote ∷ rest)
    ∙ ap (with_first c) (read_escaped_text value rest)

-- From an escaped label value between quotes the text format reads the label value back, whatever
-- characters it holds, and stops at the closing quote.
pub read_label_value-escape :
    (value rest : Text)
    → read_label_value (escape_label_value value ++ quote ∷ rest) ≡ some (value, rest)
unfolding read_label_value
read_label_value-escape value rest = read_escaped_text value rest

-- No newline.
abbrev pub is_one_line : Text → Bool
is_one_line text = all_rows (λ c. not (eqb c newline)) text

pub is_one_line-append :
    (a b : Text) → is_one_line a ≡ true → is_one_line b ≡ true → is_one_line (a ++ b) ≡ true
unfolding all_rows
is_one_line-append [] b first second = second
is_one_line-append (c ∷ a) b first second = ground (arith, is_one_line-append a b, second)

escaped-one_line : (c : ℕ) → is_one_line (escaped c) ≡ true
unfolding escaped all_rows
escaped-one_line c = ground arith

pub escape-one_line : (value : Text) → is_one_line (escape_label_value value) ≡ true
escape-one_line [] = unfold escape_label_value all_rows in refl
escape-one_line (c ∷ value) =
    ap is_one_line (escape-cons c value)
    ∙ is_one_line-append (escaped c) (escape_label_value value) (escaped-one_line c)
        (escape-one_line value)
