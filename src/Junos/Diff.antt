-- ===== src/Junos/Diff.antt =====
-- `_diff_is_scoped`, with the operations of Python's texts that it uses, over code points.
use Prim.Native.Char.{code}
use Prim.Native.String.{[] as empty_text, ◌∷◌ as text_cons}
use mathlib.Core.List.{reverse}
use network_change_delivery.Base.{
  ℕ, String, Bool, true, false, ◌&&◌, ◌||◌, Option, none, some, List, [], ◌∷◌, ◌++◌, length, all,
  keep, contains, nat_beq, leb, ◌≡◌, refl, ◌==◌, nat_eq, list_eq, list_beq, if◌then◌else◌, map,
}
use network_change_delivery.Models.Description.{is_space}

abbrev pub Codes : Type 0
Codes = List ℕ

abbrev pub codes : String → Codes
codes empty_text = []
codes (text_cons c s) = code c ∷ codes s

-- Where `str.splitlines` breaks.
is_break : ℕ → Bool
is_break c =
    (leb 10 c && leb c 13)
    || (leb 28 c && leb c 30)
    || nat_beq c 133
    || nat_beq c 8232
    || nat_beq c 8233

abbrev read_so_far : Option Codes → Codes
read_so_far none = []
read_so_far (some line) = line

abbrev so_far : Option Codes → Codes
so_far none = []
so_far (some line) = reverse line

-- The line read so far stands reversed; a line feed right behind a carriage return belongs to it.
split_from : Bool → Option Codes → Codes → List Codes
unfolding is_break
split_from returned none [] = []
split_from returned (some line) [] = reverse line ∷ []
split_from returned current (c ∷ cs) = elim (returned && nat_beq c 10) [
  | true ↦ split_from false none cs
  | false ↦ elim (is_break c) [
    | true ↦ so_far current ∷ split_from (nat_beq c 13) none cs
    | false ↦ split_from false (some (c ∷ read_so_far current)) cs
  ]
]

-- `splitlines()`
unfoldable pub split_lines : Codes → List Codes
unfolding split_from
split_lines text = split_from false none text

-- `lstrip()` and `strip()`
unfoldable pub strip_left : Codes → Codes
strip_left [] = []
strip_left (c ∷ cs) = if is_space c then strip_left cs else c ∷ cs

unfoldable pub strip : Codes → Codes
unfolding strip_left
strip text = reverse (strip_left (reverse (strip_left text)))

words_from : Option Codes → Codes → List Codes
words_from none [] = []
words_from (some word) [] = reverse word ∷ []
words_from current (c ∷ cs) = elim (is_space c) [
  | true ↦ elim current [
    | none ↦ words_from none cs
    | some word ↦ reverse word ∷ words_from none cs
  ]
  | false ↦ words_from (some (c ∷ read_so_far current)) cs
]

join_words : List Codes → Codes
join_words [] = []
join_words (w ∷ ws) = elim ws [ [] ↦ w | _ ∷ _ ↦ w ++ (32 ∷ join_words ws) ]

-- `" ".join(text.split())`
unfoldable pub respaced : Codes → Codes
unfolding words_from join_words
respaced text = join_words (words_from none text)

-- `startswith` and `endswith`
abbrev pub starts_with : Codes → Codes → Bool
starts_with [] text = true
starts_with (p ∷ ps) [] = false
starts_with (p ∷ ps) (c ∷ cs) = nat_beq p c && starts_with ps cs

abbrev pub ends_with : Codes → Codes → Bool
ends_with suffix text = starts_with (reverse suffix) (reverse text)

-- The lines that a difference marks with a sign, with single spaces.
changed_line : Codes → List Codes
changed_line [] = []
changed_line (c ∷ cs) = if nat_beq c b'+' || nat_beq c b'-' then (c ∷ 32 ∷ respaced cs) ∷ [] else []

changed_lines : List Codes → List Codes
unfolding changed_line
changed_lines [] = []
changed_lines (line ∷ lines) = changed_line (strip_left line) ++ changed_lines lines

headers_of : List Codes → List Codes
headers_of lines = keep (starts_with (codes "[edit ")) (map strip lines)

is_addition : Codes → Bool
is_addition line = starts_with (codes "+ description ") line && ends_with (codes ";") line

existing_interface_change : Codes → List Codes → List Codes → Bool
unfolding is_addition
existing_interface_change interface headers changed =
    let additions = keep is_addition changed in
    headers == ((codes "[edit interfaces " ++ (interface ++ codes "]")) ∷ [])
    && nat_beq (length additions) 1
    && all (λ line. contains additions line || starts_with (codes "- description ") line) changed

created_interface_change : Codes → List Codes → List Codes → Bool
created_interface_change interface headers (first ∷ second ∷ third ∷ []) =
    headers == (codes "[edit interfaces]" ∷ [])
    && first == (codes "+ " ++ (interface ++ codes " {"))
    && starts_with (codes "+ description ") second
    && ends_with (codes ";") second
    && third == codes "+ }"
created_interface_change interface headers changed = false

-- `_diff_is_scoped`
unfoldable pub diff_is_scoped : String → String → Bool
unfolding changed_lines headers_of existing_interface_change created_interface_change
diff_is_scoped interface diff =
    let lines = split_lines (codes diff) in
    existing_interface_change (codes interface) (headers_of lines) (changed_lines lines)
    || created_interface_change (codes interface) (headers_of lines) (changed_lines lines)

edit_is_scoped :
    diff_is_scoped "ge-0/0/0"
      "[edit interfaces ge-0/0/0]\n-   description old;\n+   description \"new uplink\";\n"
    ≡ true
unfolding diff_is_scoped is_space list_beq split_lines strip respaced
edit_is_scoped = refl

other_edit_is_rejected :
    diff_is_scoped "ge-0/0/0" "[edit interfaces ge-0/0/0]\n+   description new;\n+   disable;\n"
    ≡ false
unfolding diff_is_scoped is_space list_beq split_lines strip respaced
other_edit_is_rejected = refl
