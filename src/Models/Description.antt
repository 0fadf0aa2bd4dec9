-- ===== src/Models/Description.antt =====
-- src/network_change_delivery/models.py: `validate_ios_description`, `DesiredDescription` and
-- `render_junos_interface_description`. A text is walked by its code points.
use Prim.Native.Char.{code}
use Prim.Native.String.{[], ◌∷◌, ◌++◌}
use network_change_delivery.Base.{
  ℕ, suc, String, Bool, true, false, not, ◌&&◌, ◌||◌, nat_beq, leb, ltb, if◌then◌else◌,
}

-- `len(value)`
unfoldable pub char_count : String → ℕ
char_count [] = 0
char_count (c ∷ s) = suc (char_count s)

-- What `str.strip` removes.
unfoldable pub is_space : ℕ → Bool
is_space c =
    (leb 9 c && leb c 13)
    || (leb 28 c && leb c 32)
    || nat_beq c 133
    || nat_beq c 160
    || nat_beq c 5760
    || (leb 8192 c && leb c 8202)
    || (leb 8232 c && leb c 8233)
    || nat_beq c 8239
    || nat_beq c 8287
    || nat_beq c 12288

-- `not value.strip()`
unfoldable pub is_blank : String → Bool
unfolding is_space
is_blank [] = true
is_blank (c ∷ s) = is_space (code c) && is_blank s

-- `any(ord(character) < 32 or ord(character) == 127 for character in value)`
has_control : String → Bool
has_control [] = false
has_control (c ∷ s) = ltb (code c) 32 || nat_beq (code c) 127 || has_control s

-- Whether `validate_ios_description(value)` returns; `require_nonempty` is always true here.
unfoldable pub validate_ios_description : String → Bool
unfolding char_count is_blank has_control
validate_ios_description value =
    leb (char_count value) 240 && not (is_blank value) && not (has_control value)

-- Whether `DesiredDescription(description=value)` is accepted.
unfoldable pub desired_description : String → Bool
unfolding validate_ios_description
desired_description value =
    leb 1 (char_count value) && leb (char_count value) 240 && validate_ios_description value

-- Character data of an element, as `ElementTree.tostring` escapes it.
escape_cdata : String → String
escape_cdata [] = []
escape_cdata (c ∷ s) =
    let rest = escape_cdata s in
    if nat_beq (code c) b'&'
    then "&amp;" ++ rest
    else if nat_beq (code c) b'<'
    then "&lt;" ++ rest
    else if nat_beq (code c) b'>'
    then "&gt;" ++ rest
    else c ∷ rest

-- An element that holds a text only; an empty one is written short.
text_element : String → String → String
unfolding escape_cdata
text_element tag [] = "<" ++ (tag ++ " />")
text_element tag (c ∷ s) = "<" ++ (tag ++ (">" ++ (escape_cdata (c ∷ s) ++ ("</" ++ (tag ++ ">")))))

unfoldable pub render_junos_interface_description : String → String → String
unfolding text_element
render_junos_interface_description interface description =
    "<configuration><interfaces><interface>"
    ++ (text_element "name" interface
        ++ (text_element "description" description ++ "</interface></interfaces></configuration>"))
