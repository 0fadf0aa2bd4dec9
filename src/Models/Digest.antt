-- ===== src/Models/Digest.antt =====
-- `Sha256Digest` of src/network_change_delivery/models.py: the form of a digest, and a text of that form.
use Prim.Native.Char.{code}
use Prim.Native.String.{[] as empty_text, ◌∷◌ as text_cons, slice, len}
use network_change_delivery.Base.{
  ℕ, String, Bool, true, false, ◌&&◌, ◌||◌, nat_beq, leb, ◌==◌, string_eq, ◌≡◌, Option, none, some,
}
use network_change_delivery.Models.Description.{char_count}

is_hex : ℕ → Bool
is_hex c = (leb b'0' c && leb c b'9') || (leb b'a' c && leb c b'f')

all_hex : String → Bool
unfolding is_hex
all_hex empty_text = true
all_hex (text_cons c s) = is_hex (code c) && all_hex s

-- `re.fullmatch(r"sha256:[0-9a-f]{64}", text)`
unfoldable pub is_digest : String → Bool
unfolding all_hex char_count
is_digest text =
    let rest = slice text 7 (len text) in
    slice text 0 7 == "sha256:" && nat_beq (char_count rest) 64 && all_hex rest

-- A value of a field of that type; the other fields with the pattern come from the plan or its approval.
pub record Sha256Digest : Type 0 where
  pub text : String
  pub formed : is_digest text ≡ true

-- `==` on optional digests
unfoldable pub optional_digest_beq : Option Sha256Digest → Option Sha256Digest → Bool
optional_digest_beq none none = true
optional_digest_beq (some a) (some b) = a.text == b.text
optional_digest_beq _ _ = false
